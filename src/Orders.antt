-- ===== src/Orders.antt =====
-- backend/src/orders/orders.service.ts.
pub mod Credit
pub mod View
pub mod Payment
pub mod Status
pub mod Cancel
pub mod Pricing
pub mod Create
pub mod Reads
