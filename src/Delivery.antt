-- ===== src/Delivery.antt =====
-- backend/src/delivery/delivery.service.ts: deliveries from the quote to the payout.
pub mod Config
pub mod Quote
pub mod Tokens
pub mod Shipments
pub mod Finalize
pub mod Conformity
pub mod Code
pub mod Access
pub mod Dispatch
pub mod Assign
pub mod Running
pub mod Partners
pub mod Handover
pub mod Chat
pub mod Payout
pub mod Dispute
