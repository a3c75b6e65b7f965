-- ===== src/Boutiques.antt =====
-- backend/src/boutiques/boutiques.service.ts.
pub mod Wallet
pub mod Lifecycle
