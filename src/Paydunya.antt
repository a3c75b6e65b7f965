-- ===== src/Paydunya.antt =====
-- backend/src/paydunya/paydunya.service.ts: the webhook of the payment provider.
pub mod Signature
pub mod Settle
pub mod Webhook
