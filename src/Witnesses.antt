-- ===== src/Witnesses.antt =====
-- The properties at concrete inputs: one shop, its owner, its buyer, and a few orders.
mod Shop
mod Orders
mod Payments
mod Money
mod Webhook
mod Reversals
mod Parcels
mod Delivery
mod Settlement
