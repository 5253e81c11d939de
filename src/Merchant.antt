-- ===== src/Merchant.antt =====
-- The merchant (src/merchant): sessions, pricing, access grants and the journals of what was paid.
pub mod State
pub mod Pricing
pub mod Session
pub mod Access
pub mod Metering
pub mod OwedGrant
pub mod Intent
pub mod Receive
pub mod Purchase
pub mod Ticket
pub mod Rebind
pub mod Quote
pub mod Payout
pub mod Reconcile
