-- ===== src/Merchant/Quote.antt =====
-- The Lightning invoices of the merchant (src/merchant/lightning.go): their table with its bounds,
-- the order of an invoice, the grant of access for a paid one, and the restart. The mint's answers
-- are arguments.
pub mod State
pub mod Budget
pub mod Admission
pub mod Grant
