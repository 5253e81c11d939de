-- ===== src/Valve.antt =====
-- The valve (src/valve): the gates that the module holds open in NoDogSplash, and how each is
-- opened, metered and closed.
pub mod State
pub mod Ndsctl
pub mod Baseline
pub mod Close
pub mod Clients
pub mod Open
