-- ===== src/Wireless.antt =====
-- The choice of an upstream network (src/wireless_gateway_manager).
pub mod State
pub mod Candidates
pub mod Manager
