-- ===== src/Upstream.antt =====
-- The gateway as a customer of another TollGate (src/upstream_session_manager).
pub mod Usage
pub mod Session
pub mod Bootstrap
