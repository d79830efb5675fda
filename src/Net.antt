-- ===== src/Net.antt =====
-- src/jim/net.
pub mod Resilience
