-- ===== src/Sources.antt =====
-- src/jim/sources and the buyer client that it pays with.
pub mod Pay
pub mod Procure
pub mod Peer
