-- ===== src/Interop.antt =====
-- src/jim/interop.
pub mod Attest
pub mod CallChain
pub mod Trust
