-- ===== src/Research/Gate.antt =====
-- src/jim/research/gate.py: the sourcing gate.
pub mod Patterns
pub mod Numbers
pub mod Figures
pub mod Sourcing
