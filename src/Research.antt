-- ===== src/Research.antt =====
-- src/jim/research.
pub mod Edgar
pub mod Facts
pub mod Budget
pub mod Gate
pub mod Identifiers
pub mod Cost
pub mod Completeness
pub mod Pipeline
pub mod Run
