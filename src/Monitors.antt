-- ===== src/Monitors.antt =====
-- src/jim/monitors: scheduled research that speaks only when something changed.
pub mod Models
pub mod Diff
pub mod Materiality
pub mod Triggers
pub mod Impersonal
pub mod Notify
pub mod Update
pub mod Engine
pub mod Authoring
