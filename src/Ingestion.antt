-- ===== src/Ingestion.antt =====
-- The ingestion of a message: what is said is resolved to dates and times.
pub mod Result
pub mod Dates
pub mod Time
pub mod Reconcile
