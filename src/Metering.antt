-- ===== src/Metering.antt =====
-- The metering package (metering/): quotas, the spend store and the spend gate.
pub mod Quota
pub mod Store
pub mod Limits
pub mod Gate
pub mod Checks
pub mod Counters
pub mod Ledger
pub mod RateLimit
pub mod AppBlock
pub mod Guarantees
pub mod Tests
