-- ===== src/Core.antt =====
-- The memory vocabulary of backend/src/secondmind/core/memory_model.py, and the policy verdicts
-- of core/events.py.
pub mod Vocabulary
pub mod Lifecycle
pub mod Verdict
pub use Vocabulary.*
unfoldable pub use Lifecycle.*
pub use Verdict.*
