-- ===== src/Memory/Undo.antt =====
-- memory/undo.py: the ops that take back what a turn wrote.
pub mod Diff
pub mod Inverse
pub mod Plan
pub mod Restore
mod Tests
