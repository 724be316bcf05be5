-- ===== src/Memory.antt =====
-- memory/: the records, the operations, the store and the writer.
pub mod Records
pub mod Changes
pub mod Ops
pub mod Tables
pub mod Exec
pub mod CoreLayer
pub mod Writer
pub mod Sound
pub mod Replay
pub mod Undo
pub mod Recurrence
pub mod Quick
pub mod Fixtures
mod Tests
