-- ===== src/Memory/Writer.antt =====
-- memory/writer.py: the memory writer, the only way domain code changes memory.
pub mod Turn
pub mod Items
pub mod Graph
pub mod Facts
pub mod Apply
pub mod Commit
