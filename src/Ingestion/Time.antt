-- ===== src/Ingestion/Time.antt =====
-- ingestion/time.py: a time that a message names, resolved against the moment of the turn.
pub mod Spans
pub mod Rules
pub mod Months
pub mod Clocks
pub mod Resolve
pub mod Expressions
pub mod Windows
pub mod Anchors
pub mod Ranges
mod Tests
