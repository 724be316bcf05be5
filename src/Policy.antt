-- ===== src/Policy.antt =====
-- policy/rules.py: the write policy as a rule table.
pub mod Facts
pub mod Rules
pub mod Evaluate
pub mod Worst
pub mod Guarantees
mod Tests
