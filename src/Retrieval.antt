-- ===== src/Retrieval.antt =====
-- Answering a question from the memories (retrieval/).
pub mod Candidates
pub mod Select
pub mod Tests
