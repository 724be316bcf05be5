-- ===== src/Memory/Sound.antt =====
-- What holds of every stored item, whatever is committed: its state is one of its kind's, and it is
-- no secret; and what a turn that is held leaves as it was.
pub mod Items
pub mod Graph
pub mod Ops
pub mod Create
pub mod Step
pub mod Judge
pub mod Round
pub mod Commit
pub mod Hold
