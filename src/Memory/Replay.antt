-- ===== src/Memory/Replay.antt =====
-- An independent reading of the write log of memory/writer.py: what its rows say that they did to
-- the tables.
pub mod Laws
use nd_mind.Base.{ℕ, Option, none, some, List, [], ◌∷◌, ◌≡◌, if◌then◌else◌}
use nd_mind.Memory.Records.{Snapshot, WriteLogRecord}
use nd_mind.Memory.Tables.{
  Tables, delete_item_entity, delete_link, delete_relation, insert_item, insert_item_entity,
  insert_link, insert_relation, put_entity, put_trigger, replace_item,
}
use nd_mind.Memory.Writer.Commit.{is_allowed}

-- A row is put in place by its after snapshot, and taken away where it has only one of before.
abbrev pub effect : Option Snapshot → Option Snapshot → ℕ → Tables → Tables
effect none (some (Snapshot.item r)) id t = insert_item r t
effect (some _) (some (Snapshot.item r)) id t = replace_item r t
effect _ (some (Snapshot.entity r)) id t = put_entity r t
effect _ (some (Snapshot.item_entity r)) id t = insert_item_entity r t
effect _ (some (Snapshot.link r)) id t = insert_link r t
effect _ (some (Snapshot.relation r)) id t = insert_relation r t
effect _ (some (Snapshot.trigger r)) id t = put_trigger r t
effect (some (Snapshot.link _)) none id t = delete_link id t
effect (some (Snapshot.item_entity _)) none id t = delete_item_entity id t
effect (some (Snapshot.relation _)) none id t = delete_relation id t
effect _ none id t = t

-- Only an allowed row has done anything.
abbrev pub replay_row : WriteLogRecord → Tables → Tables
replay_row row t =
    if is_allowed row.decision then effect row.before row.after row.target_id t else t

abbrev pub replay : List WriteLogRecord → Tables → Tables
replay [] t = t
replay (row ∷ rows) t = replay rows (replay_row row t)

-- The tables that the write log speaks of, and the log itself, are the same.
pub record SameRows (a b : Tables) : Type 0 where
  pub items : a.items ≡ b.items
  pub entities : a.entities ≡ b.entities
  pub item_entities : a.item_entities ≡ b.item_entities
  pub links : a.links ≡ b.links
  pub relations : a.relations ≡ b.relations
  pub triggers : a.triggers ≡ b.triggers
  pub write_log : a.write_log ≡ b.write_log
