-- ===== src/Memory/Undo/Tests.antt =====
-- Undoing a small turn: it made one item and changed another, which a later turn changed again.
use nd_mind.Base.{ℕ, none, some, [], ◌∷◌, ◌≡◌, refl, All, map}
use nd_mind.Base.Sorting.{sort_by}
use nd_mind.Base.Dict.{lookup}
use nd_mind.Core.{Decision, Reason, TargetType, Trust, WriteOp, Layer}
use nd_mind.Memory.Fixtures.{empty, fact}
use nd_mind.Memory.Ops.{Action}
use nd_mind.Memory.Records.{ItemContent, ItemRecord, Snapshot, WriteLogRecord}
use nd_mind.Memory.Tables.{Tables, turn_rows}
use nd_mind.Memory.Undo.Inverse.{inverse, inverse_item, undo_op}
use nd_mind.Memory.Undo.Plan.{
  conflict, conflicted, fromkeys, inverses, plan_undo, sort_down, sort_up,
}
use nd_mind.Memory.Undo.Plan.Complete.{mem-plan_undo}
use nd_mind.Memory.Undo.Plan.Safe.{Undoes, plan_undo-Undoes}
use nd_mind.Memory.Undo.Restore.{IsUndone, inverse_item-IsUndone}
use mathlib.Core.List.{Memᴰ}

abbrev moved : ItemContent
moved = record fact { text = "lives in Goa" }

abbrev item : ℕ → ℕ → ItemContent → ItemRecord
item id by content = record {
  id = id;
  workspace_id = 7;
  created_at = 1;
  updated_at = 2;
  created_by_turn_id = 100;
  updated_by_turn_id = by;
  content = content;
}

abbrev made : WriteLogRecord
made = record {
  turn_id = 100;
  seq = 0;
  op = WriteOp.create;
  target_type = TargetType.item;
  target_id = 20;
  layer = Layer.archive;
  title = "home";
  before = none;
  after = some (Snapshot.item (item 20 100 fact));
  rationale = "said so";
  trust = Trust.user_stated;
  decision = Decision.allowed;
  rule_id = "allow";
  reason = Reason.text "";
}

abbrev changed : WriteLogRecord
changed = record made {
  seq = 1;
  op = WriteOp.update;
  target_id = 21;
  before = some (Snapshot.item (item 21 90 fact));
  after = some (Snapshot.item (item 21 100 moved));
}

abbrev tables : Tables
tables = record empty {
  items = (20, item 20 100 fact) ∷ (21, item 21 101 moved) ∷ [];
  write_log = made ∷ changed ∷ [];
}

planned : map (λ op. op.action) (plan_undo (λ n. n) tables 100).ops ≡ Action.delete_item 20 ∷ []
unfolding plan_undo turn_rows sort_up sort_down sort_by fromkeys conflicted conflict inverses
    inverse lookup
planned = refl

plan_undo-Undoes_example : All (Undoes (λ n. n) tables 100) (plan_undo (λ n. n) tables 100).ops
plan_undo-Undoes_example = plan_undo-Undoes (λ n. n) tables 100

mem-plan_undo_example :
    Memᴰ (undo_op made (Action.delete_item 20)) (plan_undo (λ n. n) tables 100).ops
unfolding turn_rows sort_up sort_by fromkeys conflicted conflict inverse lookup
mem-plan_undo_example =
    mem-plan_undo (λ n. n) tables 100 made (Action.delete_item 20) (Memᴰ.head refl) refl refl refl
      refl

inverse_item-IsUndone_example : IsUndone 21 fact moved (inverse_item 21 fact moved)
inverse_item-IsUndone_example = inverse_item-IsUndone 21 fact moved
