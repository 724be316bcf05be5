-- ===== src/Memory/Replay/Laws.antt =====
-- Replaying respects `SameRows`, and the writer's log grows by what its rows say.
use nd_mind.Base.{
  ℕ, Option, none, some, List, [], ◌∷◌, ◌++◌, ◌≡◌, refl, ◌∙◌, arith, Bool-cases, inl, inr,
}
use nd_mind.Core.{Layer, TargetType, WriteOp}
use nd_mind.Memory.Records.{Snapshot, WriteLogRecord}
use nd_mind.Memory.Tables.{
  Tables, delete_item_entity, delete_link, delete_relation, insert_item, insert_item_entity,
  insert_link, insert_relation, put_entity, put_trigger, replace_item,
}
use nd_mind.Memory.Writer.Turn.{RowLog, add, add_as}
use nd_mind.Memory.Replay.{SameRows, effect, replay, replay_row}
use nd_mind.Memory.Writer.Commit.{is_allowed}

pub SameRows-refl : (a : Tables) → SameRows a a
SameRows-refl a = record {
  items = refl;
  entities = refl;
  item_entities = refl;
  links = refl;
  relations = refl;
  triggers = refl;
  write_log = refl;
}

pub SameRows-trans : {a b c : Tables} → SameRows a b → SameRows b c → SameRows a c
SameRows-trans p q = record {
  items = p.items ∙ q.items;
  entities = p.entities ∙ q.entities;
  item_entities = p.item_entities ∙ q.item_entities;
  links = p.links ∙ q.links;
  relations = p.relations ∙ q.relations;
  triggers = p.triggers ∙ q.triggers;
  write_log = p.write_log ∙ q.write_log;
}

SameRows-effect :
    (b a : Option Snapshot) (id : ℕ) {x y : Tables}
    → SameRows x y
    → SameRows (effect b a id x) (effect b a id y)
unfolding insert_item replace_item put_entity insert_item_entity insert_link insert_relation
    put_trigger delete_link delete_item_entity delete_relation
SameRows-effect none none id s = s
SameRows-effect (some (Snapshot.item r)) none id s = s
SameRows-effect (some (Snapshot.entity r)) none id s = s
SameRows-effect (some (Snapshot.item_entity r)) none id s = ground arith
SameRows-effect (some (Snapshot.link r)) none id s = ground arith
SameRows-effect (some (Snapshot.relation r)) none id s = ground arith
SameRows-effect (some (Snapshot.trigger r)) none id s = s
SameRows-effect none (some (Snapshot.item r)) id s = ground arith
SameRows-effect (some b) (some (Snapshot.item r)) id s = ground arith
SameRows-effect none (some (Snapshot.entity r)) id s = ground arith
SameRows-effect (some b) (some (Snapshot.entity r)) id s = ground arith
SameRows-effect none (some (Snapshot.item_entity r)) id s = ground arith
SameRows-effect (some b) (some (Snapshot.item_entity r)) id s = ground arith
SameRows-effect none (some (Snapshot.link r)) id s = ground arith
SameRows-effect (some b) (some (Snapshot.link r)) id s = ground arith
SameRows-effect none (some (Snapshot.relation r)) id s = ground arith
SameRows-effect (some b) (some (Snapshot.relation r)) id s = ground arith
SameRows-effect none (some (Snapshot.trigger r)) id s = ground arith
SameRows-effect (some b) (some (Snapshot.trigger r)) id s = ground arith

SameRows-replay_row :
    (row : WriteLogRecord) {x y : Tables}
    → SameRows x y
    → SameRows (replay_row row x) (replay_row row y)
SameRows-replay_row row s = elim (Bool-cases (is_allowed row.decision)) [
  | inl yes_ ↦ rw yes_ (SameRows-effect row.before row.after row.target_id s)
  | inr no_ ↦ rw no_ s
]

pub SameRows-replay :
    (rows : List WriteLogRecord) {x y : Tables}
    → SameRows x y
    → SameRows (replay rows x) (replay rows y)
SameRows-replay [] s = s
SameRows-replay (row ∷ rows) s = SameRows-replay rows (SameRows-replay_row row s)

pub replay-append :
    (rs qs : List WriteLogRecord) (t : Tables) → replay (rs ++ qs) t ≡ replay qs (replay rs t)
replay-append [] qs t = refl
replay-append (r ∷ rs) qs t = replay-append rs qs (replay_row r t)

-- The rows logged so far, replayed on the first tables, give the present ones.
abbrev pub Logged : Tables → RowLog → Tables → Type 0
Logged start log t = SameRows (replay log.rows start) t

pub Logged-add_as :
    (label : WriteOp) (type : TargetType) (id : ℕ) (b a : Option Snapshot) (layer : Layer)
    (log : RowLog) (start : Tables) {t : Tables}
    → Logged start log t
    → Logged start (add_as label type id b a layer log) (effect b a id t)
unfolding add_as
Logged-add_as label type id b a layer log start l = rw replay-append (SameRows-effect b a id l)

pub Logged-add :
    (type : TargetType) (id : ℕ) (b a : Option Snapshot) (layer : Layer) (log : RowLog)
    (start : Tables) {t : Tables}
    → Logged start log t
    → Logged start (add type id b a layer log) (effect b a id t)
unfolding add
Logged-add type id b a layer log start l = rw replay-append (SameRows-effect b a id l)
