-- ===== src/Memory/Undo/Plan.antt =====
-- `plan_undo` and `_conflict` of memory/undo.py.
pub mod Complete
pub mod Safe
pub mod Targets
use nd_mind.Base.{
  ℕ, String, Bool, true, false, not, ◌&&◌, ◌||◌, Option, none, some, List, [], ◌∷◌, ◌++◌, ltb, leb,
  ◌==◌, str_eq, if◌then◌else◌, any, filter, map,
}
use nd_mind.Base.Sorting.{sort_by}
use nd_mind.Base.Dict.{Dict, lookup, values}
use nd_mind.Core.{Decision, ItemStatus, TargetType}
use nd_mind.Memory.Ops.{Action, Op}
use nd_mind.Memory.Records.{
  EntityRecord, ItemEntityRecord, ItemRecord, TriggerRecord, WriteLogRecord,
}
use nd_mind.Memory.Tables.{Tables, is_active, turn_rows}
use nd_mind.Memory.Undo.Inverse.{inverse, undo_op}

-- By `seq`, ascending, and with `reverse=True`.
unfoldable pub sort_up : List WriteLogRecord → List WriteLogRecord
sort_up rows = sort_by (λ r x. leb r.seq x.seq) rows

unfoldable pub sort_down : List WriteLogRecord → List WriteLogRecord
sort_down rows = sort_by (λ r x. leb x.seq r.seq) rows

-- `write_log` of the store.
abbrev pub write_log : ℕ → Tables → List WriteLogRecord
write_log turn_id t = sort_up (turn_rows turn_id t)

abbrev pub row_allowed : Decision → Bool
row_allowed Decision.allowed = true
row_allowed _ = false

-- Why a row is left as it is: a later turn changed it, or other memories point at it.
pub data ConflictReason : Type 0 where
  changed_later still_used : ConflictReason

abbrev pub type_eq : TargetType → TargetType → Bool
type_eq TargetType.item TargetType.item = true
type_eq TargetType.entity TargetType.entity = true
type_eq TargetType.trigger TargetType.trigger = true
type_eq TargetType.link TargetType.link = true
type_eq TargetType.item_entity TargetType.item_entity = true
type_eq TargetType.relation TargetType.relation = true
type_eq _ _ = false

abbrev pub type_name : TargetType → String
type_name TargetType.item = "item"
type_name TargetType.entity = "entity"
type_name TargetType.trigger = "trigger"
type_name TargetType.link = "link"
type_name TargetType.item_entity = "item_entity"
type_name TargetType.relation = "relation"

abbrev pub UndoTarget : Type 0
UndoTarget = TargetType × ℕ

abbrev pub target_eq : UndoTarget → UndoTarget → Bool
target_eq (t, i) (u, j) = type_eq t u && i == j

-- `dict.fromkeys`: each key once, in the order in which they first come.
unfoldable pub fromkeys : List UndoTarget → List UndoTarget
fromkeys [] = []
fromkeys (x ∷ xs) = x ∷ filter (λ y. not (target_eq x y)) (fromkeys xs)

abbrev pub is_number : Option ℕ → ℕ → Bool
is_number none n = false
is_number (some m) n = m == n

abbrev active_item : Option ItemRecord → Bool
active_item none = false
active_item (some i) = is_active i.content.status

-- `entity_items`: the active items that are attached to an entity or have it as their subject, in
-- no special order; an item can stand twice, where the code has a set.
unfoldable pub entity_items : ℕ → Tables → List ℕ
entity_items e t =
    filter (λ i. active_item (lookup i t.items))
      (map (λ r. r.item_id) (filter (λ r. r.entity_id == e) (values t.item_entities))
        ++ map (λ i. i.id) (filter (λ i. is_number i.content.subject_entity_id e) (values t.items)))

abbrev created_in : ℕ → Option ItemRecord → Bool
created_in turn_id none = false
created_in turn_id (some i) = i.created_by_turn_id == turn_id

-- Some item is not one of the turn's own: `set(others) - created_here`.
abbrev pub used_elsewhere : ℕ → Tables → List ℕ → Bool
used_elsewhere turn_id t others = any (λ i. not (created_in turn_id (lookup i t.items))) others

abbrev pub item_conflict : ℕ → Option ItemRecord → Option ConflictReason
item_conflict turn_id none = none
item_conflict turn_id (some i) =
    if i.updated_by_turn_id == turn_id then none else some ConflictReason.changed_later

abbrev pub trigger_conflict : ℕ → Option TriggerRecord → Option ConflictReason
trigger_conflict turn_id none = none
trigger_conflict turn_id (some r) =
    if r.updated_by_turn_id == turn_id then none else some ConflictReason.changed_later

abbrev pub entity_conflict : ℕ → Tables → List ℕ → Option EntityRecord → Option ConflictReason
entity_conflict turn_id t others none = none
entity_conflict turn_id t others (some e) =
    if not (is_number e.updated_by_turn_id turn_id)
    then some ConflictReason.changed_later
    else if is_number e.created_by_turn_id turn_id && used_elsewhere turn_id t others
    then some ConflictReason.still_used
    else none

unfoldable pub conflict : Tables → ℕ → UndoTarget → Option ConflictReason
conflict t turn_id (TargetType.item, id) = item_conflict turn_id (lookup id t.items)
conflict t turn_id (TargetType.entity, id) =
    entity_conflict turn_id t (entity_items id t) (lookup id t.entities)
conflict t turn_id (TargetType.trigger, id) = trigger_conflict turn_id (lookup id t.triggers)
conflict t turn_id _ = none

abbrev first_title : ℕ → List WriteLogRecord → String
first_title id [] = ""
first_title id (r ∷ rs) = if r.target_id == id then r.title else first_title id rs

abbrev item_id_of : UndoTarget → Option ℕ
item_id_of (TargetType.item, id) = some id
item_id_of _ = none

-- A conflict: its title, its reason and the item.
pub record Conflict : Type 0 where
  pub title : String
  pub reason : ConflictReason
  pub item_id : Option ℕ

abbrev conflict_of : List WriteLogRecord → UndoTarget → ConflictReason → Conflict
conflict_of rows target reason = record {
  title =
      (let title = first_title target.1 rows in
        if str_eq title "" then type_name target.0 else title);
  reason = reason;
  item_id = item_id_of target;
}

abbrev add_conflict :
    List WriteLogRecord → UndoTarget → Option ConflictReason → List Conflict → List Conflict
add_conflict rows target none found = found
add_conflict rows target (some reason) found = conflict_of rows target reason ∷ found

abbrev conflicts_of : Tables → ℕ → List WriteLogRecord → List UndoTarget → List Conflict
conflicts_of t turn_id rows [] = []
conflicts_of t turn_id rows (x ∷ xs) =
    add_conflict rows x (conflict t turn_id x) (conflicts_of t turn_id rows xs)

abbrev pub add_conflicted : ℕ → Option ConflictReason → List ℕ → List ℕ
add_conflicted id none ids = ids
add_conflicted id (some r) ids = id ∷ ids

-- `conflicted`
unfoldable pub conflicted : Tables → ℕ → List UndoTarget → List ℕ
conflicted t turn_id [] = []
conflicted t turn_id (x ∷ xs) = add_conflicted x.1 (conflict t turn_id x) (conflicted t turn_id xs)

abbrev pub add_op : WriteLogRecord → Option Action → List Op → List Op
add_op row none ops = ops
add_op row (some action) ops = undo_op row action ∷ ops

-- The loop over the rows; the identifier that a row draws is `new_id` of its `seq`.
unfoldable pub inverses : (ℕ → ℕ) → List ℕ → List WriteLogRecord → List Op
inverses new_id skipped [] = []
inverses new_id skipped (row ∷ rows) =
    let rest = inverses new_id skipped rows in
    if any (◌==◌ row.target_id) skipped
    then rest
    else add_op row (inverse (new_id row.seq) row) rest

pub record UndoPlan : Type 0 where
  pub ops : List Op
  pub conflicts : List Conflict
  pub nothing_to_undo : Bool

abbrev pub is_empty {ℓ} : {A : Type ℓ} → List A → Bool
is_empty [] = true
is_empty (x ∷ xs) = false

abbrev pub undo_rows : Tables → ℕ → List WriteLogRecord
undo_rows t turn_id = filter (λ r. row_allowed r.decision) (write_log turn_id t)

abbrev pub targets : List WriteLogRecord → List UndoTarget
targets rows = fromkeys (map (λ r. (r.target_type, r.target_id)) rows)

unfoldable pub plan_undo : (ℕ → ℕ) → Tables → ℕ → UndoPlan
plan_undo new_id t turn_id =
    let rows = undo_rows t turn_id in
    record {
      ops = inverses new_id (conflicted t turn_id (targets rows)) (sort_down rows);
      conflicts = conflicts_of t turn_id rows (targets rows);
      nothing_to_undo = is_empty rows;
    }
