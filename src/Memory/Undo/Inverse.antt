-- ===== src/Memory/Undo/Inverse.antt =====
-- `_inverse` of memory/undo.py: the op that takes one row of the write log back.
use nd_mind.Base.{ℕ, Bool, true, false, ◌&&◌, ◌||◌, Option, none, some, if◌then◌else◌}
use nd_mind.Core.{EntityKind, ItemStatus, Origin, TargetType, TriggerOn, TriggerState, Trust}
use nd_mind.Memory.Changes.{Changes, content_changed, names_quick}
use nd_mind.Memory.Ops.{Action, Op, TriggerChanges}
use nd_mind.Memory.Records.{ItemContent, Snapshot, TriggerContent, WriteLogRecord}
use nd_mind.Memory.Undo.Diff.{String-discrete, changes_back, if_other, moment-discrete}

-- `if changes`
abbrev pub names_any : Changes → Bool
names_any c = content_changed c || names_quick c

abbrev pub was_active : ItemStatus → Bool
was_active ItemStatus.active = true
was_active _ = false

abbrev pub was_deleted : ItemStatus → Bool
was_deleted ItemStatus.deleted = true
was_deleted _ = false

-- An item that was there before and after.
unfoldable pub inverse_item : ℕ → ItemContent → ItemContent → Option Action
inverse_item id before after =
    if was_active before.status && was_deleted after.status
    then some (Action.restore_item id)
    else if was_deleted before.status && was_active after.status
    then some (Action.delete_item id)
    else if names_any (changes_back before after)
    then some (Action.update_item id (changes_back before after))
    else none

pub TriggerOn-discrete : Discrete TriggerOn
TriggerOn-discrete = hlevel

pub TriggerState-discrete : Discrete TriggerState
TriggerState-discrete = hlevel

unfoldable pub trigger_back : TriggerContent → TriggerContent → TriggerChanges
trigger_back b a = record {
  on = if_other (TriggerOn-discrete b.on a.on);
  spec = if_other (String-discrete b.spec a.spec);
  fires_at = if_other (moment-discrete b.fires_at a.fires_at);
  state = if_other (TriggerState-discrete b.state a.state);
  expires_at = if_other (moment-discrete b.expires_at a.expires_at);
}

abbrev is_given {ℓ} : {A : Type ℓ} → Option A → Bool
is_given none = false
is_given (some x) = true

abbrev pub names_any_trigger : TriggerChanges → Bool
names_any_trigger c =
    is_given c.on
    || is_given c.spec
    || is_given c.fires_at
    || is_given c.state
    || is_given c.expires_at

unfoldable pub inverse_trigger : ℕ → TriggerContent → TriggerContent → Option Action
inverse_trigger id before after =
    if names_any_trigger (trigger_back before after)
    then some (Action.update_trigger id (trigger_back before after))
    else none

abbrev self_kind : EntityKind → Bool
self_kind EntityKind.self = true
self_kind _ = false

abbrev new_self : Option Snapshot → Bool
new_self (some (Snapshot.entity e)) = self_kind e.content.kind
new_self _ = false

-- A row that was new.
abbrev remove_new : TargetType → ℕ → Option Snapshot → Option Action
remove_new TargetType.item id after = some (Action.delete_item id)
remove_new TargetType.entity id after =
    if new_self after then none else some (Action.delete_entity id)
remove_new TargetType.link id after = some (Action.unlink_items id)
remove_new TargetType.item_entity id after = some (Action.detach_entity id)
remove_new TargetType.relation id after = some (Action.unrelate_entities id)
remove_new TargetType.trigger id after = some (Action.set_trigger_state id TriggerState.cancelled)

-- A row that was there; its snapshots are of its type. `new_id` is the identifier that is drawn for
-- a row that comes back.
abbrev put_back : ℕ → ℕ → Snapshot → Option Snapshot → Option Action
put_back new_id id (Snapshot.item b) (some (Snapshot.item a)) = inverse_item id b.content a.content
put_back new_id id (Snapshot.item b) _ = none
put_back new_id id (Snapshot.entity b) after =
    some (Action.upsert_entity (record { entity_id = id; entity = b.content; create = false }))
put_back new_id id (Snapshot.link b) after = some (
    Action.link_items (record {
      link_id = new_id;
      src_id = b.src_item_id;
      link_type = b.link_type;
      dst_id = b.dst_item_id;
    }))
put_back new_id id (Snapshot.item_entity b) after = some (
    Action.attach_entity
      (record { row_id = new_id; item_id = b.item_id; entity_id = b.entity_id; role = b.role }))
put_back new_id id (Snapshot.relation b) after = some (
    Action.relate_entities (record {
      relation_id = new_id;
      src_entity_id = b.src_entity_id;
      relation = b.relation;
      dst_entity_id = b.dst_entity_id;
      valid_from = b.valid_from;
      evidence_item_id = b.evidence_item_id;
    }))
put_back new_id id (Snapshot.trigger b) (some (Snapshot.trigger a)) =
    inverse_trigger id b.content a.content
put_back new_id id (Snapshot.trigger b) _ = none

abbrev of_before : ℕ → TargetType → ℕ → Option Snapshot → Option Snapshot → Option Action
of_before new_id target_type id none after = remove_new target_type id after
of_before new_id target_type id (some before) after = put_back new_id id before after

unfoldable pub inverse : ℕ → WriteLogRecord → Option Action
inverse new_id row = of_before new_id row.target_type row.target_id row.before row.after

-- The op with the fields that all of an undo have.
abbrev pub undo_op : WriteLogRecord → Action → Op
undo_op row action = record {
  title = row.title;
  rationale = "undo";
  trust = Trust.user_stated;
  origin = Origin.undo;
  action = action;
}
