-- ===== src/Memory/Writer/Graph.antt =====
-- The operations of memory/writer.py on links, entities, relations and triggers.
use nd_mind.Base.{
  ℕ, Bool, true, false, not, Option, none, some, ◌==◌, if◌then◌else◌, is_some, get_or,
}
use nd_mind.Base.Dict.{lookup}
use nd_mind.Core.{EntityKind, Layer, TargetType, TriggerState}
use nd_mind.Memory.Records.{
  EntityRecord, EntityStatus, ItemEntityRecord, RelationRecord, Snapshot, TriggerContent,
  TriggerRecord,
}
use nd_mind.Memory.Ops.{AttachEntity, LinkItems, RelateEntities, TriggerChanges, UpsertEntity}
use nd_mind.Memory.Tables.{
  delete_item_entity, delete_link, delete_relation, insert_item_entity, insert_relation, put_entity,
  put_trigger,
}
use nd_mind.Memory.Exec.{Error, Exec, ◌>>=◌, ◌>>◌, or_skip, pure, raise_if, reads, skip_if, writes}
use nd_mind.Memory.Writer.Turn.{RowLog, Turn, add}
use nd_mind.Memory.Writer.Items.{add_link, live_item}

-- The case `LinkItems` of `_apply`.
unfoldable pub link_items : Turn → LinkItems → RowLog → Exec RowLog
unfolding live_item add_link
link_items turn op log = do
  live_item op.src_id false
  live_item op.dst_id false
  link ← add_link turn op.link_id op.src_id op.link_type op.dst_id
  pure (add TargetType.link link.id none (some (Snapshot.link link)) Layer.archive log)

-- The case `UnlinkItems`.
unfoldable pub unlink_items : ℕ → RowLog → Exec RowLog
unlink_items link_id log = do
  found ← reads (λ t. lookup link_id t.links)
  old ← or_skip found "the link no longer exists"
  writes (delete_link link_id)
  pure (add TargetType.link link_id (some (Snapshot.link old)) none Layer.archive log)

-- `_attach`
unfoldable pub attach : Turn → AttachEntity → RowLog → Exec RowLog
unfolding live_item
attach turn op log = do
  live_item op.item_id true
  let row : ItemEntityRecord = record {
    id = op.row_id;
    workspace_id = turn.workspace_id;
    item_id = op.item_id;
    entity_id = op.entity_id;
    role = op.role;
    created_by_turn_id = turn.turn_id;
  }
  writes (insert_item_entity row)
  pure (add TargetType.item_entity row.id none (some (Snapshot.item_entity row)) Layer.archive log)

-- The case `DetachEntity`.
unfoldable pub detach : ℕ → RowLog → Exec RowLog
detach row_id log = do
  found ← reads (λ t. lookup row_id t.item_entities)
  old ← or_skip found "the entity link no longer exists"
  writes (delete_item_entity row_id)
  pure (add TargetType.item_entity row_id (some (Snapshot.item_entity old)) none Layer.archive log)

abbrev pub is_self : EntityKind → Bool
is_self EntityKind.self = true
is_self _ = false

-- `_delete_entity`
unfoldable pub delete_entity : Turn → ℕ → RowLog → Exec RowLog
delete_entity turn entity_id log = do
  found ← reads (λ t. lookup entity_id t.entities)
  entity ← or_skip found "the entity can't be removed"
  skip_if (is_self entity.content.kind) "the entity can't be removed"
  let after : EntityRecord = record entity {
    updated_at = turn.now;
    updated_by_turn_id = some turn.turn_id;
    content = record entity.content { status = EntityStatus.deleted };
  }
  writes (put_entity after)
  pure (
      add TargetType.entity entity.id (some (Snapshot.entity entity)) (some (Snapshot.entity after))
        Layer.archive log)

-- `_relate`
unfoldable pub relate : Turn → RelateEntities → RowLog → Exec RowLog
relate turn op log = do
  let row : RelationRecord = record {
    id = op.relation_id;
    workspace_id = turn.workspace_id;
    src_entity_id = op.src_entity_id;
    relation = op.relation;
    dst_entity_id = op.dst_entity_id;
    valid_from = op.valid_from;
    valid_to = none;
    evidence_item_id = op.evidence_item_id;
    created_by_turn_id = turn.turn_id;
  }
  writes (insert_relation row)
  pure (add TargetType.relation row.id none (some (Snapshot.relation row)) Layer.archive log)

-- The case `UnrelateEntities`.
unfoldable pub unrelate : ℕ → RowLog → Exec RowLog
unrelate relation_id log = do
  found ← reads (λ t. lookup relation_id t.relations)
  old ← or_skip found "the relation no longer exists"
  writes (delete_relation relation_id)
  pure (add TargetType.relation relation_id (some (Snapshot.relation old)) none Layer.archive log)

unfoldable pub merge_trigger : TriggerContent → TriggerChanges → TriggerContent
merge_trigger b c = record {
  on = get_or c.on b.on;
  spec = get_or c.spec b.spec;
  fires_at = get_or c.fires_at b.fires_at;
  state = get_or c.state b.state;
  expires_at = get_or c.expires_at b.expires_at;
}

abbrev pub state_change : TriggerState → TriggerChanges
state_change s = record {
  on = none;
  spec = none;
  fires_at = none;
  state = some s;
  expires_at = none;
}

-- `_change_trigger`
unfoldable pub change_trigger : Turn → ℕ → TriggerChanges → RowLog → Exec RowLog
unfolding merge_trigger
change_trigger turn trigger_id changes log = do
  found ← reads (λ t. lookup trigger_id t.triggers)
  trigger ← or_skip found "the trigger no longer exists"
  let after : TriggerRecord = record trigger {
    updated_at = turn.now;
    updated_by_turn_id = turn.turn_id;
    content = merge_trigger trigger.content changes;
  }
  writes (put_trigger after)
  pure (
      add TargetType.trigger trigger.id (some (Snapshot.trigger trigger))
        (some (Snapshot.trigger after)) Layer.quick log)

-- `_upsert_entity`, where it creates.
unfoldable pub insert_new_entity : Turn → UpsertEntity → Option EntityRecord → RowLog → Exec RowLog
insert_new_entity turn op before log = do
  skip_if (is_some before) "the entity already exists"
  let row : EntityRecord = record {
    id = op.entity_id;
    workspace_id = turn.workspace_id;
    created_at = turn.now;
    updated_at = turn.now;
    created_by_turn_id = some turn.turn_id;
    updated_by_turn_id = some turn.turn_id;
    content = op.entity;
  }
  raise_if (not (row.workspace_id == turn.store_workspace)) Error.wrong_workspace
  writes (put_entity row)
  pure (add TargetType.entity row.id none (some (Snapshot.entity row)) Layer.archive log)

-- `_upsert_entity`, where it updates.
unfoldable pub update_entity : Turn → UpsertEntity → Option EntityRecord → RowLog → Exec RowLog
update_entity turn op found log = do
  before ← or_skip found "the entity no longer exists"
  let after : EntityRecord = record before {
    updated_at = turn.now;
    updated_by_turn_id = some turn.turn_id;
    content = op.entity;
  }
  writes (put_entity after)
  pure (
      add TargetType.entity after.id (some (Snapshot.entity before)) (some (Snapshot.entity after))
        Layer.archive log)

-- `_upsert_entity`
unfoldable pub upsert_entity : Turn → UpsertEntity → RowLog → Exec RowLog
unfolding insert_new_entity update_entity
upsert_entity turn op log = do
  before ← reads (λ t. lookup op.entity_id t.entities)
  (if op.create then insert_new_entity turn op before log else update_entity turn op before log)
