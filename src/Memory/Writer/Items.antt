-- ===== src/Memory/Writer/Items.antt =====
-- The item operations of memory/writer.py: `_live_item`, `_new_item`, `_changed_item`,
-- `_create_item`, the updates, `_supersede`, `_correct` and `_fulfil`.
use nd_mind.Base.{
  ℕ, String, Bool, true, false, not, ◌&&◌, ◌||◌, Option, none, some, List, [], ◌∷◌, ◌==◌, str_eq,
  if◌then◌else◌, is_none, is_some, get_or,
}
use Prim.Native.Char.{code}
use nd_mind.Base.Dict.{lookup}
use nd_mind.Core.{ItemStatus, LinkType, TargetType, WriteOp, valid_state}
use nd_mind.Memory.Records.{
  CategoryRecord, ItemContent, ItemEntityRecord, ItemRecord, LinkRecord, Snapshot, TriggerRecord,
  layer,
}
use nd_mind.Memory.Changes.{Changes, merge, no_changes, nonempty}
use nd_mind.Memory.Ops.{
  CorrectItem, CreateItem, EntityLink, FulfilIntention, NewTrigger, SupersedeItem,
}
use nd_mind.Memory.Tables.{
  insert_item, insert_item_entity, insert_link, is_active, put_trigger, replace_item,
  upsert_category,
}
use nd_mind.Memory.Exec.{
  Error, Exec, Outcome, ◌>>=◌, ◌>>◌, or_skip, pure, raise_if, reads, skip_if, writes,
}
use nd_mind.Memory.Writer.Turn.{RowLog, Turn, add, add_as, fresh}

abbrev pub is_deleted : ItemStatus → Bool
is_deleted ItemStatus.deleted = true
is_deleted _ = false

-- `_live_item`
unfoldable pub live_item : ℕ → Bool → Exec ItemRecord
live_item item_id allow_deleted = do
  found ← reads (λ t. lookup item_id t.items)
  item ← or_skip found "the memory no longer exists"
  skip_if (is_deleted item.content.status && not allow_deleted) "the memory was deleted"
  pure item

-- `slug.rsplit("/", 1)[-1]`: what stands behind the last slash; `best` is what stands behind the
-- last one so far.
unfoldable pub behind_slash : String → String → String
behind_slash best String.[] = best
behind_slash best (String.◌∷◌ c s) = behind_slash (if code c == b'/' then s else best) s

-- Python's truth of an optional text.
abbrev pub truthy : Option String → Bool
truthy none = false
truthy (some s) = not (str_eq s "")

-- `_slug_category`
unfoldable pub slug_category : Turn → String → Option String → Exec ℕ
unfolding behind_slash upsert_category
slug_category turn slug name = do
  id ← fresh turn
  let proposed : CategoryRecord = record {
    id = id;
    workspace_id = turn.workspace_id;
    slug = slug;
    display_name = if truthy name then get_or name "" else behind_slash slug slug;
    aliases = [];
  }
  stored ← λ tx. (
    Outcome.ok (upsert_category proposed tx.tables).0,
    record tx { tables = (upsert_category proposed tx.tables).1 },
  )
  pure stored.id

-- `_category`
unfoldable pub category : Turn → CreateItem → Exec (Option ℕ)
unfolding slug_category
category turn op =
    if truthy op.category_slug
    then (do id ← slug_category turn (get_or op.category_slug "") op.category_name; pure (some id))
    else pure op.item.category_id

-- The content of a new item: with its category, and confirmed for core by a confirmed turn.
unfoldable pub new_content : Turn → ItemContent → Option ℕ → ItemContent
new_content turn item category_id = record item {
  category_id = if is_some category_id then category_id else item.category_id;
  core_confirmed_at =
      if item.in_core && turn.confirmed then some turn.now else item.core_confirmed_at;
}

unfoldable pub new_record : Turn → CreateItem → Option ℕ → ItemRecord
unfolding new_content
new_record turn op category_id = record {
  id = op.item_id;
  workspace_id = turn.workspace_id;
  created_at = turn.now;
  updated_at = turn.now;
  created_by_turn_id = turn.turn_id;
  updated_by_turn_id = turn.turn_id;
  content = new_content turn op.item category_id;
}

-- `_new_item`
unfoldable pub new_item : Turn → CreateItem → Option ℕ → Exec ItemRecord
unfolding new_record
new_item turn op category_id = do
  raise_if (not (valid_state op.item.kind op.item.state)) Error.invalid_state
  pure (new_record turn op category_id)

-- The content after a change; a change that puts the item in core confirms it in a confirmed turn.
unfoldable pub changed_content : Turn → ItemContent → Changes → ItemContent
unfolding merge
changed_content turn before changes =
    let after = merge before changes in
    if get_or changes.in_core false && not before.in_core && turn.confirmed
    then record after { core_confirmed_at = some turn.now }
    else after

unfoldable pub changed_record : Turn → ItemRecord → Changes → ItemRecord
unfolding changed_content
changed_record turn before changes = record before {
  updated_at = turn.now;
  updated_by_turn_id = turn.turn_id;
  content = changed_content turn before.content changes;
}

-- `_changed_item`
unfoldable pub changed_item : Turn → ItemRecord → Changes → Exec ItemRecord
unfolding changed_record
changed_item turn before changes = do
  raise_if (nonempty changes.unknown) Error.unknown_fields
  let after = changed_record turn before changes
  raise_if (not (valid_state after.content.kind after.content.state)) Error.invalid_state
  pure after

-- `_insert_link`
unfoldable pub add_link : Turn → ℕ → ℕ → LinkType → ℕ → Exec LinkRecord
add_link turn id src link_type dst = do
  let link : LinkRecord = record {
    id = id;
    workspace_id = turn.workspace_id;
    src_item_id = src;
    link_type = link_type;
    dst_item_id = dst;
    created_by_turn_id = turn.turn_id;
  }
  writes (insert_link link)
  pure link

-- `changes["category_id"]`, for a change that re-files the item under a slug.
unfoldable pub refile : Turn → Changes → Exec Changes
unfolding slug_category
refile turn changes = elim changes.category_slug [
  | none ↦ pure changes
  | some slug ↦ do
    id ← slug_category turn slug none
    pure (record changes { category_id = some (some id); category_slug = none })
]

-- The case of `_apply` for an update, a state, a delete and a restore.
unfoldable pub change_item : Turn → ℕ → Changes → RowLog → Exec RowLog
unfolding live_item refile changed_item
change_item turn item_id changes log = do
  before ← live_item item_id true
  filed ← refile turn changes
  after ← changed_item turn before filed
  writes (replace_item after)
  pure (
      add TargetType.item after.id (some (Snapshot.item before)) (some (Snapshot.item after))
        (layer after) log)

-- The rows of a new item's entities.
unfoldable pub attach_all : Turn → ItemRecord → List EntityLink → RowLog → Exec RowLog
attach_all turn item [] log = pure log
attach_all turn item (l ∷ ls) log = do
  entity ← reads (λ t. lookup l.entity_id t.entities)
  raise_if (is_none entity) Error.no_entity
  let row : ItemEntityRecord = record {
    id = l.row_id;
    workspace_id = turn.workspace_id;
    item_id = item.id;
    entity_id = l.entity_id;
    role = l.role;
    created_by_turn_id = turn.turn_id;
  }
  writes (insert_item_entity row)
  attach_all turn item ls (
      add_as WriteOp.link TargetType.item_entity row.id none (some (Snapshot.item_entity row))
        (layer item) log)

-- The triggers of a new item.
unfoldable pub trigger_all : Turn → ItemRecord → List NewTrigger → RowLog → Exec RowLog
trigger_all turn item [] log = pure log
trigger_all turn item (n ∷ ns) log = do
  let row : TriggerRecord = record {
    id = n.trigger_id;
    workspace_id = turn.workspace_id;
    item_id = item.id;
    created_at = turn.now;
    updated_at = turn.now;
    created_by_turn_id = turn.turn_id;
    updated_by_turn_id = turn.turn_id;
    content = n.trigger;
  }
  writes (put_trigger row)
  trigger_all turn item ns
      (add TargetType.trigger row.id none (some (Snapshot.trigger row)) (layer item) log)

-- `_create_item`
unfoldable pub create_item : Turn → CreateItem → RowLog → Exec RowLog
unfolding category new_item attach_all trigger_all
create_item turn op log = do
  category_id ← category turn op
  item ← new_item turn op category_id
  stored ← reads (λ t. lookup item.id t.items)
  skip_if (is_some stored) "already exists"
  raise_if (not (item.workspace_id == turn.store_workspace)) Error.wrong_workspace
  writes (insert_item item)
  linked ←
      attach_all turn item op.entities
        (add TargetType.item item.id none (some (Snapshot.item item)) (layer item) log)
  trigger_all turn item op.triggers linked

abbrev pub supersedable : String → Bool
supersedable s = str_eq s "current" || str_eq s "scheduled"

-- Replace an item by its changed record and link the new item to it: the end of `_supersede`,
-- `_correct` and `_fulfil`.
unfoldable pub close_item : Turn → ItemRecord → Changes → ℕ → ℕ → LinkType → RowLog → Exec RowLog
unfolding changed_item add_link
close_item turn old changes link_id new_id link_type log = do
  after ← changed_item turn old changes
  writes (replace_item after)
  link ← add_link turn link_id new_id link_type old.id
  pure (
      add TargetType.link link.id none (some (Snapshot.link link)) (layer old) (
        add TargetType.item old.id (some (Snapshot.item old)) (some (Snapshot.item after))
          (layer old) log))

-- `_supersede`
unfoldable pub supersede : Turn → SupersedeItem → RowLog → Exec RowLog
unfolding live_item close_item
supersede turn op log = do
  old ← live_item op.old_id false
  new ← live_item op.new_id false
  skip_if (is_some old.content.valid_to || not (supersedable old.content.state))
      "the old memory was already superseded"
  close_item turn old
      (record no_changes { state = some op.state; valid_to = some (some op.valid_to) }) op.link_id
      new.id LinkType.supersedes log

-- `_correct`
unfoldable pub correct : Turn → CorrectItem → RowLog → Exec RowLog
unfolding live_item close_item
correct turn op log = do
  old ← live_item op.old_id false
  new ← live_item op.new_id false
  skip_if (not (is_active old.content.status)) "the old memory was already corrected"
  close_item turn old (record no_changes { status = some ItemStatus.archived }) op.link_id new.id
      LinkType.corrects log

-- `_fulfil`
unfoldable pub fulfil : Turn → FulfilIntention → RowLog → Exec RowLog
unfolding live_item close_item
fulfil turn op log = do
  intention ← live_item op.intention_id false
  episode ← live_item op.episode_id false
  skip_if (str_eq intention.content.state "fulfilled" || str_eq intention.content.state "dropped")
      "the intention was already closed"
  close_item turn intention (record no_changes { state = some op.state }) op.link_id episode.id
      LinkType.fulfils log
