-- ===== src/Memory/Tables.antt =====
-- memory/adapters/inmemory.py: the tables of one workspace and the writes that the memory writer
-- makes on them. Keys and access rows are no part: the writer never touches them; and the faults
-- that a test injects are not modelled.
use nd_mind.Base.{
  ℕ, suc, String, Bool, true, false, ◌&&◌, ◌||◌, Option, none, some, List, [], ◌∷◌, ◌++◌, ltb, ◌==◌,
  str_eq, if◌then◌else◌, take, filter, length,
}
use nd_mind.Base.Dict.{Dict, lookup, insert, remove, values}
use nd_mind.Core.{ItemStatus, Layer, VocabKind}
use nd_mind.Memory.Records.{
  CategoryRecord, EntityRecord, ItemEntityRecord, ItemRecord, LinkRecord, RelationRecord,
  TriggerRecord, VersionRecord, VocabRecord, WriteLogRecord,
}
use nd_mind.Memory.Ops.{Op}
use nd_mind.Core.{Reason}

pub data HeldStatus : Type 0 where
  pending confirmed rejected : HeldStatus

-- The title of a held write: an op's, or the counts of a whole turn that is held.
pub data HeldTitle : Type 0 where
  text : String → HeldTitle
  changes_to_items : ℕ → ℕ → HeldTitle

-- `HeldWriteRecord`; its ops are kept as they are, where the code dumps them to JSON.
pub record HeldWriteRecord : Type 0 where
  pub id : ℕ
  pub workspace_id : ℕ
  pub turn_id : ℕ
  pub ops : List Op
  pub rule_id : String
  pub reason : Reason
  pub title : HeldTitle
  pub layer : Layer
  pub status : HeldStatus
  pub resolved_turn_id : Option ℕ
  pub created_at : ℕ
  pub resolved_at : Option ℕ

pub record Tables : Type 0 where
  pub items : Dict ItemRecord
  pub entities : Dict EntityRecord
  pub item_entities : Dict ItemEntityRecord
  pub links : Dict LinkRecord
  pub relations : Dict RelationRecord
  pub triggers : Dict TriggerRecord
  -- A dict whose key is the row's own slug.
  pub categories : List CategoryRecord
  pub vocab : List VocabRecord
  pub write_log : List WriteLogRecord
  pub held : Dict HeldWriteRecord
  pub versions : List VersionRecord

-- `insert_item`, behind its check of the workspace.
unfoldable pub insert_item : ItemRecord → Tables → Tables
insert_item r t = record t { items = insert r.id r t.items }

-- Only retrieval bookkeeping changes the access fields.
abbrev pub keep_access : Option ItemRecord → ItemRecord → ItemRecord
keep_access none r = r
keep_access (some stored) r = record r {
  content = record r.content {
    access_count = stored.content.access_count;
    last_accessed_at = stored.content.last_accessed_at;
  };
}

unfoldable pub replace_item : ItemRecord → Tables → Tables
replace_item r t = record t { items = insert r.id (keep_access (lookup r.id t.items) r) t.items }

-- `insert_entity` behind its check, and `replace_entity`.
unfoldable pub put_entity : EntityRecord → Tables → Tables
put_entity r t = record t { entities = insert r.id r t.entities }

unfoldable pub insert_item_entity : ItemEntityRecord → Tables → Tables
insert_item_entity r t = record t { item_entities = insert r.id r t.item_entities }

unfoldable pub delete_item_entity : ℕ → Tables → Tables
delete_item_entity k t = record t { item_entities = remove k t.item_entities }

unfoldable pub insert_link : LinkRecord → Tables → Tables
insert_link r t = record t { links = insert r.id r t.links }

unfoldable pub delete_link : ℕ → Tables → Tables
delete_link k t = record t { links = remove k t.links }

unfoldable pub insert_relation : RelationRecord → Tables → Tables
insert_relation r t = record t { relations = insert r.id r t.relations }

unfoldable pub delete_relation : ℕ → Tables → Tables
delete_relation k t = record t { relations = remove k t.relations }

-- `insert_trigger` and `replace_trigger`.
unfoldable pub put_trigger : TriggerRecord → Tables → Tables
put_trigger r t = record t { triggers = insert r.id r t.triggers }

abbrev pub find_category : String → List CategoryRecord → Option CategoryRecord
find_category slug [] = none
find_category slug (c ∷ cs) = if str_eq c.slug slug then some c else find_category slug cs

-- `setdefault`: the stored row if there is one, else the new one.
abbrev pub or_add_category :
    CategoryRecord → Option CategoryRecord → Tables → CategoryRecord × Tables
or_add_category r none t = (r, record t { categories = t.categories ++ r ∷ [] })
or_add_category r (some stored) t = (stored, t)

unfoldable pub upsert_category : CategoryRecord → Tables → CategoryRecord × Tables
upsert_category r t = or_add_category r (find_category r.slug t.categories) t

abbrev pub vocab_eq : VocabKind → VocabKind → Bool
vocab_eq VocabKind.subtype VocabKind.subtype = true
vocab_eq VocabKind.predicate VocabKind.predicate = true
vocab_eq VocabKind.relation VocabKind.relation = true
vocab_eq _ _ = false

abbrev pub has_vocab : VocabRecord → List VocabRecord → Bool
has_vocab r [] = false
has_vocab r (v ∷ vs) = vocab_eq v.vocab r.vocab && str_eq v.slug r.slug || has_vocab r vs

unfoldable pub upsert_vocab : VocabRecord → Tables → Tables
upsert_vocab r t = if has_vocab r t.vocab then t else record t { vocab = t.vocab ++ r ∷ [] }

unfoldable pub insert_write_log : List WriteLogRecord → Tables → Tables
insert_write_log rows t = record t { write_log = t.write_log ++ rows }

unfoldable pub insert_held_write : HeldWriteRecord → Tables → Tables
insert_held_write h t = record t { held = insert h.id h t.held }

unfoldable pub insert_version : VersionRecord → Tables → Tables
insert_version v t = record t { versions = t.versions ++ v ∷ [] }

-- `next_version`: one more than the versions that the item has.
unfoldable pub next_version : ℕ → Tables → ℕ
next_version item_id t = suc (length (filter (λ v. v.item_id == item_id) t.versions))

-- `write_log(turn_id)` sorts these by `seq`; the writer takes their maximum only.
unfoldable pub turn_rows : ℕ → Tables → List WriteLogRecord
turn_rows turn_id t = filter (λ r. r.turn_id == turn_id) t.write_log

abbrev pub is_active : ItemStatus → Bool
is_active ItemStatus.active = true
is_active _ = false

-- Newest first, as `find_items` sorts; the identifier breaks ties.
abbrev newer : ItemRecord → ItemRecord → Bool
newer a b = ltb b.created_at a.created_at || a.created_at == b.created_at && ltb b.id a.id

abbrev place : ItemRecord → List ItemRecord → List ItemRecord
place i [] = i ∷ []
place i (j ∷ js) = let rest = place i js in if newer i j then i ∷ j ∷ js else j ∷ rest

abbrev sort_newest : List ItemRecord → List ItemRecord
sort_newest [] = []
sort_newest (i ∷ is) = place i (sort_newest is)

-- `find_items(in_core=True)` with its default limit of 200.
unfoldable pub core_items : Tables → List ItemRecord
core_items t =
    take 200
      (sort_newest (filter (λ i. is_active i.content.status && i.content.in_core) (values t.items)))
