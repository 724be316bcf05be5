-- ===== src/Memory/Records.antt =====
-- memory/records.py: the stored shapes of memory rows. Identifiers are numbers, which the code only
-- compares; a moment is the number of microseconds since the first one that Python can express.
use nd_mind.Base.{ℕ, String, Bool, Option, List, if◌then◌else◌}
use nd_mind.Core.{
  Decision, EntityKind, EntityRole, ItemStatus, Kind, Layer, LinkType, Modality, Reason,
  Sensitivity, Source, TargetType, TimePrecision, TriggerOn, TriggerState, Trust, VocabKind,
  WriteOp,
}

-- The fields of an item that are only stored: no operation looks into them. A value is kept as
-- its JSON text.
pub data DetailField : Type 0 where
  raw_content content_ref subtype format summary tags attributes enrichment rationale value
        sentiment rating importance :
      DetailField

pub record ItemContent : Type 0 where
  pub status : ItemStatus
  pub source : Source
  pub trust : Trust
  pub kind : Kind
  pub state : String
  pub text : String
  pub title : String
  pub category_id : Option ℕ
  pub subject_entity_id : Option ℕ
  pub predicate : Option String
  pub mentioned_at : ℕ
  pub occurred_start : Option ℕ
  pub occurred_end : Option ℕ
  pub time_precision : Option TimePrecision
  pub rrule : Option String
  pub due_at : Option ℕ
  pub valid_from : Option ℕ
  pub valid_to : Option ℕ
  pub modality : Modality
  pub confidence : ℕ
  pub sensitivity : Sensitivity
  pub access_count : ℕ
  pub last_accessed_at : Option ℕ
  pub in_core : Bool
  pub core_confirmed_at : Option ℕ
  pub in_quick : Bool
  pub quick_reason : Option String
  pub quick_until : Option ℕ
  pub details : DetailField → Option String

pub record ItemRecord : Type 0 where
  pub id : ℕ
  pub workspace_id : ℕ
  pub created_at : ℕ
  pub updated_at : ℕ
  pub created_by_turn_id : ℕ
  pub updated_by_turn_id : ℕ
  pub content : ItemContent
  pub open content use *

abbrev pub layer : ItemRecord → Layer
layer i =
    if i.content.in_core
    then Layer.core
    else if i.content.in_quick
    then Layer.quick
    else Layer.archive

pub data EntityStatus : Type 0 where
  active deleted : EntityStatus

pub record EntityContent : Type 0 where
  pub kind : EntityKind
  pub name : String
  pub aliases : List String
  pub labels : List String
  pub is_key : Bool
  pub attributes : String
  pub summary : Option String
  pub summary_updated_at : Option ℕ
  pub status : EntityStatus

pub record EntityRecord : Type 0 where
  pub id : ℕ
  pub workspace_id : ℕ
  pub created_at : ℕ
  pub updated_at : ℕ
  pub created_by_turn_id : Option ℕ
  pub updated_by_turn_id : Option ℕ
  pub content : EntityContent

pub record ItemEntityRecord : Type 0 where
  pub id : ℕ
  pub workspace_id : ℕ
  pub item_id : ℕ
  pub entity_id : ℕ
  pub role : EntityRole
  pub created_by_turn_id : ℕ

pub record LinkRecord : Type 0 where
  pub id : ℕ
  pub workspace_id : ℕ
  pub src_item_id : ℕ
  pub link_type : LinkType
  pub dst_item_id : ℕ
  pub created_by_turn_id : ℕ

pub record RelationRecord : Type 0 where
  pub id : ℕ
  pub workspace_id : ℕ
  pub src_entity_id : ℕ
  pub relation : String
  pub dst_entity_id : ℕ
  pub valid_from : Option ℕ
  pub valid_to : Option ℕ
  pub evidence_item_id : Option ℕ
  pub created_by_turn_id : ℕ

pub record TriggerContent : Type 0 where
  pub on : TriggerOn
  pub spec : String
  pub fires_at : Option ℕ
  pub state : TriggerState
  pub expires_at : Option ℕ

pub record TriggerRecord : Type 0 where
  pub id : ℕ
  pub workspace_id : ℕ
  pub item_id : ℕ
  pub created_at : ℕ
  pub updated_at : ℕ
  pub created_by_turn_id : ℕ
  pub updated_by_turn_id : ℕ
  pub content : TriggerContent

pub record CategoryRecord : Type 0 where
  pub id : ℕ
  pub workspace_id : ℕ
  pub slug : String
  pub display_name : String
  pub aliases : List String

pub record VocabRecord : Type 0 where
  pub id : ℕ
  pub workspace_id : ℕ
  pub vocab : VocabKind
  pub slug : String
  pub aliases : List String

-- A before or after snapshot: the dump of a row, which names its type.
pub data Snapshot : Type 0 where
  item : ItemRecord → Snapshot
  entity : EntityRecord → Snapshot
  item_entity : ItemEntityRecord → Snapshot
  link : LinkRecord → Snapshot
  relation : RelationRecord → Snapshot
  trigger : TriggerRecord → Snapshot

pub record WriteLogRecord : Type 0 where
  pub turn_id : ℕ
  pub seq : ℕ
  pub op : WriteOp
  pub target_type : TargetType
  pub target_id : ℕ
  pub layer : Layer
  pub title : String
  pub before : Option Snapshot
  pub after : Option Snapshot
  pub rationale : String
  pub trust : Trust
  pub decision : Decision
  pub rule_id : String
  pub reason : Reason

pub record VersionRecord : Type 0 where
  pub item_id : ℕ
  pub turn_id : ℕ
  pub version : ℕ
  pub snapshot : Snapshot
