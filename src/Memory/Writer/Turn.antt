-- ===== src/Memory/Writer/Turn.antt =====
-- The turn that a writer belongs to, its settings, and the rows that it logs: `WriterTurn`,
-- `WriterSettings`, `log_row`, `_RowLog` and `_target` of memory/writer.py.
use nd_mind.Base.{ℕ, zero, suc, ◌+◌, String, Bool, Option, List, [], ◌∷◌, ◌++◌, length}
use nd_mind.Core.{Decision, Layer, PolicyVerdict, Reason, TargetType, WriteOp}
use nd_mind.Policy.Rules.{verdict}
use nd_mind.Memory.Records.{Snapshot, WriteLogRecord}
use nd_mind.Memory.Ops.{Action, Op, op_label}
use nd_mind.Memory.Exec.{Exec, Outcome}

-- `WriterTurn` and `WriterSettings`, the flag of a confirmed turn, the workspace that the store is
-- bound to, the source of fresh identifiers (by how many were drawn), and where the turn's
-- write-log sequence goes on.
pub record Turn : Type 0 where
  pub turn_id : ℕ
  pub workspace_id : ℕ
  pub kind : String
  pub now : ℕ
  pub bulk_threshold : ℕ
  pub core_token_budget : ℕ
  pub confirmed : Bool
  pub store_workspace : ℕ
  pub new_id : ℕ → ℕ
  pub seq_base : ℕ

-- `new_id()`
abbrev pub fresh : Turn → Exec ℕ
fresh turn tx = (Outcome.ok (turn.new_id tx.draws), record tx { draws = suc tx.draws })

-- `text[:n]`
unfoldable pub prefix : ℕ → String → String
prefix zero s = ""
prefix (suc n) String.[] = ""
prefix (suc n) (String.◌∷◌ c s) = String.◌∷◌ c (prefix n s)

pub record Target : Type 0 where
  pub type : TargetType
  pub id : ℕ

unfoldable pub log_row :
    Turn
    → Op
    → ℕ
    → PolicyVerdict
    → Target
    → Layer
    → Option Snapshot
    → Option Snapshot
    → WriteOp
    → WriteLogRecord
log_row turn op seq v target layer before after label = record {
  turn_id = turn.turn_id;
  seq = turn.seq_base + seq;
  op = label;
  target_type = target.type;
  target_id = target.id;
  layer = layer;
  title = prefix 300 op.title;
  before = before;
  after = after;
  rationale = prefix 1000 op.rationale;
  trust = op.trust;
  decision = v.decision;
  rule_id = v.rule_id;
  reason = v.reason;
}

-- `_RowLog`: the rows that one applied op has produced.
pub record RowLog : Type 0 where
  pub turn : Turn
  pub op : Op
  pub seq : ℕ
  pub rows : List WriteLogRecord

abbrev pub allowed : PolicyVerdict
allowed = verdict Decision.allowed "P-DEFAULT" (Reason.text "")

-- `_RowLog.add`, with a label of its own.
unfoldable pub add_as :
    WriteOp → TargetType → ℕ → Option Snapshot → Option Snapshot → Layer → RowLog → RowLog
unfolding log_row
add_as label type id before after layer log = record log {
  rows =
      log.rows
      ++ log_row log.turn log.op (log.seq + length log.rows + 1) allowed
          (record { type = type; id = id }) layer before after label
        ∷ [];
}

-- `_RowLog.add`, with the op's label.
unfoldable pub add : TargetType → ℕ → Option Snapshot → Option Snapshot → Layer → RowLog → RowLog
unfolding add_as
add type id before after layer log = add_as (op_label log.op) type id before after layer log

abbrev pub target_of : Action → Target
target_of (Action.create_item c) = record { type = TargetType.item; id = c.item_id }
target_of (Action.update_item i _) = record { type = TargetType.item; id = i }
target_of (Action.set_item_state i _) = record { type = TargetType.item; id = i }
target_of (Action.delete_item i) = record { type = TargetType.item; id = i }
target_of (Action.restore_item i) = record { type = TargetType.item; id = i }
target_of (Action.supersede_item s) = record { type = TargetType.item; id = s.old_id }
target_of (Action.correct_item c) = record { type = TargetType.item; id = c.old_id }
target_of (Action.fulfil_intention f) = record { type = TargetType.item; id = f.intention_id }
target_of (Action.link_items l) = record { type = TargetType.link; id = l.link_id }
target_of (Action.unlink_items i) = record { type = TargetType.link; id = i }
target_of (Action.attach_entity a) = record { type = TargetType.item_entity; id = a.row_id }
target_of (Action.detach_entity i) = record { type = TargetType.item_entity; id = i }
target_of (Action.upsert_entity u) = record { type = TargetType.entity; id = u.entity_id }
target_of (Action.delete_entity i) = record { type = TargetType.entity; id = i }
target_of (Action.relate_entities r) = record { type = TargetType.relation; id = r.relation_id }
target_of (Action.unrelate_entities i) = record { type = TargetType.relation; id = i }
target_of (Action.set_trigger_state i _) = record { type = TargetType.trigger; id = i }
target_of (Action.update_trigger i _) = record { type = TargetType.trigger; id = i }
