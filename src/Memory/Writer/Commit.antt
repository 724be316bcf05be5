-- ===== src/Memory/Writer/Commit.antt =====
-- `commit` of memory/writer.py, with `_apply_all`, `_hold_everything`, `_refuse` and
-- `_write_versions`: one transaction for all ops of a turn.
use nd_mind.Base.{
  ℕ, suc, ◌+◌, String, Bool, true, false, not, ◌&&◌, Option, none, some, List, [], ◌∷◌, ◌++◌, ltb,
  if◌then◌else◌, length, max, get_or,
}
use nd_mind.Base.Dict.{lookup}
use nd_mind.Core.{Decision, Layer, PolicyVerdict, Reason, TargetType, VocabKind}
use nd_mind.Policy.Facts.{OpFacts, PolicyContext}
use nd_mind.Policy.Rules.{is_secret, verdict}
use nd_mind.Policy.Evaluate.{evaluate}
use nd_mind.Memory.Records.{ItemRecord, WriteLogRecord, layer}
use nd_mind.Memory.Ops.{Action, Op, op_label}
use nd_mind.Memory.Tables.{
  HeldStatus, HeldTitle, HeldWriteRecord, Tables, insert_held_write, insert_version,
  insert_write_log, next_version, turn_rows, upsert_vocab,
}
use nd_mind.Memory.Exec.{Error, Exec, Outcome, Tx, ◌>>=◌, ◌>>◌, pure, raise, reads, writes}
use nd_mind.Memory.Writer.Turn.{Turn, fresh, log_row, target_of}
use nd_mind.Memory.Writer.Facts.{core_budget, created_items, edited_items, facts}
use nd_mind.Memory.Writer.Apply.{apply}

-- What happened to one op. Its diff entries and the text of its result are left out.
pub record OpOutcome : Type 0 where
  pub op : Op
  pub verdict : PolicyVerdict
  pub rows : List WriteLogRecord
  pub held_id : Option ℕ

pub record CommitResult : Type 0 where
  pub outcomes : List OpOutcome
  pub held : List HeldWriteRecord

abbrev pub is_allowed : Decision → Bool
is_allowed Decision.allowed = true
is_allowed _ = false

abbrev pub is_held : Decision → Bool
is_held Decision.held = true
is_held _ = false

-- `CommitResult.rows`
abbrev pub rows_of : List OpOutcome → List WriteLogRecord
rows_of [] = []
rows_of (o ∷ os) = o.rows ++ rows_of os

-- The layer of a stored item, and the layer that a refused op was meant for (`_proposed_layer`).
abbrev stored_layer : Option ItemRecord → Layer
stored_layer none = Layer.archive
stored_layer (some i) = layer i

unfoldable pub proposed_layer : Op → Tables → Layer
proposed_layer op t = elim op.action [
  | Action.create_item c ↦
      if c.item.in_core then Layer.core else if c.item.in_quick then Layer.quick else Layer.archive
  | Action.update_item i c ↦
      if get_or c.in_core false then Layer.core else stored_layer (lookup i t.items)
  | other ↦ elim (target_of other).type [
    | TargetType.item ↦ stored_layer (lookup (target_of other).id t.items)
    | _ ↦ Layer.archive
  ]
]

-- The title under which a refused op is shown: never a secret's.
abbrev shown_title : Op → HeldTitle
shown_title op = elim op.action [
  | Action.create_item c ↦
      if is_secret c.item.sensitivity
      then HeldTitle.text "a secret (not shown)"
      else HeldTitle.text op.title
  | _ ↦ HeldTitle.text op.title
]

abbrev held_write : Turn → ℕ → List Op → PolicyVerdict → HeldTitle → Layer → HeldWriteRecord
held_write turn id ops v title layer = record {
  id = id;
  workspace_id = turn.workspace_id;
  turn_id = turn.turn_id;
  ops = ops;
  rule_id = v.rule_id;
  reason = v.reason;
  title = title;
  layer = layer;
  status = HeldStatus.pending;
  resolved_turn_id = none;
  created_at = turn.now;
  resolved_at = none;
}

abbrev outcome : Op → PolicyVerdict → List WriteLogRecord → Option ℕ → OpOutcome
outcome op v rows held_id = record { op = op; verdict = v; rows = rows; held_id = held_id }

abbrev with_outcome : CommitResult → OpOutcome → CommitResult
with_outcome result o = record result { outcomes = result.outcomes ++ o ∷ [] }

-- The log row of a refused op: no snapshot.
abbrev pub refused_row : Turn → Op → ℕ → PolicyVerdict → Layer → WriteLogRecord
refused_row turn op seq v layer =
    log_row turn op seq v (target_of op.action) layer none none (op_label op)

-- `_refuse`
unfoldable pub refuse : Turn → Op → PolicyVerdict → ℕ → CommitResult → Exec CommitResult
unfolding proposed_layer
refuse turn op v seq result = do
  layer ← reads (proposed_layer op)
  let row = refused_row turn op seq v layer
  (if is_held v.decision
      then (do
        id ← fresh turn
        pure (
            with_outcome
              (record result {
                held = result.held ++ held_write turn id (op ∷ []) v (shown_title op) layer ∷ [];
              })
              (outcome op v (row ∷ []) (some id))))
      else pure (with_outcome result (outcome op v (row ∷ []) none)))

-- The rows of a held turn: each op's, in order.
abbrev pub held_outcomes : Turn → PolicyVerdict → ℕ → ℕ → List Op → List OpOutcome
held_outcomes turn v id seq [] = []
held_outcomes turn v id seq (op ∷ ops) =
    outcome op v (refused_row turn op seq v Layer.archive ∷ []) (some id)
    ∷ held_outcomes turn v id (suc seq) ops

-- `_hold_everything`
unfoldable pub hold_everything : Turn → List Op → PolicyContext → Exec CommitResult
hold_everything turn ops context = do
  id ← fresh turn
  let v =
      verdict Decision.held "P-BULK-1"
        (Reason.too_many_items context.edited_items context.bulk_threshold)
  let title = HeldTitle.changes_to_items (length ops) context.edited_items
  pure (record {
    outcomes = held_outcomes turn v id 1 ops;
    held = held_write turn id ops v title Layer.archive ∷ [];
  })

-- The verdict of an op: the policy's, and for an allowed core write that of the budget.
unfoldable pub judge : Turn → Op → OpFacts → PolicyContext → Exec PolicyVerdict
judge turn op f context =
    let v = evaluate f context in
    if is_allowed v.decision && f.core_write then core_budget turn op v else pure v

abbrev not_applicable : String → PolicyVerdict
not_applicable reason = verdict Decision.blocked "NOT-APPLICABLE" (Reason.text reason)

-- `except _Skip`: a skipped op is noted, and the transaction goes on.
abbrev pub conclude :
    Op → PolicyVerdict → ℕ → CommitResult → Outcome (List WriteLogRecord) → Exec (ℕ × CommitResult)
conclude op v seq result (Outcome.ok rows) =
    pure (seq + length rows, with_outcome result (outcome op v rows none))
conclude op v seq result (Outcome.skip reason) =
    pure (seq, with_outcome result (outcome op (not_applicable reason) [] none))
conclude op v seq result (Outcome.fail e) = raise e

unfoldable pub try_apply : Turn → Op → PolicyVerdict → ℕ → CommitResult → Exec (ℕ × CommitResult)
try_apply turn op v seq result tx =
    conclude op v seq result (apply turn op seq tx).0 (apply turn op seq tx).1

-- What the loop does with an op, by its verdict.
unfoldable pub carry_out : Turn → Op → ℕ → CommitResult → PolicyVerdict → Exec (ℕ × CommitResult)
unfolding refuse try_apply
carry_out turn op seq result v =
    if is_allowed v.decision
    then try_apply turn op v seq result
    else (do result' ← refuse turn op v (suc seq) result; pure (suc seq, result'))

-- One round of the loop of `_apply_all`.
unfoldable pub step :
    Turn → List ℕ → PolicyContext → Op → ℕ → CommitResult → Exec (ℕ × CommitResult)
unfolding judge carry_out
step turn created context op seq result = do
  f ← reads (λ t. facts op t created)
  v ← judge turn op f context
  carry_out turn op seq result v

unfoldable pub run_ops :
    Turn → List ℕ → PolicyContext → List Op → ℕ → CommitResult → Exec CommitResult
unfolding step
run_ops turn created context [] seq result = pure result
run_ops turn created context (op ∷ ops) seq result = do
  (seq', result') ← step turn created context op seq result
  run_ops turn created context ops seq' result'

abbrev pub nothing_done : CommitResult
nothing_done = record { outcomes = []; held = [] }

abbrev pub context_of : Turn → List Op → PolicyContext
context_of turn ops = record {
  turn_kind = turn.kind;
  confirmed = turn.confirmed;
  edited_items = length (edited_items ops (created_items ops));
  bulk_threshold = turn.bulk_threshold;
}

-- `_apply_all`
unfoldable pub apply_all : Turn → List Op → Exec CommitResult
unfolding hold_everything run_ops
apply_all turn ops =
    let context = context_of turn ops in
    if not turn.confirmed && ltb turn.bulk_threshold context.edited_items
    then hold_everything turn ops context
    else run_ops turn (created_items ops) context ops 0 nothing_done

-- `register_vocab` keeps these until the commit.
pub record VocabEntry : Type 0 where
  pub vocab : VocabKind
  pub slug : String
  pub aliases : List String

unfoldable pub store_vocab : Turn → List VocabEntry → Exec (Unit {0})
unfolding upsert_vocab
store_vocab turn [] = pure tt
store_vocab turn (e ∷ es) = do
  id ← fresh turn
  writes (
      upsert_vocab (record {
        id = id;
        workspace_id = turn.workspace_id;
        vocab = e.vocab;
        slug = e.slug;
        aliases = e.aliases;
      }))
  store_vocab turn es

abbrev pub store_held : List HeldWriteRecord → Tables → Tables
store_held [] t = t
store_held (h ∷ hs) t = store_held hs (insert_held_write h t)

abbrev pub is_item_target : TargetType → Bool
is_item_target TargetType.item = true
is_item_target _ = false

-- `_write_versions`, for one row.
abbrev pub version_row : Turn → WriteLogRecord → Tables → Tables
version_row turn row t = elim row.after [
  | none ↦ t
  | some after ↦
      if is_item_target row.target_type && is_allowed row.decision
      then insert_version
          (record {
            item_id = row.target_id;
            turn_id = turn.turn_id;
            version = next_version row.target_id t;
            snapshot = after;
          })
          t
      else t
]

unfoldable pub write_versions : Turn → List WriteLogRecord → Tables → Tables
write_versions turn [] t = t
write_versions turn (row ∷ rows) t = write_versions turn rows (version_row turn row t)

abbrev max_seq : List WriteLogRecord → ℕ
max_seq [] = 0
max_seq (r ∷ rs) = max r.seq (max_seq rs)

-- The turn of a commit: its write-log rows continue the turn's sequence.
abbrev pub continued : Turn → Tables → Turn
continued turn t = record turn { seq_base = max_seq (turn_rows turn.turn_id t) }

-- The transaction of `commit`.
unfoldable pub transaction : Turn → List VocabEntry → List Op → Exec CommitResult
unfolding apply_all store_vocab write_versions
transaction turn vocab ops = do
  turn' ← reads (continued turn)
  store_vocab turn' vocab
  result ← apply_all turn' ops
  writes (insert_write_log (rows_of result.outcomes))
  writes (store_held result.held)
  writes (write_versions turn' (rows_of result.outcomes))
  pure result

pub record Writer : Type 0 where
  pub turn : Turn
  pub ops : List Op
  pub vocab : List VocabEntry
  pub committed : Bool

-- A transaction commits all together or not at all: on an exception the tables stay as they were.
abbrev pub close : Outcome CommitResult × Tx → Tables → Outcome CommitResult × Tables
close (Outcome.ok r, tx) t = (Outcome.ok r, tx.tables)
close (Outcome.skip s, tx) t = (Outcome.skip s, t)
close (Outcome.fail e, tx) t = (Outcome.fail e, t)

-- `commit`: the writer after it, and its result with the tables that the store then holds.
unfoldable pub commit : Writer → Tables → Writer × (Outcome CommitResult × Tables)
unfolding transaction
commit w t = if w.committed then (w, (Outcome.fail Error.already_committed, t)) else (
  record w { committed = true },
  close (transaction w.turn w.vocab w.ops (record { tables = t; draws = 0 })) t,
)
