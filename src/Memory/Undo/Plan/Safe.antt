-- ===== src/Memory/Undo/Plan/Safe.antt =====
-- What `plan_undo` of memory/undo.py plans: it leaves alone what a later turn changed.
use nd_mind.Base.{
  ℕ, Bool, Bool-cases, true, false, ◌||◌, Option, none, some, List, [], ◌∷◌, ◌==◌, ==_iff, ◌≡◌,
  refl, inl, inr, arith, any, map, All, leb,
}
use nd_mind.Memory.Ops.{Action, Op}
use nd_mind.Memory.Records.{WriteLogRecord}
use nd_mind.Memory.Tables.{Tables, turn_rows}
use nd_mind.Memory.Undo.Inverse.{inverse, undo_op}
use nd_mind.Memory.Undo.Plan.{
  UndoTarget, add_op, conflict, conflicted, inverses, row_allowed, plan_undo, sort_down, sort_up,
  target_eq, targets, undo_rows,
}
use nd_mind.Memory.Undo.Plan.Targets.{
  Untouched, conflict-Untouched, conflicted-any, fromkeys-any, type_eq_refl,
}
use mathlib.Core.List.{Memᴰ}
use nd_mind.Base.Sorting.{sort_by-All}
use nd_mind.Base.Membership.{All-mem, All-both, filter-All, filter-keeps}

-- The row is one of the turn's, in the log.
abbrev pub FromTurn : ℕ → Tables → WriteLogRecord → Type 0
FromTurn turn_id t row =
    Memᴰ row t.write_log × (row.turn_id ≡ turn_id) × (row_allowed row.decision ≡ true)

abbrev target : WriteLogRecord → UndoTarget
target row = (row.target_type, row.target_id)

abbrev HeldBy : List UndoTarget → WriteLogRecord → Type 0
HeldBy xs row = any (target_eq (target row)) xs ≡ true

undo_rows-FromTurn : (t : Tables) (turn_id : ℕ) → All (FromTurn turn_id t) (undo_rows t turn_id)
unfolding turn_rows sort_up
undo_rows-FromTurn t turn_id =
    let FromLog : WriteLogRecord → Type 0 = λ r. Memᴰ r t.write_log × (r.turn_id ≡ turn_id) in
    let logged =
      filter-All (λ r. r.turn_id == turn_id) FromLog t.write_log
        (λ r m e. (m, (==_iff r.turn_id turn_id).0 e)) in
    filter-keeps (λ r. row_allowed r.decision) FromLog (FromTurn turn_id t)
      (sort_up (turn_rows turn_id t)) (λ r q e. (q.0, q.1, e))
      (sort_by-All (λ r x. leb r.seq x.seq) FromLog (turn_rows turn_id t) logged)

or-true : (b : Bool) → (b || true) ≡ true
or-true true = refl
or-true false = refl

-- Each row's target is one of the targets.
mem-any :
    (r : WriteLogRecord) (rows : List WriteLogRecord)
    → Memᴰ r rows
    → any (target_eq (target r)) (map target rows) ≡ true
mem-any r [] m = elim m [ ]
mem-any r (x ∷ rows) (Memᴰ.head e) =
    let same : target_eq (target x) (target x) ≡ true =
      ground (arith, type_eq_refl x.target_type) in
    rw (e, same) refl
mem-any r (x ∷ rows) (Memᴰ.tail m) =
    rw (mem-any r rows m) (or-true (target_eq (target r) (target x)))

-- The op takes back a row of the turn whose target no other turn changed since.
pub record Undoes (new_id : ℕ → ℕ) (t : Tables) (turn_id : ℕ) (op : Op) : Type 0 where
  pub row : WriteLogRecord
  pub from_turn : FromTurn turn_id t row
  pub untouched : Untouched t turn_id (row.target_type, row.target_id)
  pub action : Action
  pub inverts : inverse (new_id row.seq) row ≡ some action
  pub made : op ≡ undo_op row action

add_op-Undoes :
    (new_id : ℕ → ℕ) (t : Tables) (turn_id : ℕ) (row : WriteLogRecord) (o : Option Action)
    (ops : List Op)
    → FromTurn turn_id t row
    → conflict t turn_id (row.target_type, row.target_id) ≡ none
    → inverse (new_id row.seq) row ≡ o
    → All (Undoes new_id t turn_id) ops
    → All (Undoes new_id t turn_id) (add_op row o ops)
add_op-Undoes new_id t turn_id row none ops f c e h = h
add_op-Undoes new_id t turn_id row (some action) ops f c e h = (
  record {
    row = row;
    from_turn = f;
    untouched = conflict-Untouched t turn_id (row.target_type, row.target_id) c;
    action = action;
    inverts = e;
    made = refl;
  },
  h,
)

inverses-Undoes :
    (new_id : ℕ → ℕ) (t : Tables) (turn_id : ℕ) (xs : List UndoTarget) (rows : List WriteLogRecord)
    → All (λ row. FromTurn turn_id t row × HeldBy xs row) rows
    → All (Undoes new_id t turn_id) (inverses new_id (conflicted t turn_id xs) rows)
unfolding inverses
inverses-Undoes new_id t turn_id xs [] h = tt
inverses-Undoes new_id t turn_id xs (row ∷ rows) h =
    let rest = inverses-Undoes new_id t turn_id xs rows h.1 in
    elim (Bool-cases (any (◌==◌ row.target_id) (conflicted t turn_id xs))) [
      | inl e ↦ rw e rest
      | inr e ↦
          let c = conflicted-any t turn_id (target row) xs (h.0).1 e in
          rw e (
            add_op-Undoes new_id t turn_id row (inverse (new_id row.seq) row)
              (inverses new_id (conflicted t turn_id xs) rows) (h.0).0 c refl rest)
    ]

-- Each op that an undo plans takes back a row that the turn wrote and the policy allowed, and the
-- row's item, entity or trigger, if it is still stored, was last changed by that turn.
pub plan_undo-Undoes :
    (new_id : ℕ → ℕ) (t : Tables) (turn_id : ℕ)
    → All (Undoes new_id t turn_id) (plan_undo new_id t turn_id).ops
unfolding plan_undo sort_down
plan_undo-Undoes new_id t turn_id =
    let rows = undo_rows t turn_id in
    let held =
      All-mem (HeldBy (targets rows)) rows
        (λ r m. fromkeys-any (target r) (map target rows) (mem-any r rows m)) in
    let both =
      All-both (FromTurn turn_id t) (HeldBy (targets rows)) rows (undo_rows-FromTurn t turn_id)
        held in
    inverses-Undoes new_id t turn_id (targets rows) (sort_down rows) (
      sort_by-All (λ r x. leb x.seq r.seq) (λ r. FromTurn turn_id t r × HeldBy (targets rows) r)
        rows both)
