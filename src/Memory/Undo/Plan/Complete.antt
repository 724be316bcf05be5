-- ===== src/Memory/Undo/Plan/Complete.antt =====
-- What `plan_undo` of memory/undo.py does not leave out.
use nd_mind.Base.{
  ℕ, Bool-cases, true, false, Option, none, some, List, [], ◌∷◌, ◌==◌, ==_iff, ◌≡◌, inl, inr, any,
  filter, leb, ap,
}
use nd_mind.Base.Membership.{mem-filter}
use nd_mind.Base.Sorting.{mem-sort_by}
use nd_mind.Memory.Ops.{Action, Op}
use nd_mind.Memory.Records.{WriteLogRecord}
use nd_mind.Memory.Tables.{Tables, turn_rows}
use nd_mind.Memory.Undo.Inverse.{inverse, undo_op}
use nd_mind.Memory.Undo.Plan.{
  add_op, conflicted, inverses, row_allowed, plan_undo, sort_down, sort_up, targets, undo_rows,
}
use mathlib.Core.List.{Memᴰ}

mem-add_op :
    (op : Op) (r : WriteLogRecord) (o : Option Action) (ops : List Op)
    → Memᴰ op ops
    → Memᴰ op (add_op r o ops)
mem-add_op op r none ops m = m
mem-add_op op r (some a) ops m = Memᴰ.tail m

mem-inverses :
    (new_id : ℕ → ℕ) (skipped : List ℕ) (row : WriteLogRecord) (action : Action)
    (rows : List WriteLogRecord)
    → any (◌==◌ row.target_id) skipped ≡ false
    → inverse (new_id row.seq) row ≡ some action
    → Memᴰ row rows
    → Memᴰ (undo_op row action) (inverses new_id skipped rows)
unfolding inverses
mem-inverses new_id skipped row action [] s e m = elim m [ ]
mem-inverses new_id skipped row action (r ∷ rows) s e (Memᴰ.head w) =
    let s' : any (◌==◌ r.target_id) skipped ≡ false = rw (← w) s in
    let e' : inverse (new_id r.seq) r ≡ some action = rw (← w) e in
    rw (s', e') (Memᴰ.head (ap (λ q. undo_op q action) w))
mem-inverses new_id skipped row action (r ∷ rows) s e (Memᴰ.tail m) =
    let rest = mem-inverses new_id skipped row action rows s e m in
    elim (Bool-cases (any (◌==◌ r.target_id) skipped)) [
      | inl f ↦ rw f rest
      | inr f ↦ rw f (
          mem-add_op (undo_op row action) r (inverse (new_id r.seq) r)
            (inverses new_id skipped rows) rest)
    ]

-- An undo leaves nothing out: each row that the turn wrote and the policy allowed has its inverse,
-- where it has one, among the planned ops, unless its target is one that was left for a conflict.
pub mem-plan_undo :
    (new_id : ℕ → ℕ) (t : Tables) (turn_id : ℕ) (row : WriteLogRecord) (action : Action)
    → Memᴰ row t.write_log
    → row.turn_id ≡ turn_id
    → row_allowed row.decision ≡ true
    → any (◌==◌ row.target_id) (conflicted t turn_id (targets (undo_rows t turn_id))) ≡ false
    → inverse (new_id row.seq) row ≡ some action
    → Memᴰ (undo_op row action) (plan_undo new_id t turn_id).ops
unfolding plan_undo turn_rows sort_up sort_down
mem-plan_undo new_id t turn_id row action m w d s e =
    let mine =
      mem-filter (λ r. r.turn_id == turn_id) row t.write_log m ((==_iff row.turn_id turn_id).1 w) in
    let sorted =
      mem-sort_by (λ r x. leb r.seq x.seq) row (filter (λ r. r.turn_id == turn_id) t.write_log)
        mine in
    let allowed =
      mem-filter (λ r. row_allowed r.decision) row
        (sort_up (filter (λ r. r.turn_id == turn_id) t.write_log)) sorted d in
    mem-inverses new_id (conflicted t turn_id (targets (undo_rows t turn_id))) row action
      (sort_down (undo_rows t turn_id)) s e
      (mem-sort_by (λ r x. leb x.seq r.seq) row (undo_rows t turn_id) allowed)
