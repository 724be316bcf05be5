-- ===== src/Memory/Sound/Round.antt =====
-- One round of a commit's loop keeps the invariant: the policy lets no secret through.
use nd_mind.Base.{ℕ, true, ◌≡◌, refl, arith, Bool-cases, inl, inr, List, suc}
use nd_mind.Core.{Decision, PolicyVerdict}
use nd_mind.Policy.Facts.{OpFacts, PolicyContext}
use nd_mind.Policy.Evaluate.{evaluate}
use nd_mind.Memory.Records.{WriteLogRecord}
use nd_mind.Memory.Ops.{Op}
use nd_mind.Memory.Exec.{Outcome, Tx, pure, continue}
use nd_mind.Memory.Exec.Rules.{Ensures}
use nd_mind.Memory.Writer.Turn.{Turn}
use nd_mind.Memory.Writer.Facts.{facts}
use nd_mind.Memory.Writer.Apply.{apply, apply_action, empty_log}
use nd_mind.Memory.Writer.Commit.{
  is_allowed, judge, CommitResult, conclude, step, refuse, carry_out,
}
use nd_mind.Memory.Sound.Items.{IsSound}
use nd_mind.Memory.Sound.Ops.{Keeps-bind, Anything}
use nd_mind.Memory.Sound.Step.{IsClean, apply_action-Keeps, facts-IsClean, allowed-no_secret}
use nd_mind.Memory.Sound.Judge.{Judged, judge-Judged, tables-judge}

-- `Keeps`, read as a fact of the final tables.
Keeps-IsSound {ℓ} :
    {A : Type ℓ} (o : Outcome A) (tx : Tx)
    → Ensures
        (λ a tx'. IsSound tx'.tables × Anything a)
        (λ tx'. IsSound tx'.tables)
        (λ tx'. IsSound tx'.tables)
        o
        tx
    → IsSound tx.tables
Keeps-IsSound (Outcome.ok a) tx h = h.0
Keeps-IsSound (Outcome.skip r) tx h = h
Keeps-IsSound (Outcome.fail e) tx h = h

apply-IsSound :
    (turn : Turn) (op : Op) (seq : ℕ) (tx : Tx)
    → IsSound tx.tables
    → IsClean op.action tx.tables
    → IsSound (apply turn op seq tx).1.tables
unfolding apply
apply-IsSound turn op seq tx s c = Keeps-IsSound (apply turn op seq tx).0 (apply turn op seq tx).1 (
    Keeps-bind Anything Anything (apply_action turn op.action (empty_log turn op seq))
      (λ log. pure log.rows) tx (apply_action-Keeps turn op.action (empty_log turn op seq) tx s c)
      (λ log tx' s' _. (s', tt)))

tables-conclude :
    (op : Op) (v : PolicyVerdict) (seq : ℕ) (result : CommitResult)
    (o : Outcome (List WriteLogRecord)) (tx : Tx)
    → (conclude op v seq result o tx).1.tables ≡ tx.tables
tables-conclude op v seq result (Outcome.ok rows) tx = refl
tables-conclude op v seq result (Outcome.skip r) tx = refl
tables-conclude op v seq result (Outcome.fail e) tx = refl

-- A refused op leaves the tables alone: its log row and its held write are stored at the end.
pub tables-refuse :
    (turn : Turn) (op : Op) (v : PolicyVerdict) (seq : ℕ) (result : CommitResult) (tx : Tx)
    → (refuse turn op v seq result tx).1.tables ≡ tx.tables
unfolding refuse
tables-refuse turn op v seq result tx = ground arith

tables-continue-pure {ℓ κ} :
    {A : Type ℓ} {B : Type κ} (o : Outcome A) (g : A → B) (tx : Tx)
    → (continue o (λ a. pure (g a)) tx).1.tables ≡ tx.tables
tables-continue-pure (Outcome.ok a) g tx = refl
tables-continue-pure (Outcome.skip r) g tx = refl
tables-continue-pure (Outcome.fail e) g tx = refl

carry_out-IsSound :
    (turn : Turn) (op : Op) (seq : ℕ) (result : CommitResult) (v : PolicyVerdict) (tx : Tx)
    → IsSound tx.tables
    → (is_allowed v.decision ≡ true → IsClean op.action tx.tables)
    → IsSound (carry_out turn op seq result v tx).1.tables
unfolding carry_out
carry_out-IsSound turn op seq result v tx s c = elim (Bool-cases (is_allowed v.decision)) [
  | inl yes_ ↦
      rw (yes_, tables-conclude op v seq result (apply turn op seq tx).0 (apply turn op seq tx).1)
        (apply-IsSound turn op seq tx s (c yes_))
  | inr no_ ↦
      rw
        (
          no_,
          tables-continue-pure (refuse turn op v (suc seq) result tx).0
              (λ (r : CommitResult). let p : ℕ × CommitResult = (suc seq, r) in p)
              (refuse turn op v (suc seq) result tx).1,
          tables-refuse turn op v (suc seq) result tx,
        )
        s
]

step_rest-IsSound :
    (turn : Turn) (op : Op) (seq : ℕ) (result : CommitResult) (f : OpFacts) (ctx : PolicyContext)
    (o : Outcome PolicyVerdict) (tx : Tx)
    → IsSound tx.tables
    → Judged f ctx o
    → ((evaluate f ctx).decision ≡ Decision.allowed → IsClean op.action tx.tables)
    → IsSound (continue o (carry_out turn op seq result) tx).1.tables
step_rest-IsSound turn op seq result f ctx (Outcome.ok v) tx s j c =
    carry_out-IsSound turn op seq result v tx s (λ a. c (j a))
step_rest-IsSound turn op seq result f ctx (Outcome.skip r) tx s j c = s
step_rest-IsSound turn op seq result f ctx (Outcome.fail e) tx s j c = s

pub step-IsSound :
    (turn : Turn) (created : List ℕ) (ctx : PolicyContext) (op : Op) (seq : ℕ)
    (result : CommitResult) (tx : Tx)
    → IsSound tx.tables
    → IsSound (step turn created ctx op seq result tx).1.tables
unfolding step
step-IsSound turn created ctx op seq result tx s =
    let f = facts op tx.tables created in
    let same = tables-judge turn op f ctx tx in
    step_rest-IsSound turn op seq result f ctx (judge turn op f ctx tx).0 (judge turn op f ctx tx).1
      (rw same s) (judge-Judged turn op f ctx tx)
      (λ a.
        rw same (
          facts-IsClean op op.action tx.tables created (unfold facts in allowed-no_secret f ctx a)))
