-- ===== src/Memory/Sound/Judge.antt =====
-- The verdict of an op: judging changes no table, and allows only what the policy allows.
use nd_mind.Base.{true, ◌&&◌, ◌≡◌, refl, arith, Bool-cases, inl, inr}
use nd_mind.Core.{Decision, PolicyVerdict}
use nd_mind.Policy.Facts.{OpFacts, PolicyContext}
use nd_mind.Policy.Evaluate.{evaluate}
use nd_mind.Memory.Ops.{Action, Op}
use nd_mind.Memory.Exec.{Outcome, Tx}
use nd_mind.Memory.Writer.Turn.{Turn}
use nd_mind.Memory.Writer.Items.{new_item}
use nd_mind.Memory.Writer.Facts.{core_budget, budget_of}
use nd_mind.Memory.Writer.Commit.{is_allowed, judge}

pub is_allowed-eq : (d : Decision) → is_allowed d ≡ true → d ≡ Decision.allowed
is_allowed-eq Decision.allowed h = refl
is_allowed-eq Decision.held h = cc
is_allowed-eq Decision.blocked h = cc

-- Judging leaves the tables alone.
tables-budget_of :
    (turn : Turn) (a : Action) (v : PolicyVerdict) (tx : Tx)
    → (budget_of turn a v tx).1.tables ≡ tx.tables
unfolding new_item
tables-budget_of turn (Action.create_item c) v tx = ground arith
tables-budget_of turn _ v tx = refl

pub tables-judge :
    (turn : Turn) (op : Op) (f : OpFacts) (ctx : PolicyContext) (tx : Tx)
    → (judge turn op f ctx tx).1.tables ≡ tx.tables
unfolding judge core_budget
tables-judge turn op f ctx tx =
    elim (Bool-cases (is_allowed (evaluate f ctx).decision && f.core_write)) [
      | inl core ↦ rw core (tables-budget_of turn op.action (evaluate f ctx) tx)
      | inr other ↦ rw other refl
    ]

-- What is allowed in the end was allowed by the policy.
abbrev pub PolicyAllowed : OpFacts → PolicyContext → PolicyVerdict → Type 0
PolicyAllowed f ctx v = is_allowed v.decision ≡ true → (evaluate f ctx).decision ≡ Decision.allowed

abbrev pub Judged : OpFacts → PolicyContext → Outcome PolicyVerdict → Type 0
Judged f ctx (Outcome.ok v) = PolicyAllowed f ctx v
Judged f ctx _ = Unit

Judged-anyway :
    (f : OpFacts) (ctx : PolicyContext) (o : Outcome PolicyVerdict)
    → (evaluate f ctx).decision ≡ Decision.allowed
    → Judged f ctx o
Judged-anyway f ctx (Outcome.ok v) h = λ _. h
Judged-anyway f ctx (Outcome.skip r) h = tt
Judged-anyway f ctx (Outcome.fail e) h = tt

pub judge-Judged :
    (turn : Turn) (op : Op) (f : OpFacts) (ctx : PolicyContext) (tx : Tx)
    → Judged f ctx (judge turn op f ctx tx).0
unfolding judge
judge-Judged turn op f ctx tx = elim (Bool-cases (is_allowed (evaluate f ctx).decision)) [
  | inl yes_ ↦
      Judged-anyway f ctx (judge turn op f ctx tx).0 (is_allowed-eq (evaluate f ctx).decision yes_)
  | inr no_ ↦ rw no_ (λ a. cc)
]
