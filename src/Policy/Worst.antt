-- ===== src/Policy/Worst.antt =====
-- `evaluate` against the policy's rule: the first verdict among the most severe ones.
use nd_mind.Base.{
  ℕ, ◌≤◌, ◌<◌, String, Option, none, some, List, [], ◌∷◌, All, arith, ◌≡◌, refl, ◌⊎◌, inl, inr,
  get_or, Option-cases, Bool-cases, ltb,
}
use nd_mind.Core.{PolicyVerdict}
use nd_mind.Policy.Facts.{OpFacts, PolicyContext}
use nd_mind.Policy.Rules.{Rule, rules, p_default}
use nd_mind.Policy.Evaluate.{severity, worse, worst_of, evaluate}

-- The verdict of a rule, if any, is at most as severe as `n`, or strictly less severe.
abbrev pub AtMost : ℕ → Option PolicyVerdict → Type 0
AtMost n none = Unit
AtMost n (some v) = severity v.decision ≤ n

abbrev pub Below : ℕ → Option PolicyVerdict → Type 0
Below n none = Unit
Below n (some v) = severity v.decision < n

module _ (op : OpFacts) (ctx : PolicyContext) where
  -- `v` is the verdict of a rule of the list, those before it are less severe, those after it no
  -- more severe.
  abbrev pub IsFirstWorst : PolicyVerdict → List (String × Rule) → Type 0
  IsFirstWorst v [] = ⊥
  IsFirstWorst v ((_, rule) ∷ rest) =
      (rule op ctx ≡ some v) × All (λ r. AtMost (severity v.decision) (r.1 op ctx)) rest
      ⊎ Below (severity v.decision) (rule op ctx) × IsFirstWorst v rest

  abbrev pub NoneApplies : List (String × Rule) → Type 0
  NoneApplies = All (λ r. r.1 op ctx ≡ none)

  -- What the loop returns from a verdict `w` that it already has.
  abbrev Kept : PolicyVerdict → List (String × Rule) → Option PolicyVerdict → Type 0
  Kept w rest none = ⊥
  Kept w rest (some v) =
      (v ≡ w) × All (λ r. AtMost (severity w.decision) (r.1 op ctx)) rest
      ⊎ (severity w.decision < severity v.decision) × IsFirstWorst v rest

  -- One more rule in front, by whether it applies and how severe its verdict is.
  Kept-none :
      (w : PolicyVerdict) (id : String) (rule : Rule) (rest : List (String × Rule))
      (res : Option PolicyVerdict)
      → rule op ctx ≡ none
      → Kept w rest res
      → Kept w ((id, rule) ∷ rest) res
  Kept-none w id rule rest none e k = elim k [ ]
  Kept-none w id rule rest (some v) e (inl (p, q)) = inl (p, (rw e tt, q))
  Kept-none w id rule rest (some v) e (inr (p, q)) = inr (p, inr (rw e tt, q))

  Kept-stays :
      (w u : PolicyVerdict) (id : String) (rule : Rule) (rest : List (String × Rule))
      (res : Option PolicyVerdict)
      → rule op ctx ≡ some u
      → severity u.decision ≤ severity w.decision
      → Kept w rest res
      → Kept w ((id, rule) ∷ rest) res
  Kept-stays w u id rule rest none e le k = elim k [ ]
  Kept-stays w u id rule rest (some v) e le (inl (p, q)) = inl (p, (rw e le, q))
  Kept-stays w u id rule rest (some v) e le (inr (p, q)) = inr (p, inr (rw e (omega arith), q))

  Kept-replaced :
      (w u : PolicyVerdict) (id : String) (rule : Rule) (rest : List (String × Rule))
      (res : Option PolicyVerdict)
      → rule op ctx ≡ some u
      → severity w.decision < severity u.decision
      → Kept u rest res
      → Kept w ((id, rule) ∷ rest) res
  Kept-replaced w u id rule rest none e lt k = elim k [ ]
  Kept-replaced w u id rule rest (some v) e lt (inl (p, q)) = inr (rw p lt, inl (rw p e, rw p q))
  Kept-replaced w u id rule rest (some v) e lt (inr (p, q)) = inr (omega arith, inr (rw e p, q))

  worst_of-some :
      (w : PolicyVerdict) (rest : List (String × Rule))
      → Kept w rest (worst_of rest op ctx (some w))
  unfolding worst_of
  worst_of-some w [] = inl (refl, tt)
  worst_of-some w ((id, rule) ∷ rest) = elim (Option-cases (rule op ctx)) [
    | inl e ↦
        rw (e, worse)
          (Kept-none w id rule rest (worst_of rest op ctx (some w)) e (worst_of-some w rest))
    | inr (u, e) ↦ elim (Bool-cases (ltb (severity w.decision) (severity u.decision))) [
      | inl lt ↦
          rw (e, lt)
            (Kept-replaced w u id rule rest (worst_of rest op ctx (some u)) e (ground arith)
              (worst_of-some u rest))
      | inr ge ↦
          rw (e, ge)
            (Kept-stays w u id rule rest (worst_of rest op ctx (some w)) e (ground arith)
              (worst_of-some w rest))
    ]
  ]

  -- What the loop returns from no verdict.
  abbrev Found : List (String × Rule) → Option PolicyVerdict → Type 0
  Found rest none = NoneApplies rest
  Found rest (some v) = IsFirstWorst v rest

  Found-none :
      (id : String) (rule : Rule) (rest : List (String × Rule)) (res : Option PolicyVerdict)
      → rule op ctx ≡ none
      → Found rest res
      → Found ((id, rule) ∷ rest) res
  Found-none id rule rest none e f = (e, f)
  Found-none id rule rest (some v) e f = inr (rw e tt, f)

  Found-first :
      (u : PolicyVerdict) (id : String) (rule : Rule) (rest : List (String × Rule))
      (res : Option PolicyVerdict)
      → rule op ctx ≡ some u
      → Kept u rest res
      → Found ((id, rule) ∷ rest) res
  Found-first u id rule rest none e k = elim k [ ]
  Found-first u id rule rest (some v) e (inl (p, q)) = inl (rw p e, rw p q)
  Found-first u id rule rest (some v) e (inr (p, q)) = inr (rw e p, q)

  worst_of-none : (rest : List (String × Rule)) → Found rest (worst_of rest op ctx none)
  unfolding worst_of
  worst_of-none [] = tt
  worst_of-none ((id, rule) ∷ rest) = elim (Option-cases (rule op ctx)) [
    | inl e ↦
        rw (e, worse) (Found-none id rule rest (worst_of rest op ctx none) e (worst_of-none rest))
    | inr (u, e) ↦
        rw (e, worse)
          (Found-first u id rule rest (worst_of rest op ctx (some u)) e (worst_of-some u rest))
  ]

  Found-get_or :
      (rest : List (String × Rule)) (res : Option PolicyVerdict) (d : PolicyVerdict)
      → Found rest res
      → IsFirstWorst (get_or res d) rest ⊎ NoneApplies rest × (get_or res d ≡ d)
  Found-get_or rest none d f = inr (f, refl)
  Found-get_or rest (some v) d f = inl f

-- For every op and turn the verdict is that of the first rule among the most severe ones that
-- apply: the rules before it are less severe, those after it no more severe. Where no rule
-- applies, it is the default verdict.
pub evaluate-IsFirstWorst :
    (op : OpFacts) (ctx : PolicyContext)
    → IsFirstWorst op ctx (evaluate op ctx) rules
      ⊎ NoneApplies op ctx rules × (evaluate op ctx ≡ p_default op ctx)
unfolding evaluate
evaluate-IsFirstWorst op ctx =
    Found-get_or op ctx rules (worst_of rules op ctx none) (p_default op ctx)
      (worst_of-none op ctx rules)

Below-AtMost : (n : ℕ) (o : Option PolicyVerdict) → Below n o → AtMost n o
Below-AtMost n none h = tt
Below-AtMost n (some v) h = omega arith

none-AtMost : (n : ℕ) (o : Option PolicyVerdict) → o ≡ none → AtMost n o
none-AtMost n o h = rw h tt

module _ (op : OpFacts) (ctx : PolicyContext) (v : PolicyVerdict) where
  -- Every rule of the list gives a verdict at most as severe as `v`, or none.
  abbrev pub Bounds : List (String × Rule) → Type 0
  Bounds = All (λ r. AtMost (severity v.decision) (r.1 op ctx))

  IsFirstWorst-Bounds : (rs : List (String × Rule)) → IsFirstWorst op ctx v rs → Bounds rs
  IsFirstWorst-Bounds [] h = tt
  IsFirstWorst-Bounds ((id, rule) ∷ rest) (inl (e, h)) = (rw e (omega arith), h)
  IsFirstWorst-Bounds ((id, rule) ∷ rest) (inr (b, h)) =
      (Below-AtMost (severity v.decision) (rule op ctx) b, IsFirstWorst-Bounds rest h)

  NoneApplies-Bounds : (rs : List (String × Rule)) → NoneApplies op ctx rs → Bounds rs
  NoneApplies-Bounds [] h = tt
  NoneApplies-Bounds ((id, rule) ∷ rest) (e, h) =
      (none-AtMost (severity v.decision) (rule op ctx) e, NoneApplies-Bounds rest h)

pub evaluate-Bounds : (op : OpFacts) (ctx : PolicyContext) → Bounds op ctx (evaluate op ctx) rules
evaluate-Bounds op ctx = elim (evaluate-IsFirstWorst op ctx) [
  | inl h ↦ IsFirstWorst-Bounds op ctx (evaluate op ctx) rules h
  | inr h ↦ NoneApplies-Bounds op ctx (evaluate op ctx) rules h.0
]
