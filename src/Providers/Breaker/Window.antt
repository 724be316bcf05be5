-- ===== src/Providers/Breaker/Window.antt =====
-- The failures that the breaker of providers/resilience.py counts.
use nd_mind.Base.{
  ℕ, ◌-◌, ◌<◌, ◌≤◌, Bool, true, false, none, some, List, [], ◌∷◌, ◌++◌, ◌≡◌, refl, arith,
  Bool-cases, inl, inr, length, filter, if◌then◌else◌, ltb, leb, All, All-append, ◌⊎◌, is_some,
}
use nd_mind.Providers.Breaker.{Breaker, BreakerPolicy, drop_old, record_failure}

-- What the breaker's clock gave: times in order, none after a last one.
abbrev pub Ordered : ℕ → List ℕ → Type 0
Ordered last [] = Unit
Ordered last (at ∷ later) = (at ≤ last) × All (λ t. at ≤ t) later × Ordered last later

abbrev pub within : ℕ → ℕ → ℕ → Bool
within window now at = leb (now - at) window

filter-All :
    (window now at : ℕ) (later : List ℕ)
    → now - at ≤ window
    → All (λ t. at ≤ t) later
    → filter (within window now) later ≡ later
filter-All window now at [] p all_ = refl
filter-All window now at (t ∷ later) p all_ =
    let rest = filter-All window now at later p all_.1 in rw rest (ground arith)

-- Dropping from the front keeps the times within the window, since they are in order.
drop_old-filter :
    (window now last : ℕ) (ts : List ℕ)
    → Ordered last ts
    → drop_old window now ts ≡ filter (within window now) ts
unfolding drop_old
drop_old-filter window now last [] o = refl
drop_old-filter window now last (at ∷ later) o = elim (Bool-cases (ltb window (now - at))) [
  | inl e ↦ let rest = drop_old-filter window now last later o.2 in rw (e, rest) (ground arith)
  | inr e ↦
      let rest = filter-All window now at later (ground arith) o.1 in rw (e, rest) (ground arith)
]

pub Ordered-later : (last now : ℕ) (ts : List ℕ) → last ≤ now → Ordered last ts → Ordered now ts
Ordered-later last now [] p o = tt
Ordered-later last now (t ∷ ts) p o = (omega arith, o.1, Ordered-later last now ts p o.2)

All-le-append :
    (at now : ℕ) (ts : List ℕ)
    → at ≤ now
    → All (λ t. at ≤ t) ts
    → All (λ t. at ≤ t) (ts ++ now ∷ [])
All-le-append at now ts p all_ = All-append (λ t. at ≤ t) ts (now ∷ []) all_ (p, tt)

pub Ordered-append : (now : ℕ) (ts : List ℕ) → Ordered now ts → Ordered now (ts ++ now ∷ [])
Ordered-append now [] o = (omega arith, tt, tt)
Ordered-append now (t ∷ ts) o = (o.0, All-le-append t now ts o.0 o.1, Ordered-append now ts o.2)

drop_old-All :
    (P : ℕ → Type 0) (window now : ℕ) (ts : List ℕ) → All P ts → All P (drop_old window now ts)
unfolding drop_old
drop_old-All P window now [] a = tt
drop_old-All P window now (t ∷ ts) a = elim (Bool-cases (ltb window (now - t))) [
  | inl e ↦ rw e (drop_old-All P window now ts a.1)
  | inr e ↦ rw e a
]

pub drop_old-Ordered :
    (window now last : ℕ) (ts : List ℕ) → Ordered last ts → Ordered last (drop_old window now ts)
unfolding drop_old
drop_old-Ordered window now last [] o = tt
drop_old-Ordered window now last (t ∷ ts) o = elim (Bool-cases (ltb window (now - t))) [
  | inl e ↦ rw e (drop_old-Ordered window now last ts o.2)
  | inr e ↦ rw e o
]

-- The breaker as it stands by a moment: its failures are in order, and while it is closed they are
-- fewer than the threshold and no probe is under way; while it is open there are none.
pub record IsSettled (policy : BreakerPolicy) (last : ℕ) (b : Breaker) : Type 0 where
  pub ordered : Ordered last b.failures
  pub few : length b.failures < policy.threshold
  pub phase :
      ((b.opened_at ≡ none) × (b.probe_in_flight ≡ false))
      ⊎ ((is_some b.opened_at ≡ true) × (b.failures ≡ []))

-- The failures within the window, the new one with them.
abbrev pub recent : BreakerPolicy → ℕ → Breaker → List ℕ
recent policy now b = filter (within policy.window now) (b.failures ++ now ∷ [])

-- A settled, closed breaker opens at a failure, not before its last one, just where the window then
-- holds as many failures as the threshold, the new one with them.
pub record_failure-opens :
    (policy : BreakerPolicy) (last now : ℕ) (b : Breaker)
    → IsSettled policy last b
    → last ≤ now
    → b.opened_at ≡ none
    → (record_failure policy now b).opened_at
      ≡ (if leb policy.threshold (length (recent policy now b)) then some now else none)
unfolding record_failure
record_failure-opens policy last now b s p closed_ =
    let d =
      drop_old-filter policy.window now now (b.failures ++ now ∷ [])
        (Ordered-append now b.failures (Ordered-later last now b.failures p s.ordered)) in
    rw (closed_, d) (ground arith)
