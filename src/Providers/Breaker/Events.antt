-- ===== src/Providers/Breaker/Events.antt =====
-- Sequences of calls on the breaker of providers/resilience.py.
use nd_mind.Base.{
  ℕ, ◌+◌, ◌<◌, ◌≤◌, true, false, Option, none, some, List, [], ◌∷◌, ◌++◌, ◌≡◌, refl, arith,
  Bool-cases, Option-cases, inl, inr, length, leb, is_some, ◌⊎◌, if◌then◌else◌,
}
use nd_mind.Providers.Breaker.{
  Breaker, BreakerPolicy, BreakerState, trip, allow, breaker_state, drop_old, record_failure,
  record_success, release_probe, fail_when,
}
use nd_mind.Providers.Breaker.Window.{
  IsSettled, Ordered, Ordered-append, Ordered-later, drop_old-Ordered,
}

-- A call on the breaker, with what it reads on the clock.
pub data Event : Type 0 where
  asked failed : ℕ → Event
  succeeded released : Event

abbrev pub step : BreakerPolicy → Event → Breaker → Breaker
step policy (Event.asked now) b = (allow policy now b).1
step policy (Event.failed now) b = record_failure policy now b
step policy Event.succeeded b = record_success b
step policy Event.released b = release_probe b

abbrev pub run : BreakerPolicy → List Event → Breaker → Breaker
run policy [] b = b
run policy (e ∷ es) b = run policy es (step policy e b)

-- The last reading among the events.
abbrev pub last_reading : ℕ → List Event → ℕ
last_reading last [] = last
last_reading last (Event.asked now ∷ es) = last_reading now es
last_reading last (Event.failed now ∷ es) = last_reading now es
last_reading last (Event.succeeded ∷ es) = last_reading last es
last_reading last (Event.released ∷ es) = last_reading last es

-- The clock does not go back.
abbrev pub Timed : ℕ → List Event → Type 0
Timed last [] = Unit
Timed last (Event.asked now ∷ es) = (last ≤ now) × Timed now es
Timed last (Event.failed now ∷ es) = (last ≤ now) × Timed now es
Timed last (Event.succeeded ∷ es) = Timed last es
Timed last (Event.released ∷ es) = Timed last es

allow-closed :
    (policy : BreakerPolicy) (now : ℕ) (b : Breaker)
    → b.opened_at ≡ none
    → allow policy now b ≡ (true, b)
unfolding allow breaker_state
allow-closed policy now b e = rw e refl

allow_keeps :
    (policy : BreakerPolicy) (now : ℕ) (b : Breaker)
    → ((allow policy now b).1.failures ≡ b.failures)
      × ((allow policy now b).1.opened_at ≡ b.opened_at)
unfolding allow breaker_state
allow_keeps policy now b = elim (Option-cases b.opened_at) [
  | inl e ↦ rw e (refl, refl)
  | inr (at, e) ↦ rw e (ground arith)
]

allow-IsSettled :
    (policy : BreakerPolicy) (last now : ℕ) (b : Breaker)
    → last ≤ now
    → IsSettled policy last b
    → IsSettled policy now (allow policy now b).1
allow-IsSettled policy last now b p s =
    let o = Ordered-later last now b.failures p s.ordered in
    let k = allow_keeps policy now b in
    record {
      ordered = rw k.0 o;
      few = rw k.0 s.few;
      phase = elim s.phase [
        | inl h ↦ rw (allow-closed policy now b h.0) (inl h)
        | inr h ↦ inr (rw k.1 h.0, rw k.0 h.1)
      ];
    }

record_success-IsSettled :
    (policy : BreakerPolicy) (last : ℕ) (b : Breaker)
    → 0 < policy.threshold
    → IsSettled policy last (record_success b)
unfolding record_success
record_success-IsSettled policy last b p = record {
  ordered = tt;
  few = p;
  phase = inl (refl, refl);
}

release_probe-IsSettled :
    (policy : BreakerPolicy) (last : ℕ) (b : Breaker)
    → IsSettled policy last b
    → IsSettled policy last (release_probe b)
unfolding release_probe
release_probe-IsSettled policy last b s = record {
  ordered = s.ordered;
  few = s.few;
  phase = elim s.phase [ inl h ↦ inl (h.0, refl) | inr h ↦ inr h ];
}

trip-IsSettled :
    (policy : BreakerPolicy) (now : ℕ) (recent : List ℕ) (b : Breaker)
    → 0 < policy.threshold
    → Ordered now recent
    → b.opened_at ≡ none
    → b.probe_in_flight ≡ false
    → IsSettled policy now (trip policy now recent b)
trip-IsSettled policy now recent b p o e q =
    elim (Bool-cases (leb policy.threshold (length recent))) [
      | inl full_ ↦ rw full_ (record { ordered = tt; few = p; phase = inr (refl, refl) })
      | inr few_ ↦ rw few_ (record { ordered = o; few = ground arith; phase = inl (e, q) })
    ]

closed_quiet :
    (policy : BreakerPolicy) (last : ℕ) (b : Breaker)
    → IsSettled policy last b
    → b.opened_at ≡ none
    → b.probe_in_flight ≡ false
closed_quiet policy last b s e = elim s.phase [ inl h ↦ h.1 | inr h ↦ let q = h.0 in ground arith ]

open_cleared :
    (policy : BreakerPolicy) (last : ℕ) (b : Breaker) (at : ℕ)
    → IsSettled policy last b
    → b.opened_at ≡ some at
    → b.failures ≡ []
open_cleared policy last b at s e = elim s.phase [ inl h ↦ let q = h.0 in cc | inr h ↦ h.1 ]

fail_when-IsSettled :
    (policy : BreakerPolicy) (last now : ℕ) (o : Option ℕ) (b : Breaker)
    → b.opened_at ≡ o
    → 0 < policy.threshold
    → last ≤ now
    → IsSettled policy last b
    → IsSettled policy now (fail_when policy now o b)
fail_when-IsSettled policy last now none b e pos p s =
    trip-IsSettled policy now (drop_old policy.window now (b.failures ++ now ∷ [])) b pos
      (drop_old-Ordered policy.window now now (b.failures ++ now ∷ [])
        (Ordered-append now b.failures (Ordered-later last now b.failures p s.ordered)))
      e (closed_quiet policy last b s e)
fail_when-IsSettled policy last now (some at) b e pos p s = record {
  ordered = Ordered-later last now b.failures p s.ordered;
  few = s.few;
  phase = inr (refl, open_cleared policy last b at s e);
}

record_failure-IsSettled :
    (policy : BreakerPolicy) (last now : ℕ) (b : Breaker)
    → 0 < policy.threshold
    → last ≤ now
    → IsSettled policy last b
    → IsSettled policy now (record_failure policy now b)
unfolding record_failure
record_failure-IsSettled policy last now b pos p s =
    fail_when-IsSettled policy last now b.opened_at b refl pos p s

-- Whatever calls are made on a settled breaker with a positive threshold, while the clock does not
-- go back, it stays settled: it counts fewer failures than the threshold, none while it is open, and
-- no probe is under way while it is closed.
pub run-IsSettled :
    (policy : BreakerPolicy) (last : ℕ) (es : List Event) (b : Breaker)
    → 0 < policy.threshold
    → Timed last es
    → IsSettled policy last b
    → IsSettled policy (last_reading last es) (run policy es b)
run-IsSettled policy last [] b pos t s = s
run-IsSettled policy last (Event.asked now ∷ es) b pos t s =
    run-IsSettled policy now es _ pos t.1 (allow-IsSettled policy last now b t.0 s)
run-IsSettled policy last (Event.failed now ∷ es) b pos t s =
    run-IsSettled policy now es _ pos t.1 (record_failure-IsSettled policy last now b pos t.0 s)
run-IsSettled policy last (Event.succeeded ∷ es) b pos t s =
    run-IsSettled policy last es _ pos t (record_success-IsSettled policy last b pos)
run-IsSettled policy last (Event.released ∷ es) b pos t s =
    run-IsSettled policy last es _ pos t (release_probe-IsSettled policy last b s)

-- How many of the asking calls are let through, one after the other.
abbrev pub granted : BreakerPolicy → List ℕ → Breaker → ℕ
granted policy [] b = 0
granted policy (now ∷ nows) b =
    (if (allow policy now b).0 then 1 else 0) + granted policy nows (allow policy now b).1

allow-probing :
    (policy : BreakerPolicy) (now : ℕ) (b : Breaker)
    → is_some b.opened_at ≡ true
    → b.probe_in_flight ≡ true
    → allow policy now b ≡ (false, b)
unfolding allow breaker_state
allow-probing policy now b e q = elim (Option-cases b.opened_at) [
  | inl n ↦ ground arith
  | inr (at, n) ↦ rw n (ground arith)
]

state_when_open :
    (policy : BreakerPolicy) (now : ℕ) (b : Breaker)
    → is_some b.opened_at ≡ true
    → (breaker_state policy now b ≡ BreakerState.half_open)
      ⊎ (breaker_state policy now b ≡ BreakerState.opened)
unfolding breaker_state
state_when_open policy now b e = elim (Option-cases b.opened_at) [
  | inl n ↦ ground arith
  | inr (at, n) ↦ rw n (ground arith)
]

-- An open breaker that lets a call through has a probe under way; else nothing has changed.
allow-open :
    (policy : BreakerPolicy) (now : ℕ) (b : Breaker)
    → is_some b.opened_at ≡ true
    → (((allow policy now b).0 ≡ true) × ((allow policy now b).1.probe_in_flight ≡ true))
      ⊎ (allow policy now b ≡ (false, b))
unfolding allow
allow-open policy now b e = elim (state_when_open policy now b e) [
  | inl half ↦ rw half (elim (Bool-cases b.probe_in_flight) [
    | inl p ↦ rw p (inr refl)
    | inr p ↦ rw p (inl (refl, refl))
  ])
  | inr open_ ↦ rw open_ (inr refl)
]

granted-probing :
    (policy : BreakerPolicy) (nows : List ℕ) (b : Breaker)
    → is_some b.opened_at ≡ true
    → b.probe_in_flight ≡ true
    → granted policy nows b ≡ 0
granted-probing policy [] b e q = refl
granted-probing policy (now ∷ nows) b e q =
    let rest = granted-probing policy nows b e q in
    rw (allow-probing policy now b e q) (omega arith)

-- An open breaker that is only asked, at any times, lets one call through at most: until the
-- outcome of that call is recorded or its probe released.
pub granted-open :
    (policy : BreakerPolicy) (nows : List ℕ) (b : Breaker)
    → is_some b.opened_at ≡ true
    → granted policy nows b ≤ 1
granted-open policy [] b e = omega arith
granted-open policy (now ∷ nows) b e = elim (allow-open policy now b e) [
  | inl h ↦
      let k = (allow_keeps policy now b).1 in
      let z = granted-probing policy nows (allow policy now b).1 (rw k e) h.1 in
      rw (h.0, z) (omega arith)
  | inr h ↦ let rest = granted-open policy nows b e in rw h (omega arith)
]
