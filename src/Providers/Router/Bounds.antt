-- ===== src/Providers/Router/Bounds.antt =====
-- How often the router of providers/router.py calls a model.
use nd_mind.Base.{
  ℕ, ◌+◌, ◌*◌, ◌≤◌, suc, zero, Bool, true, false, List, [], ◌∷◌, ◌++◌, ◌≡◌, refl, arith, Bool-cases,
  inl, inr, length, if◌then◌else◌, ◌&&◌,
}
use nd_mind.Base.Dict.{Dict, insert}
use nd_mind.Providers.Breaker.{Breaker, allow}
use nd_mind.Providers.Router.{
  Answer, CallOutcome, CallState, ChatMessage, ModelRef, Next, ProviderError, RouterPolicy, Tried,
  invoke_models, round, try_all, try_ref, on_error, settle, called, wants_repair, retry_after,
  breaker_of, after_retry, timeout_error, asked_guard,
}

-- After so many tries, the loop goes on only while they are at most the retries, and one more once
-- a repair was asked for.
abbrev Within : ℕ → Bool → ℕ → Type 0
Within max_retries repaired tries = tries ≤ max_retries + (if repaired then 1 else 0)

abbrev Goes {ℓ} : {R : Type ℓ} → ℕ → ℕ → Next R → Type 0
Goes max_retries tries (Next.return r) = Unit
Goes max_retries tries (Next.again more repaired) = Within max_retries repaired tries
Goes max_retries tries Next.give_up = Unit

-- The loop ended by itself.
abbrev pub ended {ℓ} : {R : Type ℓ} → Tried R → Bool
ended (Tried.answered r) = true
ended Tried.moved_on = true
ended Tried.no_fuel = false

module _ {ℓ} {R : Type ℓ} (policy : RouterPolicy) (clock : ℕ → ℕ) (guarded : Bool)
    (skips : ModelRef → CallState → Bool)
    (invoke : ModelRef → List ChatMessage → CallState → Answer R)
    (others : CallState → Dict Breaker) where
  retry_after-stops :
      (ref : ModelRef) (err : ProviderError) (tries : ℕ) (s : CallState)
      → (retry_after policy clock guarded skips invoke others ref err tries s).0 ≡ true
      → tries ≤ policy.max_retries
  retry_after-stops ref err tries s e = ground arith

  retry_after-total :
      (ref : ModelRef) (err : ProviderError) (tries : ℕ) (s : CallState)
      → (retry_after policy clock guarded skips invoke others ref err tries s).1.total_attempts
        ≡ s.total_attempts
  retry_after-total ref err tries s = ground arith

  after_retry-Goes :
      (messages : List ChatMessage) (repaired : Bool) (tries : ℕ) (b : Bool × CallState)
      → (b.0 ≡ true → tries ≤ policy.max_retries)
      → Goes policy.max_retries tries
          (after_retry policy clock guarded skips invoke others messages repaired b).0
  after_retry-Goes messages repaired tries (true, s) h = let q = h refl in omega arith
  after_retry-Goes messages repaired tries (false, s) h = tt

  after_retry-state :
      (messages : List ChatMessage) (repaired : Bool) (b : Bool × CallState)
      → (after_retry policy clock guarded skips invoke others messages repaired b).1 ≡ b.1
  after_retry-state messages repaired (true, s) = refl
  after_retry-state messages repaired (false, s) = refl

  repairs_once :
      (err : ProviderError) (repaired : Bool)
      → wants_repair policy clock guarded skips invoke others err repaired ≡ true
      → repaired ≡ false
  repairs_once err true e = ground arith
  repairs_once err false e = refl

  on_error-Goes :
      (ref : ModelRef) (first messages : List ChatMessage) (repaired : Bool) (tries : ℕ)
      (err : ProviderError) (s : CallState)
      → Within policy.max_retries repaired tries
      → Goes policy.max_retries
          (suc tries)
          (on_error policy clock guarded skips invoke others ref first messages repaired
            (suc tries)
            err
            s).0
        × ((on_error policy clock guarded skips invoke others ref first messages repaired
              (suc tries)
              err
              s).1.total_attempts
            ≡ s.total_attempts)
  on_error-Goes ref first messages repaired tries err s h =
      elim (Bool-cases (wants_repair policy clock guarded skips invoke others err repaired)) [
        | inl w ↦
            let q = repairs_once err repaired w in let k = (rw q at h) in rw w (omega arith, refl)
        | inr w ↦ rw w (
          after_retry-Goes messages repaired (suc tries) _
              (retry_after-stops ref err (suc tries) s),
          rw (after_retry-state messages repaired) (retry_after-total ref err (suc tries) s),
        )
      ]

  settle-Goes :
      (ref : ModelRef) (first messages : List ChatMessage) (repaired : Bool) (tries : ℕ)
      (a : Answer R) (s : CallState)
      → Within policy.max_retries repaired tries
      → Goes policy.max_retries
          (suc tries)
          (settle policy clock guarded skips invoke others ref first messages repaired
            (suc tries)
            a
            s).0
        × ((settle policy clock guarded skips invoke others ref first messages repaired
              (suc tries)
              a
              s).1.total_attempts
            ≡ s.total_attempts)
  settle-Goes ref first messages repaired tries (Answer.replied r) s h = (tt, refl)
  settle-Goes ref first messages repaired tries Answer.timed_out s h =
      on_error-Goes ref first messages repaired tries timeout_error s h
  settle-Goes ref first messages repaired tries (Answer.raised err) s h =
      on_error-Goes ref first messages repaired tries err s h

  called-Goes :
      (ref : ModelRef) (first messages : List ChatMessage) (repaired : Bool) (tries : ℕ)
      (s : CallState)
      → Within policy.max_retries repaired tries
      → Goes policy.max_retries
          (suc tries)
          (called policy clock guarded skips invoke others ref first messages repaired
            (suc tries)
            s).0
        × ((called policy clock guarded skips invoke others ref first messages repaired
              (suc tries)
              s).1.total_attempts
            ≡ suc s.total_attempts)
  called-Goes ref first messages repaired tries s h =
      settle-Goes ref first messages repaired tries
        (invoke ref messages (record s { total_attempts = suc s.total_attempts }))
        (record s {
          total_attempts = suc s.total_attempts;
          breakers = others (record s { total_attempts = suc s.total_attempts });
        })
        h

  round-Goes :
      (ref : ModelRef) (first messages : List ChatMessage) (repaired : Bool) (tries : ℕ)
      (s : CallState)
      → Within policy.max_retries repaired tries
      → Goes policy.max_retries
          (suc tries)
          (round policy clock guarded skips invoke others ref first messages repaired
            (suc tries)
            s).0
        × ((round policy clock guarded skips invoke others ref first messages repaired
              (suc tries)
              s).1.total_attempts
            ≤ suc s.total_attempts)
  unfolding round
  round-Goes ref first messages repaired tries s h =
      elim (Bool-cases (allow policy.breaker (clock s.readings) (breaker_of ref s)).0) [
        | inl let_ ↦
            let g =
              called-Goes ref first messages repaired tries
                (record s {
                  readings = suc s.readings;
                  breakers =
                      insert ref.provider
                        (allow policy.breaker (clock s.readings) (breaker_of ref s)).1 s.breakers;
                })
                h in
            rw let_ (g.0, omega (arith, g.1))
        | inr stop ↦ rw stop (tt, omega arith)
      ]

  -- It ended, and the calls that it made, after so many tries, are at most the retries and two.
  Ends : Tried R × CallState → ℕ → ℕ → Type 0
  Ends r start tries =
      (ended r.0 ≡ true) × (r.1.total_attempts + tries ≤ start + policy.max_retries + 2)

  next-Ends :
      (k : List ChatMessage → Bool → CallState → Tried R × CallState) (tries start : ℕ)
      (next : Next R) (s : CallState)
      → tries ≤ policy.max_retries + 1
      → s.total_attempts ≤ suc start
      → Goes policy.max_retries (suc tries) next
      → ((more : List ChatMessage) (now : Bool)
          → Within policy.max_retries now (suc tries)
          → Ends (k more now s) s.total_attempts (suc tries))
      → Ends
          (elim next [
            | Next.return r ↦ (Tried.answered r, s)
            | Next.again more now ↦ k more now s
            | Next.give_up ↦ (Tried.moved_on, s)
          ])
          start
          tries
  unfolding Ends
  next-Ends k tries start (Next.return r) s p q g h = (refl, omega arith)
  next-Ends k tries start (Next.again more now) s p q g h =
      let e = h more now g in (e.0, omega (arith, e.1))
  next-Ends k tries start Next.give_up s p q g h = (refl, omega arith)

  Within-one :
      (repaired : Bool) (tries : ℕ)
      → Within policy.max_retries repaired tries
      → tries ≤ policy.max_retries + 1
  Within-one true tries h = h
  Within-one false tries h = omega arith

  out_of_tries :
      (repaired : Bool) (tries : ℕ)
      → Within policy.max_retries repaired tries
      → policy.max_retries + 3 ≤ 0 + tries
      → ⊥
  out_of_tries repaired tries h p = let q = Within-one repaired tries h in omega arith

  try_ref-Ends :
      (fuel : ℕ) (ref : ModelRef) (first messages : List ChatMessage) (repaired : Bool) (tries : ℕ)
      (s : CallState)
      → Within policy.max_retries repaired tries
      → policy.max_retries + 3 ≤ fuel + tries
      → Ends
          (try_ref policy clock guarded skips invoke others fuel ref first messages repaired tries
            s)
          s.total_attempts
          tries
  unfolding try_ref
  try_ref-Ends zero ref first messages repaired tries s h p =
      elim (out_of_tries repaired tries h p) [ ]
  try_ref-Ends (suc fuel) ref first messages repaired tries s h p =
      let g = round-Goes ref first messages repaired tries s h in
      next-Ends
        (λ more now t.
          try_ref policy clock guarded skips invoke others fuel ref first more now (suc tries) t)
        tries s.total_attempts
        (round policy clock guarded skips invoke others ref first messages repaired (suc tries) s).0
        (round policy clock guarded skips invoke others ref first messages repaired (suc tries) s).1
        (Within-one repaired tries h) g.1 g.0
        (λ more now w. try_ref-Ends fuel ref first more now (suc tries) _ w (omega arith))

  -- One candidate, and then the others where it did not answer.
  tried-ends :
      (k : CallState → Tried R × CallState) (o : Tried R) (s : CallState) (start rest : ℕ)
      → ended o ≡ true
      → s.total_attempts + 0 ≤ start + policy.max_retries + 2
      → (ended (k s).0 ≡ true) × ((k s).1.total_attempts ≤ s.total_attempts + rest)
      → let r : Tried R × CallState = elim o [
        | Tried.answered a ↦ (Tried.answered a, s)
        | Tried.moved_on ↦ k s
        | Tried.no_fuel ↦ (Tried.no_fuel, s)
      ] in
        (ended r.0 ≡ true) × (r.1.total_attempts ≤ start + (policy.max_retries + 2 + rest))
  tried-ends k (Tried.answered a) s start rest e p h = (refl, omega arith)
  tried-ends k Tried.moved_on s start rest e p h = (h.0, omega (arith, h.1))
  tried-ends k Tried.no_fuel s start rest e p h = cc

  one_more : (n m : ℕ) → suc n * m ≡ m + n * m
  one_more n m = grind arith

  try_all-ends :
      (refs : List ModelRef) (messages : List ChatMessage) (s : CallState)
      → (ended
            (try_all policy clock guarded skips invoke others
              (policy.max_retries + 3)
              refs
              messages
              s).0
          ≡ true)
        × ((try_all policy clock guarded skips invoke others
              (policy.max_retries + 3)
              refs
              messages
              s).1.total_attempts
            ≤ s.total_attempts + length refs * (policy.max_retries + 2))
  unfolding try_all Ends
  try_all-ends [] messages s = (refl, omega arith)
  try_all-ends (ref ∷ refs) messages s = elim (Bool-cases (guarded && skips ref s)) [
    | inl e ↦
        let rest = try_all-ends refs messages (record s {
          breakers = if guarded then others s else s.breakers;
          attempts = s.attempts ++ record { ref = ref; outcome = CallOutcome.out_of_credit } ∷ [];
        }) in
        rw (e, one_more (length refs) (policy.max_retries + 2)) (rest.0, omega (arith, rest.1))
    | inr e ↦
        let tried =
          try_ref-Ends (policy.max_retries + 3) ref messages messages false 0
            (asked_guard policy clock guarded skips invoke others s) (omega arith) (omega arith) in
        rw (e, one_more (length refs) (policy.max_retries + 2))
          (tried-ends
            (λ t.
              try_all policy clock guarded skips invoke others (policy.max_retries + 3) refs
                messages t)
            (try_ref policy clock guarded skips invoke others (policy.max_retries + 3) ref messages
              messages false 0 (asked_guard policy clock guarded skips invoke others s)).0
            (try_ref policy clock guarded skips invoke others (policy.max_retries + 3) ref messages
              messages false 0 (asked_guard policy clock guarded skips invoke others s)).1
            s.total_attempts (length refs * (policy.max_retries + 2)) tried.0 tried.1
            (try_all-ends refs messages _))
  ]

  -- The router's loops end within their fuel, whatever the adapters answer and whatever other calls do
  -- to the breakers in a call, a back-off or while the guard is asked; and they make at most as many
  -- calls as the candidates times the retries and two.
  pub invoke_models-ends :
      (refs : List ModelRef) (messages : List ChatMessage) (s : CallState)
      → let r = invoke_models policy clock guarded skips invoke others refs messages s in
        (ended r.0 ≡ true)
        × (r.1.total_attempts ≤ s.total_attempts + length refs * (policy.max_retries + 2))
  unfolding invoke_models
  invoke_models-ends refs messages s = try_all-ends refs messages s
