-- ===== src/Providers/Tests.antt =====
-- A breaker of two failures a minute with a cool-down of half a minute.
use nd_mind.Base.{
  ℕ, String, ◌+◌, ◌*◌, ◌≤◌, Bool, true, false, some, none, List, [], ◌∷◌, ◌≡◌, refl, arith, inl,
  ◌==◌, if◌then◌else◌,
}
use nd_mind.Base.Dict.{Dict, insert, lookup}
use nd_mind.Providers.Breaker.Recovery.{allow-recovers}
use nd_mind.Base.{◌+◌}
use nd_mind.Providers.Breaker.{release_probe}
use nd_mind.Providers.Breaker.{
  Breaker, BreakerPolicy, allow, breaker_state, drop_old, new_breaker, record_failure,
  record_success,
}
use nd_mind.Providers.Router.{
  Answer, CallState, ChatMessage, ModelRef, RouterPolicy, Tried, invoke_models, round, try_all,
  try_ref,
}
use nd_mind.Providers.Router.Bounds.{ended, invoke_models-ends}
use nd_mind.Providers.Breaker.Window.{IsSettled, record_failure-opens}
use nd_mind.Providers.Breaker.Events.{Event, granted, granted-open, run, run-IsSettled}

abbrev policy : BreakerPolicy
policy = record { threshold = 2; window = 60000000; cooldown = 30000000 }

abbrev one_failure : Breaker
one_failure = record { failures = 5000000 ∷ []; opened_at = none; probe_in_flight = false }

abbrev tripped : Breaker
tripped = record { failures = []; opened_at = some 9000000; probe_in_flight = false }

one_failure-IsSettled : IsSettled policy 6000000 one_failure
one_failure-IsSettled = record {
  ordered = (omega arith, tt, tt);
  few = omega arith;
  phase = inl (refl, refl);
}

new_breaker-IsSettled : IsSettled policy 0 new_breaker
new_breaker-IsSettled = record { ordered = tt; few = omega arith; phase = inl (refl, refl) }

probe_fails :
    run policy
      (Event.failed 5000000
        ∷ Event.failed 9000000
        ∷ Event.asked 40000000
        ∷ Event.failed 41000000
        ∷ [])
      new_breaker
    ≡ record { failures = []; opened_at = some 41000000; probe_in_flight = false }
unfolding allow breaker_state drop_old record_failure
probe_fails = refl

record_failure-opens_example : (record_failure policy 9000000 one_failure).opened_at ≡ some 9000000
record_failure-opens_example =
    record_failure-opens policy 6000000 9000000 one_failure one_failure-IsSettled (omega arith) refl

run-IsSettled_example : IsSettled policy 40000000 (
    run policy
      (Event.failed 5000000 ∷ Event.failed 9000000 ∷ Event.asked 40000000 ∷ [])
      new_breaker)
run-IsSettled_example =
    run-IsSettled policy 0 (Event.failed 5000000 ∷ Event.failed 9000000 ∷ Event.asked 40000000 ∷ [])
      new_breaker (omega arith) (omega arith, (omega arith, (omega arith, tt)))
      new_breaker-IsSettled

granted-open_example : granted policy (10000000 ∷ 40000000 ∷ 41000000 ∷ []) tripped ≤ 1
granted-open_example = granted-open policy (10000000 ∷ 40000000 ∷ 41000000 ∷ []) tripped refl

-- Two retries; the first model times out, the second one answers.
abbrev router_policy : RouterPolicy
router_policy = record { max_retries = 2; breaker = record policy { threshold = 5 } }

abbrev models : List ModelRef
models = record { provider = 1; model = 1 } ∷ record { provider = 2; model = 7 } ∷ []

abbrev fresh_call : CallState
fresh_call = record {
  attempts = [];
  total_attempts = 0;
  breakers = [];
  readings = 0;
  told = [];
  backoffs = [];
}

abbrev clock : ℕ → ℕ
clock n = 5000000

abbrev none_skipped : ModelRef → CallState → Bool
none_skipped ref s = false

abbrev adapter : ModelRef → List ChatMessage → CallState → Answer String
adapter ref messages s = if ref.provider == 2 then Answer.replied "done" else Answer.timed_out

abbrev undisturbed : CallState → Dict Breaker
undisturbed s = s.breakers

falls_back :
    let r =
      invoke_models router_policy clock true none_skipped adapter undisturbed models []
        fresh_call in
    (r.0 ≡ Tried.answered "done") × (r.1.total_attempts ≡ 4) × (r.1.backoffs ≡ 2 ∷ 1 ∷ [])
unfolding invoke_models try_all try_ref round allow breaker_state record_failure drop_old lookup
    insert record_success
falls_back = (refl, refl, refl)

invoke_models-ends_example :
    let r =
      invoke_models router_policy clock true none_skipped adapter undisturbed models []
        fresh_call in
    (ended r.0 ≡ true) × (r.1.total_attempts ≤ 0 + 2 * (2 + 2))
invoke_models-ends_example =
    invoke_models-ends router_policy clock true none_skipped adapter undisturbed models []
      fresh_call

allow-recovers_example :
    let probing = (allow policy 40000000 tripped).1 in
    ((allow policy 40000000 tripped).0 ≡ true)
    × (allow policy 50000000 (record_success probing) ≡ (true, new_breaker))
    × ((allow policy (41000000 + policy.cooldown) (record_failure policy 41000000 probing)).0
        ≡ true)
    × ((allow policy 40000000 (release_probe probing)).0 ≡ true)
allow-recovers_example =
    allow-recovers policy 40000000 9000000 tripped refl refl (omega arith) 41000000 50000000
