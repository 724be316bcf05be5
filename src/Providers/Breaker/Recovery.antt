-- ===== src/Providers/Breaker/Recovery.antt =====
-- How an open breaker of providers/resilience.py comes to let calls through again.
use nd_mind.Base.{ℕ, ◌+◌, ◌-◌, ◌≤◌, true, false, some, ◌≡◌, refl, arith, leb}
use nd_mind.Providers.Breaker.{
  Breaker, BreakerPolicy, allow, breaker_state, new_breaker, record_failure, record_success,
  release_probe,
}

cooled :
    (policy : BreakerPolicy) (now at : ℕ) (b : Breaker)
    → b.opened_at ≡ some at
    → b.probe_in_flight ≡ false
    → at + policy.cooldown ≤ now
    → allow policy now b ≡ (true, record b { probe_in_flight = true })
unfolding allow breaker_state
cooled policy now at b o p h =
    let due : leb policy.cooldown (now - at) ≡ true = ground arith in rw (o, due, p) refl

-- Once its cool-down is over, an open breaker without a probe lets the next call through. If that
-- call succeeds every later one is let through; if it fails, or is given up, a later one is let
-- through again, after another cool-down or at once.
pub allow-recovers :
    (policy : BreakerPolicy) (now at : ℕ) (b : Breaker)
    → b.opened_at ≡ some at
    → b.probe_in_flight ≡ false
    → at + policy.cooldown ≤ now
    → (failed later : ℕ)
    → let probing = (allow policy now b).1 in
      ((allow policy now b).0 ≡ true)
      × (allow policy later (record_success probing) ≡ (true, new_breaker))
      × ((allow policy (failed + policy.cooldown) (record_failure policy failed probing)).0 ≡ true)
      × ((allow policy now (release_probe probing)).0 ≡ true)
unfolding allow breaker_state record_success record_failure release_probe
allow-recovers policy now at b o p h failed later =
    let due : leb policy.cooldown (now - at) ≡ true = ground arith in
    let again : leb policy.cooldown (failed + policy.cooldown - failed) ≡ true = ground arith in
    rw (o, due, p) (refl, refl, rw again refl, rw due refl)
