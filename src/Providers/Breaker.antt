-- ===== src/Providers/Breaker.antt =====
-- `CircuitBreaker` of providers/resilience.py. Its clock is the monotonic one, in microseconds; an
-- operation that reads it takes what it reads.
pub mod Window
pub mod Events
pub mod Recovery
use nd_mind.Base.{
  ℕ, ◌-◌, Bool, true, false, Option, none, some, List, [], ◌∷◌, ◌++◌, ltb, leb, length,
  if◌then◌else◌,
}

-- The breaker's part of `ResiliencePolicy`.
pub record BreakerPolicy : Type 0 where
  pub threshold : ℕ
  pub window : ℕ
  pub cooldown : ℕ

-- The times of the recent failures, the oldest first.
pub record Breaker : Type 0 where
  pub failures : List ℕ
  pub opened_at : Option ℕ
  pub probe_in_flight : Bool

pub data BreakerState : Type 0 where
  closed opened half_open : BreakerState

abbrev pub new_breaker : Breaker
new_breaker = record { failures = []; opened_at = none; probe_in_flight = false }

abbrev state_since : BreakerPolicy → ℕ → Option ℕ → BreakerState
state_since policy now none = BreakerState.closed
state_since policy now (some at) =
    if leb policy.cooldown (now - at) then BreakerState.half_open else BreakerState.opened

-- `state`
unfoldable pub breaker_state : BreakerPolicy → ℕ → Breaker → BreakerState
breaker_state policy now b = state_since policy now b.opened_at

abbrev allow_in : BreakerState → Breaker → Bool × Breaker
allow_in BreakerState.closed b = (true, b)
allow_in BreakerState.half_open b =
    if b.probe_in_flight then (false, b) else (true, record b { probe_in_flight = true })
allow_in BreakerState.opened b = (false, b)

unfoldable pub allow : BreakerPolicy → ℕ → Breaker → Bool × Breaker
allow policy now b = allow_in (breaker_state policy now b) b

unfoldable pub release_probe : Breaker → Breaker
release_probe b = record b { probe_in_flight = false }

unfoldable pub record_success : Breaker → Breaker
record_success b = record { failures = []; opened_at = none; probe_in_flight = false }

-- `while self._failures and now - self._failures[0] > self._window_s: popleft()`
unfoldable pub drop_old : ℕ → ℕ → List ℕ → List ℕ
drop_old window now [] = []
drop_old window now (at ∷ later) =
    let rest = drop_old window now later in if ltb window (now - at) then rest else at ∷ later

-- A closed breaker after a failure, with the failures that are left in the window.
abbrev pub trip : BreakerPolicy → ℕ → List ℕ → Breaker → Breaker
trip policy now recent b =
    if leb policy.threshold (length recent)
    then record b { failures = []; opened_at = some now }
    else record b { failures = recent }

abbrev pub fail_when : BreakerPolicy → ℕ → Option ℕ → Breaker → Breaker
fail_when policy now (some _) b = record b { opened_at = some now; probe_in_flight = false }
fail_when policy now none b =
    trip policy now (drop_old policy.window now (b.failures ++ now ∷ [])) b

unfoldable pub record_failure : BreakerPolicy → ℕ → Breaker → Breaker
record_failure policy now b = fail_when policy now b.opened_at b
