-- ===== src/Providers/Router.antt =====
-- `ModelRouter._invoke` of providers/router.py with providers/errors.py: the candidates of a step
-- in turn, each called again while its breaker lets it and its errors are worth another try. The
-- adapters' answers, the guard's and what other calls do to the breakers meanwhile are functions of
-- the state of the call. Every ask of a breaker and every failure takes a reading of the clock.
pub mod Bounds
use nd_mind.Base.{
  ℕ, ◌+◌, String, Bool, true, false, not, ◌&&◌, Option, none, some, List, [], ◌∷◌, ◌++◌, suc, zero,
  leb, if◌then◌else◌, get_or, str_eq,
}
use nd_mind.Base.Dict.{Dict, insert, lookup}
use nd_mind.Providers.Breaker.{
  Breaker, BreakerPolicy, allow, new_breaker, record_failure, record_success,
}

pub data ProviderErrorKind : Type 0 where
  timeout rate_limited server connection bad_request auth invalid_output unsupported credit :
      ProviderErrorKind

-- RETRYABLE_KINDS
abbrev pub retryable : ProviderErrorKind → Bool
retryable ProviderErrorKind.timeout = true
retryable ProviderErrorKind.rate_limited = true
retryable ProviderErrorKind.server = true
retryable ProviderErrorKind.connection = true
retryable _ = false

abbrev is_invalid : ProviderErrorKind → Bool
is_invalid ProviderErrorKind.invalid_output = true
is_invalid _ = false

abbrev is_credit : ProviderErrorKind → Bool
is_credit ProviderErrorKind.credit = true
is_credit _ = false

-- The raw output is there where it is given and not empty.
pub record ProviderError : Type 0 where
  pub kind : ProviderErrorKind
  pub message : String
  pub raw_output : Option String

-- `_timeout`
abbrev pub timeout_error : ProviderError
timeout_error = record {
  kind = ProviderErrorKind.timeout;
  message = "no response";
  raw_output = none;
}

pub record ModelRef : Type 0 where
  pub provider : ℕ
  pub model : ℕ

-- A message as it was given, the invalid reply of a repair, and its request with the error's text.
pub data ChatMessage : Type 0 where
  given reply correct : String → ChatMessage

abbrev pub repair : List ChatMessage → ProviderError → List ChatMessage
repair messages err =
    messages ++ ChatMessage.reply (get_or err.raw_output "") ∷ ChatMessage.correct err.message ∷ []

pub data CallOutcome : Type 0 where
  failed : ProviderErrorKind → CallOutcome
  out_of_credit breaker_open : CallOutcome

pub record Attempt : Type 0 where
  pub ref : ModelRef
  pub outcome : CallOutcome

-- `asyncio.timeout` ends a call that takes too long.
pub data Answer {ℓ} (R : Type ℓ) : Type ℓ where
  replied : R → Answer R
  timed_out : Answer R
  raised : ProviderError → Answer R

pub record RouterPolicy : Type 0 where
  pub max_retries : ℕ
  pub breaker : BreakerPolicy

-- The call's state, the breakers of the registry, how often the clock was read, the providers that
-- the guard was told are out of credit, and the tries before each backing off.
pub record CallState : Type 0 where
  pub attempts : List Attempt
  pub total_attempts : ℕ
  pub breakers : Dict Breaker
  pub readings : ℕ
  pub told : List ℕ
  pub backoffs : List ℕ

-- `BreakerRegistry.get`
abbrev pub breaker_of : ModelRef → CallState → Breaker
breaker_of ref s = get_or (lookup ref.provider s.breakers) new_breaker

abbrev put_breaker : ModelRef → Breaker → CallState → CallState
put_breaker ref b s = record s { breakers = insert ref.provider b s.breakers }

abbrev noted : ModelRef → CallOutcome → CallState → CallState
noted ref outcome s = record s {
  attempts = s.attempts ++ record { ref = ref; outcome = outcome } ∷ [];
}

-- What the loop does next.
pub data Next {ℓ} (R : Type ℓ) : Type ℓ where
  return : R → Next R
  again : List ChatMessage → Bool → Next R
  give_up : Next R

-- How the loop for one candidate ended.
pub data Tried {ℓ} (R : Type ℓ) : Type ℓ where
  answered : R → Tried R
  moved_on : Tried R
  no_fuel : Tried R

module _ {ℓ} {R : Type ℓ} (policy : RouterPolicy) (clock : ℕ → ℕ) (guarded : Bool)
    (skips : ModelRef → CallState → Bool)
    (invoke : ModelRef → List ChatMessage → CallState → Answer R)
    (others : CallState → Dict Breaker) where
  abbrev tick : CallState → CallState
  tick s = record s { readings = suc s.readings }

  -- After an await, in which other calls may have used the breakers.
  abbrev pub awaited : CallState → CallState
  awaited s = record s { breakers = others s }

  -- After the guard was asked, if there is one.
  abbrev pub asked_guard : CallState → CallState
  asked_guard s = record s { breakers = if guarded then others s else s.breakers }

  -- `_fail`
  abbrev pub fail_call : ModelRef → ProviderError → CallState → CallState
  fail_call ref err s =
      let b =
        if retryable err.kind
        then record_failure policy.breaker (clock s.readings) (breaker_of ref s)
        else record_success (breaker_of ref s) in
      noted ref (CallOutcome.failed err.kind) (put_breaker ref b (tick s))

  -- `_retry_after`
  abbrev pub retry_after : ModelRef → ProviderError → ℕ → CallState → Bool × CallState
  retry_after ref err tries s =
      let failed = fail_call ref err s in
      let told =
        if is_credit err.kind && guarded
        then awaited (record failed { told = ref.provider ∷ failed.told })
        else failed in
      if retryable err.kind && leb tries policy.max_retries
      then (true, awaited (record told { backoffs = tries ∷ told.backoffs }))
      else (false, told)

  abbrev pub wants_repair : ProviderError → Bool → Bool
  wants_repair err repaired =
      is_invalid err.kind
      && elim err.raw_output [ none ↦ false | some raw ↦ not (str_eq raw "") ]
      && not repaired

  abbrev pub after_retry : List ChatMessage → Bool → Bool × CallState → Next R × CallState
  after_retry messages repaired (true, s) = (Next.again messages repaired, s)
  after_retry messages repaired (false, s) = (Next.give_up, s)

  -- What an error of a call leads to. A repair starts from the first messages.
  abbrev pub on_error :
      ModelRef
      → List ChatMessage
      → List ChatMessage
      → Bool
      → ℕ
      → ProviderError
      → CallState
      → Next R × CallState
  on_error ref first messages repaired tries err s =
      if wants_repair err repaired
      then (Next.again (repair first err) true, fail_call ref err s)
      else after_retry messages repaired (retry_after ref err tries s)

  abbrev pub settle :
      ModelRef
      → List ChatMessage
      → List ChatMessage
      → Bool
      → ℕ
      → Answer R
      → CallState
      → Next R × CallState
  settle ref first messages repaired tries (Answer.replied r) s =
      (Next.return r, put_breaker ref (record_success (breaker_of ref s)) s)
  settle ref first messages repaired tries Answer.timed_out s =
      on_error ref first messages repaired tries timeout_error s
  settle ref first messages repaired tries (Answer.raised err) s =
      on_error ref first messages repaired tries err s

  -- A call that the breaker let through; meanwhile others may have used the breakers.
  abbrev pub called :
      ModelRef → List ChatMessage → List ChatMessage → Bool → ℕ → CallState → Next R × CallState
  called ref first messages repaired tries s =
      let out = record s { total_attempts = suc s.total_attempts } in
      settle ref first messages repaired tries (invoke ref messages out) (awaited out)

  -- One round of the `while`, with the number of the try it makes.
  unfoldable pub round :
      ModelRef → List ChatMessage → List ChatMessage → Bool → ℕ → CallState → Next R × CallState
  round ref first messages repaired tries s =
      let asked = allow policy.breaker (clock s.readings) (breaker_of ref s) in
      if asked.0
      then called ref first messages repaired tries (put_breaker ref asked.1 (tick s))
      else (Next.give_up, noted ref CallOutcome.breaker_open (put_breaker ref asked.1 (tick s)))

  -- The `while` for one candidate, after so many tries.
  unfoldable pub try_ref :
      ℕ
      → ModelRef
      → List ChatMessage
      → List ChatMessage
      → Bool
      → ℕ
      → CallState
      → Tried R × CallState
  try_ref zero ref first messages repaired tries s = (Tried.no_fuel, s)
  try_ref (suc fuel) ref first messages repaired tries s =
      let next = round ref first messages repaired (suc tries) s in
      elim next.0 [
        | Next.return r ↦ (Tried.answered r, next.1)
        | Next.again more now ↦ try_ref fuel ref first more now (suc tries) next.1
        | Next.give_up ↦ (Tried.moved_on, next.1)
      ]

  -- The `for` over the candidates.
  unfoldable pub try_all : ℕ → List ModelRef → List ChatMessage → CallState → Tried R × CallState
  try_all fuel [] messages s = (Tried.moved_on, s)
  try_all fuel (ref ∷ refs) messages s =
      let tried = try_ref fuel ref messages messages false 0 (asked_guard s) in
      if guarded && skips ref s
      then try_all fuel refs messages (noted ref CallOutcome.out_of_credit (asked_guard s))
      else elim tried.0 [
        | Tried.answered r ↦ (Tried.answered r, tried.1)
        | Tried.moved_on ↦ try_all fuel refs messages tried.1
        | Tried.no_fuel ↦ (Tried.no_fuel, tried.1)
      ]

  -- Enough for `max_retries` retries and a repair.
  abbrev pub enough : ℕ
  enough = policy.max_retries + 3

  -- `_invoke` after its `_check`, which refuses the call or passes; `moved_on` stands for
  -- ProviderUnavailableError.
  unfoldable pub invoke_models : List ModelRef → List ChatMessage → CallState → Tried R × CallState
  invoke_models refs messages s = try_all enough refs messages s
