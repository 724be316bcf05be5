-- ===== src/Ingestion/Result.antt =====
-- What a resolving function of ingestion/time.py returns: a value, or the exception that it raises.
-- `UnresolvableTimeError` is a subclass of `ValueError`; `value_error` is one of another class.
pub use nd_mind.Base.Outcome.{ok, raise, ◌>>=◌, >>=-returned, ok_inj}
use nd_mind.Base.{Option, none, some}
use nd_mind.Base.Outcome.{Outcome}

pub data TimeError : Type 0 where
  unresolvable value_error overflow : TimeError

abbrev pub Result {ℓ} : Type ℓ → Type ℓ
Result A = Outcome TimeError A

-- A value, or the exception `e` where there is none.
abbrev pub or_raise {ℓ} : {A : Type ℓ} → TimeError → Option A → Result A
or_raise e none = raise e
or_raise e (some a) = ok a
