-- ===== src/Config/Routing.antt =====
-- config/routing.py: which model each step runs on. A provider, a model and a name of the environment
-- are numbers; the fake provider is number 0. A time is in milliseconds.
pub mod Picker
pub mod Picks
pub mod Served
pub use nd_mind.Base.Outcome.{ok, raise, ◌>>=◌, >>=-returned, ok_inj}
mod Tests
use nd_mind.Base.{
  ℕ, Bool, true, false, not, ◌&&◌, ◌||◌, Option, none, some, List, [], ◌∷◌, ◌++◌, ◌==◌,
  if◌then◌else◌, is_some, is_none, any, ◌≡◌, refl,
}
use nd_mind.Base.Dict.{Dict, lookup}
use nd_mind.Base.Outcome.{Outcome}

pub data Step : Type 0 where
  intent extract resolve enrich digest reconcile plan rerank correct answer judge embed : Step

pub data StepKind : Type 0 where
  chat embedding : StepKind

-- STEP_KINDS
abbrev pub step_kind : Step → StepKind
step_kind Step.embed = StepKind.embedding
step_kind _ = StepKind.chat

pub data Mode : Type 0 where
  auto live fake : Mode

pub record ModelRef : Type 0 where
  pub provider : ℕ
  pub model : ℕ

-- FAKE_PROVIDER
abbrev pub fake_provider : ℕ
fake_provider = 0

-- FAKE_MODELS
abbrev pub fake_model : StepKind → ℕ
fake_model StepKind.chat = 0
fake_model StepKind.embedding = 1

abbrev pub ref : ℕ → ℕ → ModelRef
ref p m = record { provider = p; model = m }

abbrev pub same_ref : ModelRef → ModelRef → Bool
same_ref a b = a.provider == b.provider && a.model == b.model

pub data ProviderKind : Type 0 where
  anthropic openai fake : ProviderKind

pub record ProviderConfig : Type 0 where
  pub kind : ProviderKind
  pub api_key_env : Option ℕ
  pub base_url : Option ℕ
  pub base_url_env : Option ℕ

pub record ResolvedProvider : Type 0 where
  pub kind : ProviderKind
  pub base_url : Option ℕ
  pub has_credentials : Bool
  pub api_key_env : Option ℕ

abbrev or_else : Option ℕ → Option ℕ → Option ℕ
or_else none other = other
or_else (some a) other = some a

-- `environ.get(name, "").strip()`, none where it is empty, of a name that may not be given
abbrev env_of : (ℕ → Option ℕ) → Option ℕ → Option ℕ
env_of env none = none
env_of env (some name) = env name

abbrev with_key : Option ℕ → (ℕ → Option ℕ) → ProviderKind → Option ℕ → Bool
with_key (some name) env kind base_url = is_some (env name)
with_key none env ProviderKind.openai base_url = is_some base_url
with_key none env _ base_url = false

abbrev credentials : ProviderConfig → (ℕ → Option ℕ) → ProviderKind → Option ℕ → Bool
credentials cfg env ProviderKind.fake base_url = true
credentials cfg env kind base_url = with_key cfg.api_key_env env kind base_url

unfoldable pub resolve_provider : (ℕ → Option ℕ) → ProviderConfig → ResolvedProvider
resolve_provider env cfg =
    let base_url = or_else (env_of env cfg.base_url_env) cfg.base_url in
    record {
      kind = cfg.kind;
      base_url = base_url;
      has_credentials = credentials cfg env cfg.kind base_url;
      api_key_env = cfg.api_key_env;
    }

-- `_resolve_providers`
unfoldable pub resolve_providers : (ℕ → Option ℕ) → Dict ProviderConfig → Dict ResolvedProvider
resolve_providers env [] = []
resolve_providers env ((name, cfg) ∷ rest) =
    (name, resolve_provider env cfg) ∷ resolve_providers env rest

pub data Role : Type 0 where
  primary fallback : Role

-- What `missing_creds` and a route's notes name, without their wording.
pub record MissingKey : Type 0 where
  pub env_name : Option ℕ
  pub step : Step
  pub role : Role
  pub model : ModelRef

pub data Note : Type 0 where
  replaced : ModelRef → ModelRef → Note
  dropped : ModelRef → Note

-- `providers[ref.provider]`, of a provider that was looked up before.
abbrev pub has_creds : Dict ResolvedProvider → ModelRef → Bool
has_creds providers r = elim (lookup r.provider providers) [
  | none ↦ false
  | some p ↦ p.has_credentials
]

abbrev key_of : Dict ResolvedProvider → ModelRef → Option ℕ
key_of providers r = elim (lookup r.provider providers) [ none ↦ none | some p ↦ p.api_key_env ]

abbrev pub missing_key : Dict ResolvedProvider → Step → Role → Option ModelRef → List MissingKey
missing_key providers step role none = []
missing_key providers step role (some r) =
    if has_creds providers r
    then []
    else (record { env_name = key_of providers r; step = step; role = role; model = r } ∷ [])

-- What `_apply_mode` returns, with the keys that it adds to `missing_creds`.
pub record Settled : Type 0 where
  pub primary : ModelRef
  pub fallback : Option ModelRef
  pub notes : List Note
  pub missing : List MissingKey

abbrev settled : ModelRef → Option ModelRef → List Note → Settled
settled p f notes = record { primary = p; fallback = f; notes = notes; missing = [] }

abbrev pub replacement : Dict ResolvedProvider → ModelRef → Option ModelRef → ModelRef
replacement providers fake_ref none = fake_ref
replacement providers fake_ref (some f) = if has_creds providers f then f else fake_ref

abbrev pub kept_fallback : Dict ResolvedProvider → ModelRef → Option ModelRef → Settled
kept_fallback providers p none = settled p none []
kept_fallback providers p (some f) =
    if has_creds providers f then settled p (some f) [] else settled p none (Note.dropped f ∷ [])

-- `_apply_mode`
unfoldable pub apply_mode :
    Step → ModelRef → Option ModelRef → Dict ResolvedProvider → Mode → Settled
apply_mode step p f providers Mode.fake =
    settled (ref fake_provider (fake_model (step_kind step))) none []
apply_mode step p f providers Mode.live = record {
  primary = p;
  fallback = f;
  notes = [];
  missing =
      missing_key providers step Role.primary (some p)
      ++ missing_key providers step Role.fallback f;
}
apply_mode step p f providers Mode.auto =
    let fake_ref = ref fake_provider (fake_model (step_kind step)) in
    if has_creds providers p
    then kept_fallback providers p f
    else (let r = replacement providers fake_ref f in settled r none (Note.replaced p r ∷ []))

pub record StepConfig : Type 0 where
  pub model : ModelRef
  pub fallback : Option ModelRef
  pub timeout_ms : ℕ
  pub max_output_tokens : ℕ

-- The overrides that `_read_overrides` finds: no entry, or what it holds.
pub record Overrides : Type 0 where
  pub primary : Step → Option ModelRef
  pub fallback : Step → Option (Option ModelRef)

pub record ResolvedRoute : Type 0 where
  pub step : Step
  pub kind : StepKind
  pub primary : ModelRef
  pub fallback : Option ModelRef
  pub timeout_ms : ℕ
  pub max_output_tokens : ℕ
  pub substituted : List Note
  pub configured : Option ModelRef

pub data ConfigError : Type 0 where
  unknown_provider : ModelRef → ConfigError
  missing_credentials : List MissingKey → ConfigError
  picked_fake not_a_choice no_credentials : ModelRef → ConfigError

abbrev pub Result {ℓ} : Type ℓ → Type ℓ
Result A = Outcome ConfigError A

abbrev pub ref_or : Option ModelRef → ModelRef → ModelRef
ref_or none r = r
ref_or (some a) r = a

abbrev pub fallback_or : Option (Option ModelRef) → Option ModelRef → Option ModelRef
fallback_or none f = f
fallback_or (some f) other = f

-- A model whose provider is declared.
abbrev pub check_ref : Dict ResolvedProvider → Option ModelRef → Result (Unit {0})
check_ref providers none = ok tt
check_ref providers (some r) = elim (lookup r.provider providers) [
  | none ↦ raise (ConfigError.unknown_provider r)
  | some p ↦ ok tt
]

abbrev pub route_of : Step → StepConfig → ModelRef → Settled → ResolvedRoute
route_of step cfg configured s = record {
  step = step;
  kind = step_kind step;
  primary = s.primary;
  fallback = s.fallback;
  timeout_ms = cfg.timeout_ms;
  max_output_tokens = cfg.max_output_tokens;
  substituted = s.notes;
  configured = some configured;
}

-- The round of `resolve_routing` for a step: its route and the keys that it misses.
unfoldable pub resolve_step :
    Dict ResolvedProvider
    → Overrides
    → Mode
    → Step
    → StepConfig
    → Result (ResolvedRoute × List MissingKey)
resolve_step providers overrides mode step cfg =
    let p = ref_or (overrides.primary step) cfg.model in
    let f = fallback_or (overrides.fallback step) cfg.fallback in
    check_ref providers (some p) >>= λ _. check_ref providers f >>= λ _.
    (let s = apply_mode step p f providers mode in ok (route_of step cfg p s, s.missing))

unfoldable pub resolve_steps :
    Dict ResolvedProvider
    → Overrides
    → Mode
    → (Step → StepConfig)
    → List Step
    → Result (List ResolvedRoute × List MissingKey)
resolve_steps providers overrides mode file [] = ok ([], [])
resolve_steps providers overrides mode file (step ∷ steps) =
    resolve_step providers overrides mode step (file step) >>= λ r.
    resolve_steps providers overrides mode file steps >>= λ rest. ok (r.0 ∷ rest.0, r.1 ++ rest.1)

abbrev pub all_steps : List Step
all_steps =
    Step.intent ∷ Step.extract ∷ Step.resolve ∷ Step.enrich ∷ Step.digest ∷ Step.reconcile
    ∷ Step.plan ∷ Step.rerank ∷ Step.correct ∷ Step.answer ∷ Step.judge ∷ Step.embed ∷ []
