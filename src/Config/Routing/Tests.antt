-- ===== src/Config/Routing/Tests.antt =====
-- Two providers, one of them without its key.
use nd_mind.Base.{ℕ, Option, none, some, [], ◌∷◌, ◌==◌, ◌≡◌, refl, All, if◌then◌else◌}
use nd_mind.Base.Dict.{lookup}
use nd_mind.Config.Routing.{
  Mode, ModelRef, ref, ProviderKind, ProviderConfig, resolve_provider, resolve_providers,
  apply_mode, Overrides, ConfigError, Result, ok, raise, resolve_step, resolve_steps,
}
use nd_mind.Config.Routing.Picker.{
  picker_choices, resolve_picker, RoutingFile, Routing, resolve_routing, find_choice, picked_route,
  with_pick, refs,
}
use nd_mind.Config.Routing.Served.{IsServed}
use nd_mind.Config.Routing.Picks.{resolve_routing-Served, with_pick-Served}

abbrev of_kind : ProviderKind → ℕ → ProviderConfig
of_kind kind key = record {
  kind = kind;
  api_key_env = some key;
  base_url = none;
  base_url_env = none;
}

abbrev no_key : ProviderConfig
no_key = record {
  kind = ProviderKind.fake;
  api_key_env = none;
  base_url = none;
  base_url_env = none;
}

abbrev small : ModelRef
small = ref 1 11

abbrev large : ModelRef
large = ref 2 22

abbrev file : RoutingFile
file = record {
  providers =
      (0, no_key)
      ∷ (1, of_kind ProviderKind.anthropic 101)
      ∷ (2, of_kind ProviderKind.openai 102)
      ∷ [];
  steps = λ s. record {
    model = large;
    fallback = some small;
    timeout_ms = 30000;
    max_output_tokens = 800;
  };
  picker = some (record { models = (small, 1) ∷ (large, 2) ∷ []; tiers = λ t. small ∷ [] });
}

-- Only the first provider's key is set.
abbrev env : ℕ → Option ℕ
env name = if name == 101 then some 1 else none

abbrev overrides : Overrides
overrides = record { primary = λ s. none; fallback = λ s. none }

runs : Unit {0}
unfolding resolve_provider resolve_providers apply_mode resolve_step resolve_steps picker_choices
    resolve_picker resolve_routing find_choice picked_route with_pick refs lookup
runs = tt

abbrev or_empty : Result Routing → Routing
or_empty (ok r) = r
or_empty (raise e) = record { mode = Mode.auto; providers = []; routes = []; choices = [] }

abbrev routing : Routing
routing = or_empty (resolve_routing file env overrides Mode.auto)

resolved : resolve_routing file env overrides Mode.auto ≡ ok routing
unfolding runs
resolved = refl

-- The large model's provider has no key, so the small one stands in; a pick of the large one is simulated.
stands_in :
    (refs routing
      ≡ small
        ∷ small
        ∷ small
        ∷ small
        ∷ small
        ∷ small
        ∷ small
        ∷ small
        ∷ small
        ∷ small
        ∷ small
        ∷ small
        ∷ small
        ∷ ref 0 22
        ∷ [])
unfolding runs
stands_in = refl

resolve_routing-Served_example :
    All (IsServed Mode.auto (resolve_providers env file.providers)) (refs routing)
resolve_routing-Served_example =
    resolve_routing-Served file env overrides Mode.auto routing resolved

abbrev picked : Routing
picked = or_empty (with_pick routing large)

with_pick-Served_example :
    All (IsServed Mode.auto (resolve_providers env file.providers)) (refs picked)
unfolding runs
with_pick-Served_example =
    with_pick-Served file env overrides Mode.auto routing resolved large picked refl

refused : with_pick routing (ref 3 1) ≡ raise (ConfigError.not_a_choice (ref 3 1))
unfolding runs
refused = refl
