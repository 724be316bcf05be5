-- ===== src/Config/Routing/Picker.antt =====
-- config/routing.py: the models that a person may pick, and a routing with a pick.
use nd_mind.Base.{
  ℕ, Bool, true, false, not, ◌||◌, Option, none, some, List, [], ◌∷◌, ◌++◌, ◌==◌, if◌then◌else◌,
  any, filter,
}
use nd_mind.Base.Dict.{Dict, lookup}
use nd_mind.Metering.Quota.{Tier}
use nd_mind.Config.Routing.{
  Step, StepKind, Mode, ModelRef, ref, fake_provider, same_ref, ResolvedProvider, ProviderConfig,
  resolve_providers, MissingKey, ResolvedRoute, StepConfig, Overrides, ConfigError, Result, ok,
  raise, ◌>>=◌, resolve_steps, all_steps,
}

-- A label is a number.
pub record PickerConfig : Type 0 where
  pub models : List (ModelRef × ℕ)
  pub tiers : Tier → List ModelRef

pub record ModelChoice : Type 0 where
  pub model : ModelRef
  pub label : ℕ
  pub served_by : ModelRef
  pub available : Bool
  pub tiers : List Tier

-- `ModelChoice.simulated`
abbrev pub is_simulated : ModelChoice → Bool
is_simulated c = not (same_ref c.served_by c.model)

-- What serves a pick, and whether it can be used.
abbrev serving : Mode → ModelRef → ResolvedProvider → ModelRef × Bool
serving Mode.fake r p = (ref fake_provider r.model, true)
serving Mode.live r p = (r, p.has_credentials)
serving Mode.auto r p = if p.has_credentials then (r, true) else (ref fake_provider r.model, true)

abbrev tiers_of : PickerConfig → ModelRef → List Tier
tiers_of picker r =
    filter (λ t. any (same_ref r) (picker.tiers t)) (Tier.guest ∷ Tier.standard ∷ Tier.premium ∷ [])

abbrev pub choice_of : PickerConfig → Mode → ModelRef → ℕ → ResolvedProvider → ModelChoice
choice_of picker mode r label p = record {
  model = r;
  label = label;
  served_by = (serving mode r p).0;
  available = (serving mode r p).1;
  tiers = tiers_of picker r;
}

abbrev pub picker_choice :
    PickerConfig → Mode → ModelRef → ℕ → Option ResolvedProvider → Result ModelChoice
picker_choice picker mode r label none = raise (ConfigError.unknown_provider r)
picker_choice picker mode r label (some p) =
    if r.provider == fake_provider
    then raise (ConfigError.picked_fake r)
    else ok (choice_of picker mode r label p)

unfoldable pub picker_choices :
    PickerConfig → Dict ResolvedProvider → Mode → List (ModelRef × ℕ) → Result (List ModelChoice)
picker_choices picker providers mode [] = ok []
picker_choices picker providers mode ((r, label) ∷ rest) =
    picker_choice picker mode r label (lookup r.provider providers) >>= λ c.
    picker_choices picker providers mode rest >>= λ cs. ok (c ∷ cs)

-- `_resolve_picker`
unfoldable pub resolve_picker :
    Option PickerConfig → Dict ResolvedProvider → Mode → Result (List ModelChoice)
resolve_picker none providers mode = ok []
resolve_picker (some picker) providers mode = picker_choices picker providers mode picker.models

pub record RoutingFile : Type 0 where
  pub providers : Dict ProviderConfig
  pub steps : Step → StepConfig
  pub picker : Option PickerConfig

pub record Routing : Type 0 where
  pub mode : Mode
  pub providers : Dict ResolvedProvider
  pub routes : List ResolvedRoute
  pub choices : List ModelChoice

abbrev pub check_missing : List MissingKey → Result (Unit {0})
check_missing [] = ok tt
check_missing (m ∷ ms) = raise (ConfigError.missing_credentials (m ∷ ms))

-- `resolve_routing`; the environment gives a name's value, and the overrides are read from it.
unfoldable pub resolve_routing : RoutingFile → (ℕ → Option ℕ) → Overrides → Mode → Result Routing
resolve_routing file env overrides mode =
    let providers = resolve_providers env file.providers in
    resolve_steps providers overrides mode file.steps all_steps >>= λ routes.
    check_missing routes.1 >>= λ _. resolve_picker file.picker providers mode >>= λ choices.
    ok (record { mode = mode; providers = providers; routes = routes.0; choices = choices })

-- `Routing.choice`
unfoldable pub find_choice : ModelRef → List ModelChoice → Option ModelChoice
find_choice r [] = none
find_choice r (c ∷ cs) =
    let later = find_choice r cs in if same_ref c.model r then some c else later

abbrev pub is_ref : Option ModelRef → ModelRef → Bool
is_ref none r = false
is_ref (some a) r = same_ref a r

abbrev pub on_pick : ModelChoice → StepKind → ResolvedRoute → ResolvedRoute
on_pick c StepKind.embedding route = route
on_pick c StepKind.chat route = record route {
  primary = c.served_by;
  fallback = if is_simulated c || is_ref route.fallback c.served_by then none else route.fallback;
  substituted = [];
}

-- A route under a pick.
unfoldable pub picked_route : ModelChoice → ResolvedRoute → ResolvedRoute
picked_route c route = on_pick c route.kind route

abbrev pub picked_routes : ModelChoice → List ResolvedRoute → List ResolvedRoute
picked_routes c [] = []
picked_routes c (route ∷ routes) = picked_route c route ∷ picked_routes c routes

abbrev pub pick : Routing → ModelRef → Option ModelChoice → Result Routing
pick routing r none = raise (ConfigError.not_a_choice r)
pick routing r (some c) =
    if c.available
    then ok (record routing { routes = picked_routes c routing.routes })
    else raise (ConfigError.no_credentials r)

-- `Routing.with_pick`
unfoldable pub with_pick : Routing → ModelRef → Result Routing
with_pick routing r = pick routing r (find_choice r routing.choices)

abbrev pub refs_of_route : ResolvedRoute → List ModelRef
refs_of_route route = elim route.fallback [
  | none ↦ route.primary ∷ []
  | some f ↦ route.primary ∷ f ∷ []
]

abbrev pub refs_of_routes : List ResolvedRoute → List ModelRef
refs_of_routes [] = []
refs_of_routes (route ∷ routes) = refs_of_route route ++ refs_of_routes routes

abbrev pub refs_of_choices : List ModelChoice → List ModelRef
refs_of_choices [] = []
refs_of_choices (c ∷ cs) =
    let rest = refs_of_choices cs in if c.available then c.served_by ∷ rest else rest

-- `Routing.refs`: every model that a call can go to, a set of them.
unfoldable pub refs : Routing → List ModelRef
refs routing = refs_of_routes routing.routes ++ refs_of_choices routing.choices
