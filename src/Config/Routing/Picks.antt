-- ===== src/Config/Routing/Picks.antt =====
-- config/routing.py: every model that a call can go to, with and without a pick, is served.
use mathlib.Core.Path.{subst}
use nd_mind.Base.{
  ℕ, ◌≡◌, refl, inl, inr, Bool, true, false, Option, none, some, List, [], ◌∷◌, arith, All,
  All-append, Bool-cases, ◌==◌, ◌||◌, if◌then◌else◌,
}
use nd_mind.Base.Dict.{Dict, lookup}
use nd_mind.Config.Routing.{
  StepKind, Mode, ModelRef, fake_provider, same_ref, ResolvedProvider, has_creds, resolve_providers,
  MissingKey, ResolvedRoute, Overrides, ok, >>=-returned, ok_inj, resolve_steps, all_steps,
}
use nd_mind.Config.Routing.Picker.{
  PickerConfig, ModelChoice, choice_of, picker_choice, picker_choices, resolve_picker, RoutingFile,
  Routing, resolve_routing, find_choice, picked_route, picked_routes, with_pick, refs,
  refs_of_route, pick, refs_of_routes, refs_of_choices, check_missing, is_simulated, is_ref,
  on_pick,
}
use nd_mind.Config.Routing.Served.{IsServed, OptServed, RouteServed, resolve_steps-Served}

module _ (mode : Mode) (providers : Dict ResolvedProvider) where
  abbrev Served : ModelRef → Type 0
  Served = IsServed mode providers

  abbrev ChoiceServed : ModelChoice → Type 0
  ChoiceServed c = c.available ≡ true → Served c.served_by

creds_of :
    (providers : Dict ResolvedProvider) (r : ModelRef) (p : ResolvedProvider)
    → lookup r.provider providers ≡ some p
    → p.has_credentials ≡ true
    → has_creds providers r ≡ true
creds_of providers r p e a = rw (e, has_creds) a

-- What serves a pick that can be used.
choice_of-Served :
    (providers : Dict ResolvedProvider) (picker : PickerConfig) (mode : Mode) (r : ModelRef)
    (label : ℕ) (p : ResolvedProvider)
    → lookup r.provider providers ≡ some p
    → ChoiceServed mode providers (choice_of picker mode r label p)
choice_of-Served providers picker Mode.fake r label p e a = refl
choice_of-Served providers picker Mode.live r label p e a = creds_of providers r p e a
choice_of-Served providers picker Mode.auto r label p e a = elim (Bool-cases p.has_credentials) [
  | inl yes_ ↦ rw yes_ (inr (creds_of providers r p e yes_))
  | inr no_ ↦ rw no_ (inl refl)
]

module _ (mode : Mode) (providers : Dict ResolvedProvider) where
  picker_choice-Served :
      (picker : PickerConfig) (r : ModelRef) (label : ℕ) (o : Option ResolvedProvider)
      (c : ModelChoice)
      → lookup r.provider providers ≡ o
      → picker_choice picker mode r label o ≡ ok c
      → ChoiceServed mode providers c
  picker_choice-Served picker r label none c e h = cc
  picker_choice-Served picker r label (some p) c e h =
      elim (Bool-cases (r.provider == fake_provider)) [
        | inl yes_ ↦ let bad = rw yes_ at h in cc
        | inr no_ ↦
            subst (ChoiceServed mode providers) (ok_inj (rw no_ at h))
              (choice_of-Served providers picker mode r label p e)
      ]

  picker_choices-Served :
      (picker : PickerConfig) (models : List (ModelRef × ℕ)) (cs : List ModelChoice)
      → picker_choices picker providers mode models ≡ ok cs
      → All (ChoiceServed mode providers) cs
  unfolding picker_choices
  picker_choices-Served picker [] cs h = subst (All (ChoiceServed mode providers)) (ok_inj h) tt
  picker_choices-Served picker ((r, label) ∷ rest) cs h =
      let (c, e, h') =
        >>=-returned (picker_choice picker mode r label (lookup r.provider providers)) _ h in
      let (others, e', h'') = >>=-returned (picker_choices picker providers mode rest) _ h' in
      let first = picker_choice-Served picker r label (lookup r.provider providers) c refl e in
      subst (All (ChoiceServed mode providers)) (ok_inj h'')
        (first, picker_choices-Served picker rest others e')

  resolve_picker-Served :
      (picker : Option PickerConfig) (cs : List ModelChoice)
      → resolve_picker picker providers mode ≡ ok cs
      → All (ChoiceServed mode providers) cs
  unfolding resolve_picker
  resolve_picker-Served none cs h = subst (All (ChoiceServed mode providers)) (ok_inj h) tt
  resolve_picker-Served (some picker) cs h = picker_choices-Served picker picker.models cs h

  find_choice-Served :
      (r : ModelRef) (cs : List ModelChoice) (c : ModelChoice)
      → All (ChoiceServed mode providers) cs
      → find_choice r cs ≡ some c
      → ChoiceServed mode providers c
  unfolding find_choice
  find_choice-Served r [] c h e = cc
  find_choice-Served r (d ∷ cs) c h e = elim (Bool-cases (same_ref d.model r)) [
    | inl yes_ ↦
        let q : d ≡ c = ground (arith, rw yes_ at e) in subst (ChoiceServed mode providers) q h.0
    | inr no_ ↦ find_choice-Served r cs c h.1 (rw no_ at e)
  ]

  fallback_kept :
      (b : Bool) (f : Option ModelRef)
      → OptServed mode providers f
      → OptServed mode providers (if b then none else f)
  fallback_kept true f h = tt
  fallback_kept false f h = h

  picked_route-Served :
      (c : ModelChoice) (route : ResolvedRoute)
      → Served mode providers c.served_by
      → RouteServed providers mode route
      → RouteServed providers mode (picked_route c route)
  unfolding picked_route
  picked_route-Served c route s h = by_kind route.kind
    where
      by_kind : (k : StepKind) → RouteServed providers mode (on_pick c k route)
      by_kind StepKind.embedding = h
      by_kind StepKind.chat = (
        s,
        fallback_kept (is_simulated c || is_ref route.fallback c.served_by) route.fallback h.1,
      )

  picked_routes-Served :
      (c : ModelChoice) (routes : List ResolvedRoute)
      → Served mode providers c.served_by
      → All (RouteServed providers mode) routes
      → All (RouteServed providers mode) (picked_routes c routes)
  picked_routes-Served c [] s h = tt
  picked_routes-Served c (route ∷ routes) s h =
      (picked_route-Served c route s h.0, picked_routes-Served c routes s h.1)

  route_refs :
      (p : ModelRef) (f : Option ModelRef)
      → Served mode providers p
      → OptServed mode providers f
      → All (Served mode providers) (elim f [ none ↦ p ∷ [] | some q ↦ p ∷ q ∷ [] ])
  route_refs p none s h = (s, tt)
  route_refs p (some q) s h = (s, (h, tt))

  routes_refs :
      (routes : List ResolvedRoute)
      → All (RouteServed providers mode) routes
      → All (Served mode providers) (refs_of_routes routes)
  routes_refs [] h = tt
  routes_refs (route ∷ routes) h =
      All-append (Served mode providers) (refs_of_route route) (refs_of_routes routes)
        (route_refs route.primary route.fallback h.0.0 h.0.1) (routes_refs routes h.1)

  choices_refs :
      (cs : List ModelChoice)
      → All (ChoiceServed mode providers) cs
      → All (Served mode providers) (refs_of_choices cs)
  choices_refs [] h = tt
  choices_refs (c ∷ cs) h = elim (Bool-cases c.available) [
    | inl yes_ ↦ rw yes_ (h.0 yes_, choices_refs cs h.1)
    | inr no_ ↦ rw no_ (choices_refs cs h.1)
  ]

-- What a routing needs for every call to be served.
record AllServed (mode : Mode) (providers : Dict ResolvedProvider) (routing : Routing)
    : Type 0 where
  routes : All (RouteServed providers mode) routing.routes
  choices : All (ChoiceServed mode providers) routing.choices

AllServed-refs :
    (mode : Mode) (providers : Dict ResolvedProvider) (routing : Routing)
    → AllServed mode providers routing
    → All (IsServed mode providers) (refs routing)
unfolding refs
AllServed-refs mode providers routing h =
    All-append (IsServed mode providers) (refs_of_routes routing.routes)
      (refs_of_choices routing.choices) (routes_refs mode providers routing.routes h.routes)
      (choices_refs mode providers routing.choices h.choices)

check_missing-nil : (ms : List MissingKey) → check_missing ms ≡ ok tt → ms ≡ []
check_missing-nil [] h = refl
check_missing-nil (m ∷ ms) h = cc

module _ (file : RoutingFile) (env : ℕ → Option ℕ) (overrides : Overrides) (mode : Mode)
    (routing : Routing) (resolved : resolve_routing file env overrides mode ≡ ok routing) where
  abbrev providers : Dict ResolvedProvider
  providers = resolve_providers env file.providers

  resolve_routing-AllServed : AllServed mode providers routing
  unfolding resolve_routing
  resolve_routing-AllServed =
      let (routes, e, h) =
        >>=-returned (resolve_steps providers overrides mode file.steps all_steps) _ resolved in
      let (u, e', h') = >>=-returned (check_missing routes.1) _ h in
      let (choices, e'', h'') = >>=-returned (resolve_picker file.picker providers mode) _ h' in
      subst (AllServed mode providers) (ok_inj h'') (record {
        routes =
            resolve_steps-Served providers overrides mode file.steps all_steps routes e
              (check_missing-nil routes.1 e');
        choices = resolve_picker-Served mode providers file.picker choices e'';
      })

  -- Every model that a call of a resolved routing can go to is served: the fake provider's in fake mode, one
  -- with credentials in live mode, and one of the two in auto mode.
  pub resolve_routing-Served :
      All (IsServed mode (resolve_providers env file.providers)) (refs routing)
  resolve_routing-Served = AllServed-refs mode providers routing resolve_routing-AllServed

  pick-AllServed :
      (r : ModelRef) (o : Option ModelChoice) (picked : Routing)
      → find_choice r routing.choices ≡ o
      → pick routing r o ≡ ok picked
      → AllServed mode providers picked
  unfolding picked_route
  pick-AllServed r none picked e h = cc
  pick-AllServed r (some c) picked e h = elim (Bool-cases c.available) [
    | inl yes_ ↦
        let all = resolve_routing-AllServed in
        let served = find_choice-Served mode providers r routing.choices c all.choices e yes_ in
        subst (AllServed mode providers) (ok_inj (rw yes_ at h)) (record {
          routes = picked_routes-Served mode providers c routing.routes served all.routes;
          choices = all.choices;
        })
    | inr no_ ↦ let bad = rw no_ at h in cc
  ]

  -- Every model that a call of a resolved routing with a pick can go to is served in the routing's mode,
  -- where the pick is not refused.
  pub with_pick-Served :
      (r : ModelRef) (picked : Routing)
      → with_pick routing r ≡ ok picked
      → All (IsServed mode (resolve_providers env file.providers)) (refs picked)
  unfolding with_pick
  with_pick-Served r picked h =
      AllServed-refs mode providers picked
        (pick-AllServed r (find_choice r routing.choices) picked refl h)
