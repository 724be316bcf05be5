-- ===== src/Config/Routing/Served.antt =====
-- config/routing.py: no call goes to a provider without credentials.
use mathlib.Core.Path.{subst}
use nd_mind.Base.{
  ap, ◌∙◌, ◌≡◌, refl, ◌⊎◌, inl, inr, true, Option, none, some, List, [], ◌∷◌, ◌++◌, All, Bool-cases,
}
use nd_mind.Base.Dict.{Dict}
use nd_mind.Config.Routing.{
  Step, Mode, ModelRef, fake_provider, ResolvedProvider, has_creds, ref, fake_model, step_kind,
  missing_key, replacement, kept_fallback, Role, MissingKey, Settled, apply_mode, StepConfig,
  Overrides, ResolvedRoute, ok, ref_or, fallback_or, resolve_step, resolve_steps, check_ref,
  route_of, >>=-returned, ok_inj,
}

-- A provider that a call may be sent to: in fake mode the fake one, in live mode one with
-- credentials, in auto mode either.
abbrev pub IsServed : Mode → Dict ResolvedProvider → ModelRef → Type 0
IsServed Mode.fake providers r = r.provider ≡ fake_provider
IsServed Mode.live providers r = has_creds providers r ≡ true
IsServed Mode.auto providers r = (r.provider ≡ fake_provider) ⊎ (has_creds providers r ≡ true)

abbrev pub OptServed : Mode → Dict ResolvedProvider → Option ModelRef → Type 0
OptServed mode providers none = Unit
OptServed mode providers (some r) = IsServed mode providers r

append-eq-nil {ℓ} : {A : Type ℓ} (xs ys : List A) → xs ++ ys ≡ [] → (xs ≡ []) × (ys ≡ [])
append-eq-nil [] ys h = (refl, h)
append-eq-nil (x ∷ xs) ys h = cc

module _ (providers : Dict ResolvedProvider) where
  abbrev SettledServed : Mode → Settled → Type 0
  SettledServed mode s =
      s.missing ≡ [] → IsServed mode providers s.primary × OptServed mode providers s.fallback

  -- A model whose key is not missing has credentials.
  not_missing :
      (step : Step) (role : Role) (r : ModelRef) (rest : List MissingKey)
      → missing_key providers step role (some r) ++ rest ≡ []
      → (has_creds providers r ≡ true) × (rest ≡ [])
  not_missing step role r rest h = elim (Bool-cases (has_creds providers r)) [
    | inl yes_ ↦ (yes_, rw yes_ at h)
    | inr no_ ↦ let absurd_ = rw no_ at h in cc
  ]

  live_fallback :
      (step : Step) (f : Option ModelRef)
      → missing_key providers step Role.fallback f ≡ []
      → OptServed Mode.live providers f
  live_fallback step none h = tt
  live_fallback step (some r) h = elim (Bool-cases (has_creds providers r)) [
    | inl yes_ ↦ yes_
    | inr no_ ↦ let absurd_ = rw no_ at h in cc
  ]

  kept_fallback-Served :
      (p : ModelRef) (f : Option ModelRef)
      → has_creds providers p ≡ true
      → IsServed Mode.auto providers (kept_fallback providers p f).primary
        × OptServed Mode.auto providers (kept_fallback providers p f).fallback
  kept_fallback-Served p none h = (inr h, tt)
  kept_fallback-Served p (some f) h = elim (Bool-cases (has_creds providers f)) [
    | inl yes_ ↦ rw yes_ (inr h, inr yes_)
    | inr no_ ↦ rw no_ (inr h, tt)
  ]

  replacement-Served :
      (fake_ref : ModelRef) (f : Option ModelRef)
      → fake_ref.provider ≡ fake_provider
      → IsServed Mode.auto providers (replacement providers fake_ref f)
  replacement-Served fake_ref none h = inl h
  replacement-Served fake_ref (some f) h = elim (Bool-cases (has_creds providers f)) [
    | inl yes_ ↦ rw yes_ (inr yes_)
    | inr no_ ↦ rw no_ (inl h)
  ]

  apply_mode-Served :
      (step : Step) (p : ModelRef) (f : Option ModelRef) (mode : Mode)
      → SettledServed mode (apply_mode step p f providers mode)
  unfolding apply_mode
  apply_mode-Served step p f Mode.fake m = (refl, tt)
  apply_mode-Served step p f Mode.live m =
      let found = not_missing step Role.primary p (missing_key providers step Role.fallback f) m in
      (found.0, live_fallback step f found.1)
  apply_mode-Served step p f Mode.auto m = elim (Bool-cases (has_creds providers p)) [
    | inl yes_ ↦ rw yes_ (kept_fallback-Served p f yes_)
    | inr no_ ↦
        rw no_ (replacement-Served (ref fake_provider (fake_model (step_kind step))) f refl, tt)
  ]

  -- A route whose models are served.
  abbrev pub RouteServed : Mode → ResolvedRoute → Type 0
  RouteServed mode route =
      IsServed mode providers route.primary × OptServed mode providers route.fallback

  -- A round that returns, with what it returns: either an error or the settled route.
  resolve_step-Served :
      (overrides : Overrides) (mode : Mode) (step : Step) (cfg : StepConfig)
      (r : ResolvedRoute × List MissingKey)
      → resolve_step providers overrides mode step cfg ≡ ok r
      → r.1 ≡ []
      → RouteServed mode r.0
  unfolding resolve_step
  resolve_step-Served overrides mode step cfg r h m =
      let p = ref_or (overrides.primary step) cfg.model in
      let f = fallback_or (overrides.fallback step) cfg.fallback in
      let (_, _, h') = >>=-returned (check_ref providers (some p)) _ h in
      let (_, _, h'') = >>=-returned (check_ref providers f) _ h' in
      let s = apply_mode step p f providers mode in
      let q : (route_of step cfg p s, s.missing) ≡ r = ok_inj h'' in
      subst (λ v. v.1 ≡ [] → RouteServed mode v.0) q (apply_mode-Served step p f mode) m

  pub resolve_steps-Served :
      (overrides : Overrides) (mode : Mode) (file : Step → StepConfig) (steps : List Step)
      (r : List ResolvedRoute × List MissingKey)
      → resolve_steps providers overrides mode file steps ≡ ok r
      → r.1 ≡ []
      → All (RouteServed mode) r.0
  unfolding resolve_steps
  resolve_steps-Served overrides mode file [] r h m =
      subst (λ (v : List ResolvedRoute × List MissingKey). All (RouteServed mode) v.0) (ok_inj h) tt
  resolve_steps-Served overrides mode file (step ∷ steps) r h m =
      let (one, e, h') =
        >>=-returned (resolve_step providers overrides mode step (file step)) _ h in
      let (rest, e', h'') = >>=-returned (resolve_steps providers overrides mode file steps) _ h' in
      let q : (one.0 ∷ rest.0, one.1 ++ rest.1) ≡ r = ok_inj h'' in
      let none_ = append-eq-nil one.1 rest.1 (ap (λ v. v.1) q ∙ m) in
      let first = resolve_step-Served overrides mode step (file step) one e none_.0 in
      let others = resolve_steps-Served overrides mode file steps rest e' none_.1 in
      subst (λ (v : List ResolvedRoute × List MissingKey). All (RouteServed mode) v.0) q
        (first, others)
