-- ===== src/Metering/Checks.antt =====
-- The checks of metering/gate.py change nothing but the flag and the readings of the clocks.
use nd_mind.Base.{ℕ, Bool, true, false, Option, none, some, List, [], ◌∷◌, ◌≡◌, refl, ◌∙◌, arith}
use nd_mind.Metering.Quota.{QuotaUsage}
use nd_mind.Metering.Store.{SpendTotals}
use nd_mind.Metering.Store.Calls.{Call, Clocks, Gate, ◌>>=◌, continue, pure, totals, wall}
use nd_mind.Metering.Limits.{Block, SpendLimits, providers_of, quota_block}
use nd_mind.Metering.Gate.{
  app_block, credit_used_up, guest_block, kill_switch_on, measure, measure_at, measure_credit,
  or_else, shared_block, turn_block, used_up,
}

-- The store, the source of the guests' spend and the warnings are the same.
abbrev pub Same : Gate → Gate → Type 0
Same g h = (h.store ≡ g.store) × (h.guest_spend ≡ g.guest_spend) × (h.warned ≡ g.warned)

abbrev pub Keeps {ℓ} : {A : Type ℓ} → Call A → Type 0
Keeps m = (g : Gate) → Same g (m g).1

Same-trans : (g h k : Gate) → Same g h → Same h k → Same g k
Same-trans g h k p q = (q.0 ∙ p.0, q.1 ∙ p.1, q.2 ∙ p.2)

module _ {ℓ κ} {A : Type ℓ} {B : Type κ} where
  Keeps-continue :
      (o : Option A) (f : A → Call B) (g h : Gate)
      → Same g h
      → ((a : A) → Keeps (f a))
      → Same g (continue o f h).1
  Keeps-continue none f g h s k = s
  Keeps-continue (some a) f g h s k = Same-trans g h (f a h).1 s (k a h)

  pub Keeps-bind :
      (m : Call A) (f : A → Call B) → Keeps m → ((a : A) → Keeps (f a)) → Keeps (m >>= f)
  Keeps-bind m f p k g = Keeps-continue (m g).0 f g (m g).1 (p g) k

module _ (clocks : Clocks) (limits : SpendLimits) where
  kill_switch_on-Keeps : Keeps (kill_switch_on clocks limits)
  unfolding kill_switch_on
  kill_switch_on-Keeps g = ground arith

  totals-Keeps : (at : ℕ) → Keeps (totals at)
  unfolding totals
  totals-Keeps at g = ground arith

  credit_used_up-Keeps : (p : ℕ) (t : SpendTotals) → Keeps (credit_used_up clocks limits p t)
  credit_used_up-Keeps p t g = ground arith

  used_up-Keeps : (ps : List ℕ) (t : SpendTotals) → Keeps (used_up clocks limits ps t)
  unfolding used_up
  used_up-Keeps [] t = λ g. (refl, refl, refl)
  used_up-Keeps (p ∷ ps) t =
      Keeps-bind (credit_used_up clocks limits p t) _ (credit_used_up-Keeps p t) (λ out.
        Keeps-bind (used_up clocks limits ps t) _ (used_up-Keeps ps t)
          (λ rest g. (refl, refl, refl)))

  measure_credit-Keeps : (t : SpendTotals) → Keeps (measure_credit clocks limits t)
  measure_credit-Keeps t g =
      Keeps-continue (used_up clocks limits (providers_of limits) t g).0
        (λ out. pure (some (t, out))) g _ (used_up-Keeps (providers_of limits) t g)
        (λ out h. (refl, refl, refl))

  measure_at-Keeps : (at : ℕ) → Keeps (measure_at clocks limits at)
  measure_at-Keeps at =
      Keeps-bind (totals at) (measure_credit clocks limits) (totals-Keeps at) measure_credit-Keeps

  measure-Keeps : (on : Bool) → Keeps (measure clocks limits on)
  measure-Keeps true = λ g. (refl, refl, refl)
  measure-Keeps false =
      Keeps-bind (wall clocks) (measure_at clocks limits) (λ g. (refl, refl, refl)) measure_at-Keeps

  pub app_block-Keeps : Keeps (app_block clocks limits)
  unfolding app_block
  app_block-Keeps =
      Keeps-bind (kill_switch_on clocks limits) (measure clocks limits) kill_switch_on-Keeps
        measure-Keeps

  guest_block-Keeps : Keeps (guest_block clocks limits)
  unfolding guest_block
  guest_block-Keeps g = ground arith

  shared_block-Keeps : (guest : Bool) → Keeps (shared_block clocks limits guest)
  shared_block-Keeps true = guest_block-Keeps
  shared_block-Keeps false = λ g. (refl, refl, refl)

  or_else-Keeps :
      (o : Option Block) (m : Call (Option Block)) → Keeps m → Keeps (or_else clocks limits o m)
  or_else-Keeps none m k = k
  or_else-Keeps (some b) m k = λ g. (refl, refl, refl)

  pub turn_block-Keeps :
      (quota : Option QuotaUsage) (guest : Bool) → Keeps (turn_block clocks limits quota guest)
  unfolding turn_block
  turn_block-Keeps quota guest =
      Keeps-bind (app_block clocks limits)
        (λ app. or_else clocks limits app (
          shared_block clocks limits guest >>= λ shared.
          or_else clocks limits shared (pure (quota_block quota))))
        app_block-Keeps
        (λ app. or_else-Keeps app _ (
          Keeps-bind (shared_block clocks limits guest)
            (λ shared. or_else clocks limits shared (pure (quota_block quota)))
            (shared_block-Keeps guest)
            (λ shared. or_else-Keeps shared (pure (quota_block quota)) (λ g. (refl, refl, refl)))))
