-- ===== src/Metering/Guarantees.antt =====
-- What the gate of metering/gate.py lets pass, and that it does not where the store is down.
use nd_mind.Base.{ℕ, ◌<◌, suc, Bool, true, false, Option, none, some, ◌≡◌, refl, arith, ◌∙◌, ltb}
use nd_mind.Metering.Quota.{QuotaUsage, QuotaLimits, Tier, Spent, usage, for_tier}
use nd_mind.Metering.Store.{day_start}
use nd_mind.Metering.Store.Calls.{Call, Clocks, Gate, totals_of, continue}
use nd_mind.Metering.Limits.{Block, SpendLimits, quota_block, guest_judge}
use nd_mind.Metering.AppBlock.{IsOpen, app_block-IsOpen, app_block-closed}
use nd_mind.Metering.Checks.{app_block-Keeps}
use nd_mind.Metering.Gate.{app_block, guest_block, turn_block, or_else, shared_block}

-- The call returned a block.
abbrev pub blocks : Option (Option Block) → Bool
blocks (some (some b)) = true
blocks _ = false

-- What was spent could be read, and is less than the limit.
abbrev pub below : Option ℕ → ℕ → Bool
below none limit = false
below (some spent) limit = ltb spent limit

module _ (clocks : Clocks) (limits : SpendLimits) where
  -- Where the store is down no turn starts: the check returns a block, and does not raise.
  pub turn_block-closed :
      (quota : Option QuotaUsage) (guest : Bool) (g : Gate)
      → g.store.fail ≡ true
      → blocks (turn_block clocks limits quota guest g).0 ≡ true
  unfolding turn_block
  turn_block-closed quota guest g down =
      let h = app_block-closed clocks limits g down in rw h.1 refl

  passed_on :
      (o : Option (Option Block)) (next : Call (Option Block)) (h : Gate)
      → (continue o (λ b. or_else clocks limits b next) h).0 ≡ some none
      → (o ≡ some none) × ((next h).0 ≡ some none)
  passed_on none next h e = cc
  passed_on (some none) next h e = (refl, e)
  passed_on (some (some b)) next h e = cc

  guest_judge-below : (limit : ℕ) (o : Option ℕ) → guest_judge limit o ≡ none → below o limit ≡ true
  guest_judge-below limit none e = cc
  guest_judge-below limit (some spent) e = ground arith

  guest_block-judges :
      (limit : ℕ) (f : ℕ → Option ℕ) (g : Gate)
      → limits.guest_daily_usd ≡ some limit
      → g.guest_spend ≡ some f
      → (guest_block clocks limits g).0
        ≡ some (guest_judge limit (f (day_start (clocks.wall g.readings))))
  unfolding guest_block
  guest_block-judges limit f g l s = rw (l, s) refl

  guest_block-below :
      (limit : ℕ) (f : ℕ → Option ℕ) (g : Gate)
      → limits.guest_daily_usd ≡ some limit
      → g.guest_spend ≡ some f
      → (guest_block clocks limits g).0 ≡ some none
      → below (f (day_start (clocks.wall g.readings))) limit ≡ true
  guest_block-below limit f g l s e =
      let v = guest_block-judges limit f g l s in
      guest_judge-below limit (f (day_start (clocks.wall g.readings))) cc

  turn_block-passes :
      (quota : Option QuotaUsage) (guest : Bool) (g : Gate)
      → (turn_block clocks limits quota guest g).0 ≡ some none
      → ((app_block clocks limits g).0 ≡ some none)
        × ((shared_block clocks limits guest (app_block clocks limits g).1).0 ≡ some none)
        × (quota_block quota ≡ none)
  unfolding turn_block
  turn_block-passes quota guest g e =
      let p = passed_on (app_block clocks limits g).0 _ (app_block clocks limits g).1 e in
      let q =
        passed_on (shared_block clocks limits guest (app_block clocks limits g).1).0 _ _ p.1 in
      (p.0, q.0, ground arith)

  -- A turn starts only where the store is up, the kill switch is off as the gate knows it, the
  -- day's and the month's counters are below their caps, and, where providers are configured, one
  -- of them is neither marked nor counted out of credit, at one of the check's readings of the clock.
  pub turn_block-IsOpen :
      (quota : Option QuotaUsage) (guest : Bool) (g : Gate)
      → (turn_block clocks limits quota guest g).0 ≡ some none
      → IsOpen clocks limits g (totals_of (clocks.wall (suc g.readings)) g.store)
  turn_block-IsOpen quota guest g e =
      app_block-IsOpen clocks limits g (turn_block-passes quota guest g e).0

  -- A turn starts only for a person whose use is below the limit of the tier.
  pub turn_block-quota :
      (quota : QuotaLimits) (tier : Tier) (spent : Spent) (guest : Bool) (g : Gate)
      → (turn_block clocks limits (some (usage quota tier spent)) guest g).0 ≡ some none
      → spent.usd < for_tier quota tier
  turn_block-quota quota tier spent guest g e =
      let q = (turn_block-passes (some (usage quota tier spent)) guest g e).2 in ground arith

  -- Where guests have a limit and their spend has a source, a guest's turn starts only where all guests together have spent less than their share of the
  -- day, as the ledger says.
  pub turn_block-guests :
      (quota : Option QuotaUsage) (limit : ℕ) (f : ℕ → Option ℕ) (g : Gate)
      → limits.guest_daily_usd ≡ some limit
      → g.guest_spend ≡ some f
      → (turn_block clocks limits quota true g).0 ≡ some none
      → below (f (day_start (clocks.wall (app_block clocks limits g).1.readings))) limit ≡ true
  turn_block-guests quota limit f g l s e =
      let p = turn_block-passes quota true g e in
      let k = app_block-Keeps clocks limits g in
      guest_block-below limit f (app_block clocks limits g).1 l (k.1 ∙ s) p.1
