-- ===== src/Metering/Limits.antt =====
-- The limits, blocks and judgements of metering/gate.py.
use nd_mind.Base.{
  ℕ, String, ◌+◌, ◌*◌, Bool, false, ◌&&◌, Option, none, some, List, [], ◌∷◌, map, ltb, leb, ◌==◌,
  if◌then◌else◌, get_or, length,
}
use nd_mind.Base.Dict.{Dict, lookup, values}
use nd_mind.Metering.Quota.{QuotaUsage}
use nd_mind.Metering.Store.{SpendTotals}
use nd_mind.Metering.Store.Calls.{Cap}

-- FLAG_TTL_S and CREDIT_OUT_S, in microseconds.
abbrev pub flag_ttl : ℕ
flag_ttl = 2000000

abbrev pub credit_out_time : ℕ
credit_out_time = 3600000000

pub data BlockReason : Type 0 where
  kill_switch daily_cap monthly_cap provider_credit quota unavailable guest_cap : BlockReason

abbrev pub message : BlockReason → String
message BlockReason.kill_switch = "New answers are paused for everyone right now."
message BlockReason.daily_cap = "Today's spending limit for the whole app is used up."
message BlockReason.monthly_cap = "This month's spending limit for the whole app is used up."
message BlockReason.provider_credit = "The model providers' credit for this app is used up."
message BlockReason.quota = "You've used your whole allowance."
message BlockReason.unavailable = "Spending can't be checked right now, so new answers are paused."
message BlockReason.guest_cap = "The sample has been used up for today. It opens again tomorrow."

pub record Block : Type 0 where
  pub reason : BlockReason
  pub limit : Option ℕ
  pub value : Option ℕ

-- The ratio of a warning is in millionths.
pub record SpendLimits : Type 0 where
  pub daily_usd : ℕ
  pub monthly_usd : ℕ
  pub warn_ratio : ℕ
  pub credits_usd : Dict ℕ
  pub credit_since : Option ℕ
  pub kill_switch : Bool
  pub providers : List ℕ
  pub guest_daily_usd : Option ℕ

abbrev pub plain : BlockReason → Block
plain reason = record { reason = reason; limit = none; value = none }

abbrev pub capped : BlockReason → ℕ → ℕ → Block
capped reason limit value = record { reason = reason; limit = some limit; value = some value }

abbrev keys : Dict ℕ → List ℕ
keys [] = []
keys ((k, _) ∷ d) = k ∷ keys d

abbrev pub sum : List ℕ → ℕ
sum [] = 0
sum (n ∷ ns) = n + sum ns

-- `limits.providers or tuple(limits.credits_usd)`
abbrev pub providers_of : SpendLimits → List ℕ
providers_of limits = elim limits.providers [ [] ↦ keys limits.credits_usd | p ∷ ps ↦ p ∷ ps ]

abbrev reached : Option ℕ → ℕ → Bool
reached none spent = false
reached (some limit) spent = leb limit spent

-- The provider's credit by the app's own count.
abbrev pub count_used_up : SpendLimits → ℕ → SpendTotals → Bool
count_used_up limits p t = reached (lookup p limits.credits_usd) (get_or (lookup p t.providers) 0)

abbrev credit_limit : Dict ℕ → Option ℕ
credit_limit [] = none
credit_limit (c ∷ credits) = some (sum (values (c ∷ credits)))

abbrev credit_block : SpendLimits → SpendTotals → List ℕ → Block
credit_block limits t out = record {
  reason = BlockReason.provider_credit;
  limit = credit_limit limits.credits_usd;
  value = some (sum (map (λ p. get_or (lookup p t.providers) 0) out));
}

-- The checks of `app_block` after its `try`, on the totals and the providers out of credit.
unfoldable pub cap_block : SpendLimits → SpendTotals → List ℕ → Option Block
cap_block limits t out =
    if leb limits.daily_usd t.day
    then some (capped BlockReason.daily_cap limits.daily_usd t.day)
    else (if leb limits.monthly_usd t.month
        then some (capped BlockReason.monthly_cap limits.monthly_usd t.month)
        else (if ltb 0 (length (providers_of limits)) && length out == length (providers_of limits)
            then some (credit_block limits t out)
            else none))

-- What `app_block` makes of what its `try` gave: nothing where it raised, and no totals where the
-- kill switch is on.
abbrev pub judge_app : SpendLimits → Option (Option (SpendTotals × List ℕ)) → Option Block
judge_app limits none = some (plain BlockReason.unavailable)
judge_app limits (some none) = some (plain BlockReason.kill_switch)
judge_app limits (some (some (t, out))) = cap_block limits t out

abbrev pub guest_judge : ℕ → Option ℕ → Option Block
guest_judge limit none = some (plain BlockReason.unavailable)
guest_judge limit (some spent) =
    if leb limit spent then some (capped BlockReason.guest_cap limit spent) else none

abbrev quota_left : QuotaUsage → Option Block
quota_left q =
    if q.remaining_usd == 0 then some (capped BlockReason.quota q.limit_usd q.used_usd) else none

abbrev pub quota_block : Option QuotaUsage → Option Block
quota_block none = none
quota_block (some q) = quota_left q

-- A key of the store's `once` is a number: the period's, doubled, and the cap's.
abbrev pub warn_key : Cap → ℕ → ℕ
warn_key Cap.daily period = 2 * period
warn_key Cap.monthly period = 2 * period + 1

abbrev pub warn_due : SpendLimits → ℕ → ℕ → Bool
warn_due limits value limit = ltb 0 limit && leb (limit * limits.warn_ratio) (value * 1000000)
