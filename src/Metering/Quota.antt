-- ===== src/Metering/Quota.antt =====
-- metering/quota.py: what is left of a person's allowance. Money is a number of the quantum of
-- core/money.py, 0.00000001 dollars, so `usd` changes nothing.
use nd_mind.Base.{ℕ, ◌-◌}

pub data Tier : Type 0 where
  guest standard premium : Tier

pub record QuotaLimits : Type 0 where
  pub guest : ℕ
  pub standard : ℕ
  pub premium : ℕ

abbrev pub for_tier : QuotaLimits → Tier → ℕ
for_tier limits Tier.guest = limits.guest
for_tier limits Tier.standard = limits.standard
for_tier limits Tier.premium = limits.premium

pub record QuotaUsage : Type 0 where
  pub tier : Tier
  pub limit_usd : ℕ
  pub used_usd : ℕ
  pub remaining_usd : ℕ
  pub used_tokens : ℕ

pub record Spent : Type 0 where
  pub usd : ℕ
  pub tokens : ℕ

-- `usage` with the answer of the ledger; the subtraction stops at 0, as `max(0, limit - used)`.
abbrev pub usage : QuotaLimits → Tier → Spent → QuotaUsage
usage limits tier spent = record {
  tier = tier;
  limit_usd = for_tier limits tier;
  used_usd = spent.usd;
  remaining_usd = for_tier limits tier - spent.usd;
  used_tokens = spent.tokens;
}
