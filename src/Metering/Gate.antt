-- ===== src/Metering/Gate.antt =====
-- metering/gate.py: what may spend money, before a turn starts and on every other model call.
use nd_mind.Base.{
  ℕ, ◌-◌, Bool, true, false, Option, none, some, List, [], ◌∷◌, ◌++◌, ltb, if◌then◌else◌, get_or,
}
use nd_mind.Base.Dict.{Dict, values}
use nd_mind.Metering.Quota.{QuotaUsage}
use nd_mind.Metering.Store.{SpendTotals, day_start, month_start, utc_day, utc_month}
use nd_mind.Metering.Store.Calls.{
  Call, Cap, CapWarning, Clocks, ◌>>=◌, ◌>>◌, add_cost, attempt, credit_out, incr_daily,
  mark_credit_out, monotonic, once, pure, reset, store_kill_switch, take_token, totals, wall,
}
use nd_mind.Metering.Limits.{
  Block, BlockReason, SpendLimits, count_used_up, credit_out_time, flag_ttl, guest_judge, judge_app,
  providers_of, quota_block, sum, warn_due, warn_key,
}

abbrev set_flag : ℕ → Bool → Call Bool
set_flag now on g = (some on, record g { flag = some (now, on) })

-- `self._flag`, where it is read less than `flag_ttl` ago.
abbrev pub fresh : Option (ℕ × Bool) → ℕ → Option Bool
fresh none now = none
fresh (some (at, on)) now = if ltb (now - at) flag_ttl then some on else none

abbrev cached_flag : ℕ → Call (Option Bool)
cached_flag now g = (some (fresh g.flag now), g)

abbrev read_flag : SpendLimits → ℕ → Option Bool → Call Bool
read_flag limits now (some on) = pure on
read_flag limits now none = do
  flag ← store_kill_switch
  set_flag now (get_or flag limits.kill_switch)

abbrev log_warning : CapWarning → Bool → Call (Unit {0})
log_warning w true g = (some tt, record g { warned = g.warned ++ w ∷ [] })
log_warning w false g = (some tt, g)

unfoldable pub attach_guest_spend : (ℕ → Option ℕ) → Call (Unit {0})
attach_guest_spend f g = (some tt, record g { guest_spend = some f })

-- The guests' total cost since a moment, from the ledger; it may raise.
abbrev spent_by_guests : (ℕ → Option ℕ) → ℕ → Call ℕ
spent_by_guests f since g = (f since, g)

abbrev spent_since : (ℕ → Option (Dict ℕ)) → ℕ → Call (Dict ℕ)
spent_since reader since g = (reader since, g)

abbrev pub ledger_totals : Dict ℕ → Dict ℕ → Dict ℕ → SpendTotals
ledger_totals day month providers = record {
  day = sum (values day);
  month = sum (values month);
  providers = providers;
}

module _ (clocks : Clocks) (limits : SpendLimits) where
  unfoldable pub kill_switch_on : Call Bool
  kill_switch_on = do now ← monotonic clocks; flag ← cached_flag now; read_flag limits now flag

  abbrev own_count : ℕ → SpendTotals → Bool → Call Bool
  own_count provider t true = pure true
  own_count provider t false = pure (count_used_up limits provider t)

  -- `_credit_used_up`
  abbrev pub credit_used_up : ℕ → SpendTotals → Call Bool
  credit_used_up provider t = do out ← credit_out clocks provider; own_count provider t out

  -- `[p for p in providers if await self._credit_used_up(p, totals)]`
  unfoldable pub used_up : List ℕ → SpendTotals → Call (List ℕ)
  used_up [] t = pure []
  used_up (p ∷ ps) t = do
    out ← credit_used_up p t
    rest ← used_up ps t
    pure (if out then p ∷ rest else rest)

  abbrev pub measure_credit : SpendTotals → Call (Option (SpendTotals × List ℕ))
  measure_credit t = used_up (providers_of limits) t >>= λ out. pure (some (t, out))

  abbrev pub measure_at : ℕ → Call (Option (SpendTotals × List ℕ))
  measure_at at = totals at >>= measure_credit

  -- The `try` of `app_block` after the kill switch.
  abbrev pub measure : Bool → Call (Option (SpendTotals × List ℕ))
  measure true = pure none
  measure false = wall clocks >>= measure_at

  unfoldable pub app_block : Call (Option Block)
  app_block = do read ← attempt (kill_switch_on >>= measure); pure (judge_app limits read)

  abbrev ask_guests : ℕ → (ℕ → Option ℕ) → Call (Option Block)
  ask_guests limit f = do
    spent ← attempt (wall clocks >>= λ at. spent_by_guests f (day_start at))
    pure (guest_judge limit spent)

  abbrev guest_check : Option ℕ → Option (ℕ → Option ℕ) → Call (Option Block)
  guest_check none f = pure none
  guest_check (some limit) none = pure none
  guest_check (some limit) (some f) = ask_guests limit f

  unfoldable pub guest_block : Call (Option Block)
  guest_block g = guest_check limits.guest_daily_usd g.guest_spend g

  -- The rest of `turn_block` after a check: the block it found, or the next check.
  abbrev pub or_else : Option Block → Call (Option Block) → Call (Option Block)
  or_else (some b) next = pure (some b)
  or_else none next = next

  abbrev pub shared_block : Bool → Call (Option Block)
  shared_block guest = if guest then guest_block else pure none

  unfoldable pub turn_block : Option QuotaUsage → Bool → Call (Option Block)
  turn_block quota guest = app_block >>= λ app.
      or_else app (shared_block guest >>= λ shared. or_else shared (pure (quota_block quota)))

  -- `refuse` of the gate, with the block's reason for its value.
  unfoldable pub refuse_call : Call (Option BlockReason)
  refuse_call = do block ← app_block; pure (elim block [ none ↦ none | some b ↦ some b.reason ])

  unfoldable pub skip_provider : ℕ → Call Bool
  skip_provider provider = do
    out ← attempt (wall clocks >>= λ at. totals at >>= credit_used_up provider)
    pure (get_or out false)

  abbrev pub warn_one : Bool → CapWarning → ℕ → ℕ → Call (Unit {0})
  warn_one false w key duration = pure tt
  warn_one true w key duration = once clocks key duration >>= log_warning w

  -- One round of the loop of `_warn`.
  abbrev pub warn_cap : Cap → ℕ → ℕ → ℕ → ℕ → Call (Unit {0})
  warn_cap cap value limit period duration =
      let w : CapWarning = record { cap = cap; period = period; spent = value; limit = limit } in
      warn_one (warn_due limits value limit) w (warn_key cap period) duration

  unfoldable pub warn : SpendTotals → ℕ → Call (Unit {0})
  warn t at = do
    warn_cap Cap.daily t.day limits.daily_usd (utc_day at) 172800000000
    warn_cap Cap.monthly t.month limits.monthly_usd (utc_month at) 3456000000000

  abbrev after_add : Option SpendTotals → ℕ → Call (Unit {0})
  after_add none at = pure tt
  after_add (some t) at = warn t at

  unfoldable pub spent : ℕ → ℕ → Call (Unit {0})
  spent provider cost = do at ← wall clocks; t ← attempt (add_cost provider cost at); after_add t at

  unfoldable pub out_of_credit : ℕ → Call (Unit {0})
  out_of_credit provider = do attempt (mark_credit_out clocks provider credit_out_time); pure tt

  unfoldable pub count_today : ℕ → Call ℕ
  count_today key = wall clocks >>= incr_daily key

  abbrev wait_or : Bool → Option (Option ℕ) → Call (Option ℕ)
  wait_or fail_open (some wait) g = (some wait, g)
  wait_or true none g = (some none, g)
  wait_or false none g = (none, g)

  unfoldable pub rate_limited : ℕ → ℕ → Bool → Call (Option ℕ)
  rate_limited identity per_minute fail_open = do
    wait ← attempt (take_token clocks identity per_minute)
    wait_or fail_open wait

  -- The ledger's totals since the starts of the day, the month and the credit; without a date of
  -- its own, the credit is counted since the first of January 2000.
  unfoldable pub reconcile : (ℕ → Option (Dict ℕ)) → Call SpendTotals
  reconcile reader = do
    at ← wall clocks
    day ← spent_since reader (day_start at)
    month ← spent_since reader (month_start at)
    providers ← spent_since reader (get_or limits.credit_since 63082281600000000)
    reset (ledger_totals day month providers) at
    pure (ledger_totals day month providers)
