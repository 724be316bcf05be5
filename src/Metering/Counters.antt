-- ===== src/Metering/Counters.antt =====
-- What the calls of metering/gate.py that change the store do to its counters and marks.
use nd_mind.Base.{
  ℕ, ◌+◌, ◌<◌, suc, true, false, Option, none, some, ◌≡◌, refl, ◌∙◌, arith, Bool-cases, inl, inr,
  get_or, ◌==◌, if◌then◌else◌,
}
use nd_mind.Base.Dict.{Dict, insert, lookup, lookup-insert, values}
use nd_mind.Metering.Store.{SpendStore, SpendTotals, day_start, month_start, utc_day, utc_month}
use nd_mind.Metering.Store.Calls.{
  Call, Cap, Clocks, Gate, ◌>>◌, counted, continue, totals, totals_of,
}
use nd_mind.Metering.Limits.{SpendLimits, credit_out_time, sum}
use nd_mind.Metering.Gate.{
  ledger_totals, out_of_credit, reconcile, skip_provider, spent, warn, warn_cap,
}

-- The counters are the same, and the store is up just if it was.
abbrev pub SameCounts : SpendStore → SpendStore → Type 0
SameCounts s r =
    (r.day ≡ s.day) × (r.month ≡ s.month) × (r.providers ≡ s.providers) × (r.fail ≡ s.fail)

-- What a counter has after a cost is added under one of its keys.
counter_after :
    (k j cost : ℕ) (d : Dict ℕ)
    → get_or (lookup j (insert k (get_or (lookup k d) 0 + cost) d)) 0
      ≡ get_or (lookup j d) 0 + (if k == j then cost else 0)
counter_after k j cost d = rw lookup-insert (elim (Bool-cases (k == j)) [
  | inl e ↦ let q : k ≡ j = ground arith in rw (e, q) refl
  | inr e ↦ rw e (omega arith)
])

inserted : (k v : ℕ) (d : Dict ℕ) → get_or (lookup k (insert k v d)) 0 ≡ v
inserted k v d = rw lookup-insert (ground arith)

module _ (clocks : Clocks) (limits : SpendLimits) where
  warn_cap-counts :
      (cap : Cap) (value limit period duration : ℕ) (g : Gate)
      → SameCounts g.store (warn_cap clocks limits cap value limit period duration g).1.store
  warn_cap-counts cap value limit period duration g = ground arith

  counts_continue :
      {A : Type 0} (o : Option A) (m : Call (Unit {0})) (s : SpendStore) (h : Gate)
      → SameCounts s h.store
      → SameCounts h.store (m h).1.store
      → SameCounts s (continue o (λ _. m) h).1.store
  counts_continue none m s h p q = p
  counts_continue (some a) m s h p q = (q.0 ∙ p.0, q.1 ∙ p.1, q.2 ∙ p.2, q.3 ∙ p.3)

  warn-counts :
      (t : SpendTotals) (at : ℕ) (g : Gate) → SameCounts g.store (warn clocks limits t at g).1.store
  unfolding warn
  warn-counts t at g =
      counts_continue
        (warn_cap clocks limits Cap.daily t.day limits.daily_usd (utc_day at) 172800000000 g).0
        (warn_cap clocks limits Cap.monthly t.month limits.monthly_usd (utc_month at) 3456000000000)
        g.store
        (warn_cap clocks limits Cap.daily t.day limits.daily_usd (utc_day at) 172800000000 g).1
        (warn_cap-counts Cap.daily t.day limits.daily_usd (utc_day at) 172800000000 g)
        (warn_cap-counts Cap.monthly t.month limits.monthly_usd (utc_month at) 3456000000000 _)

  pub spent-store :
      (provider cost : ℕ) (g : Gate)
      → g.store.fail ≡ false
      → SameCounts
          (counted provider cost (clocks.wall g.readings) g.store)
          (spent clocks limits provider cost g).1.store
  unfolding spent totals
  spent-store provider cost g up = rw up (warn-counts _ _ _)

  -- Where the store is up, a call's cost is added, once, to the counters of its day, of its month and of its provider,
  -- and to no others.
  pub spent-counts :
      (provider cost : ℕ) (g : Gate) (at other : ℕ)
      → g.store.fail ≡ false
      → let now = clocks.wall g.readings in
        let new = totals_of at (spent clocks limits provider cost g).1.store in
        let old = totals_of at g.store in
        (new.day ≡ old.day + (if utc_day now == utc_day at then cost else 0))
        × (new.month ≡ old.month + (if utc_month now == utc_month at then cost else 0))
        × (get_or (lookup other new.providers) 0
            ≡ get_or (lookup other old.providers) 0 + (if provider == other then cost else 0))
  spent-counts provider cost g at other up =
      let now = clocks.wall g.readings in
      let s = spent-store provider cost g up in
      (
        rw s.0 (counter_after (utc_day now) (utc_day at) cost g.store.day),
        rw s.1 (counter_after (utc_month now) (utc_month at) cost g.store.month),
        rw s.2 (counter_after provider other cost g.store.providers),
      )

  -- Where the store is up, a provider reported out of credit is skipped at once, as long as the
  -- clock reads less than `credit_out_time` more than when it was reported.
  pub out_of_credit-skip_provider :
      (provider : ℕ) (g : Gate)
      → g.store.fail ≡ false
      → clocks.monotonic (suc (suc g.readings)) < clocks.monotonic g.readings + credit_out_time
      → ((out_of_credit clocks limits provider >> skip_provider clocks limits provider) g).0
        ≡ some true
  unfolding out_of_credit skip_provider totals
  out_of_credit-skip_provider provider g up soon = rw (up, lookup-insert) (ground arith)

  -- Where the store is up and the ledger gives its sums, `reconcile` returns them, and they are then
  -- the counters of its moment.
  pub reconcile-totals :
      (reader : ℕ → Option (Dict ℕ)) (day month providers : Dict ℕ) (g : Gate)
      → g.store.fail ≡ false
      → reader (day_start (clocks.wall g.readings)) ≡ some day
      → reader (month_start (clocks.wall g.readings)) ≡ some month
      → reader (get_or limits.credit_since 63082281600000000) ≡ some providers
      → let after = reconcile clocks limits reader g in
        (after.0 ≡ some (ledger_totals day month providers))
        × (totals_of (clocks.wall g.readings) after.1.store ≡ ledger_totals day month providers)
  unfolding reconcile totals
  reconcile-totals reader day month providers g up d m p =
      rw (d, m, p, up)
        (
          refl,
          rw
              (
                inserted (utc_day (clocks.wall g.readings)) (sum (values day)) g.store.day,
                inserted (utc_month (clocks.wall g.readings)) (sum (values month)) g.store.month,
              )
              refl,
        )
