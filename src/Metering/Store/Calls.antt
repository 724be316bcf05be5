-- ===== src/Metering/Store/Calls.antt =====
-- The store's operations, and the calls that they and the gate are made of. A call may raise, and
-- it reads the clocks: the reading's number says what it reads.
use nd_mind.Base.{
  ℕ, ◌+◌, ◌-◌, ◌*◌, ◌/◌, suc, min, Bool, true, false, Option, none, some, List, ltb, leb,
  if◌then◌else◌, get_or,
}
use nd_mind.Base.Dict.{Dict, lookup, insert}
use nd_mind.Metering.Store.{Bucket, SpendStore, SpendTotals, utc_day, utc_month}

pub record Clocks : Type 0 where
  pub monotonic : ℕ → ℕ
  pub wall : ℕ → ℕ

pub data Cap : Type 0 where
  daily monthly : Cap

pub record CapWarning : Type 0 where
  pub cap : Cap
  pub period : ℕ
  pub spent : ℕ
  pub limit : ℕ

-- The gate's own state, with the store it stands on, what it logged as warnings, and how many
-- times a clock was read.
pub record Gate : Type 0 where
  pub store : SpendStore
  pub flag : Option (ℕ × Bool)
  pub guest_spend : Option (ℕ → Option ℕ)
  pub warned : List CapWarning
  pub readings : ℕ

-- `none` where it raises.
abbrev pub Call {ℓ} : Type ℓ → Type ℓ
Call A = Gate → Option A × Gate

abbrev pub pure {ℓ} : {A : Type ℓ} → A → Call A
pure a g = (some a, g)

module _ {ℓ κ} {A : Type ℓ} {B : Type κ} where
  abbrev pub continue : Option A → (A → Call B) → Call B
  continue none f g = (none, g)
  continue (some a) f g = f a g

  infixl 10 ◌>>=◌ ◌>>◌
  abbrev pub ◌>>=◌ : Call A → (A → Call B) → Call B
  ◌>>=◌ m f g = continue (m g).0 f (m g).1

  abbrev pub ◌>>◌ : Call A → Call B → Call B
  ◌>>◌ m k = ◌>>=◌ m (λ _. k)

-- `try`: what was raised is a value.
abbrev pub attempt {ℓ} : {A : Type ℓ} → Call A → Call (Option A)
attempt m g = (some (m g).0, (m g).1)

-- `_check`
abbrev pub reachable : Call (Unit {0})
reachable g = (if g.store.fail then none else some tt, g)

abbrev pub reads {ℓ} : {A : Type ℓ} → (SpendStore → A) → Call A
reads f g = (some (f g.store), g)

abbrev pub writes : (SpendStore → SpendStore) → Call (Unit {0})
writes f g = (some tt, record g { store = f g.store })

abbrev pub store_kill_switch : Call (Option Bool)
store_kill_switch = do reachable; reads (λ s. s.kill)

abbrev pub set_kill_switch : Bool → Call (Unit {0})
set_kill_switch on = do reachable; writes (λ s. record s { kill = some on })

abbrev pub clear_kill_switch : Call (Unit {0})
clear_kill_switch = do reachable; writes (λ s. record s { kill = none })

-- The counters of a moment.
abbrev pub totals_of : ℕ → SpendStore → SpendTotals
totals_of at s = record {
  day = get_or (lookup (utc_day at) s.day) 0;
  month = get_or (lookup (utc_month at) s.month) 0;
  providers = s.providers;
}

unfoldable pub totals : ℕ → Call SpendTotals
totals at = do reachable; reads (totals_of at)

abbrev plus : ℕ → ℕ → Dict ℕ → Dict ℕ
plus k cost d = insert k (get_or (lookup k d) 0 + cost) d

abbrev pub counted : ℕ → ℕ → ℕ → SpendStore → SpendStore
counted provider cost at s = record s {
  day = plus (utc_day at) cost s.day;
  month = plus (utc_month at) cost s.month;
  providers = plus provider cost s.providers;
}

-- `add`
abbrev pub add_cost : ℕ → ℕ → ℕ → Call SpendTotals
add_cost provider cost at = do reachable; writes (counted provider cost at); totals at

abbrev pub reset : SpendTotals → ℕ → Call (Unit {0})
reset t at = do
  reachable
  writes (λ s. record s {
    day = insert (utc_day at) t.day s.day;
    month = insert (utc_month at) t.month s.month;
    providers = t.providers;
  })

-- `incr_daily`
abbrev pub incr_daily : ℕ → ℕ → Call ℕ
incr_daily key at = do
  reachable
  counts ← reads (λ s. get_or (lookup key s.daily) List.[])
  count ← pure (get_or (lookup (utc_day at) counts) 0 + 1)
  writes (λ s. record s { daily = insert key (insert (utc_day at) count counts) s.daily })
  pure count

-- A bucket after the time since it was last looked at.
abbrev pub refilled : ℕ → ℕ → Bucket → ℕ
refilled per_minute now b = min (per_minute * 60000000) (b.tokens + (now - b.at) * per_minute)

abbrev pub full : ℕ → ℕ → Bucket
full per_minute now = record { tokens = per_minute * 60000000; at = now }

-- What `take` answers: nothing, or the microseconds to wait (rounded down); and what is left. The
-- limit is positive: for a wait the code divides by it.
abbrev pub take_from : ℕ → ℕ → Bucket → Option ℕ × Bucket
take_from per_minute now b =
    let tokens = refilled per_minute now b in
    if leb 60000000 tokens
    then (none, record { tokens = tokens - 60000000; at = now })
    else (some ((60000000 - tokens) / per_minute), record { tokens = tokens; at = now })

module _ (clocks : Clocks) where
  abbrev pub monotonic : Call ℕ
  monotonic g = (some (clocks.monotonic g.readings), record g { readings = suc g.readings })

  abbrev pub wall : Call ℕ
  wall g = (some (clocks.wall g.readings), record g { readings = suc g.readings })

  abbrev pub credit_out : ℕ → Call Bool
  credit_out provider = do
    reachable
    until ← reads (λ s. get_or (lookup provider s.credit_out) 0)
    now ← monotonic
    pure (ltb now until)

  abbrev pub mark_credit_out : ℕ → ℕ → Call (Unit {0})
  mark_credit_out provider duration = do
    reachable
    now ← monotonic
    writes (λ s. record s { credit_out = insert provider (now + duration) s.credit_out })

  abbrev note_seen : Bool → ℕ → ℕ → Call Bool
  note_seen true key until = pure false
  note_seen false key until = do
    writes (λ s. record s { seen = insert key until s.seen })
    pure true

  abbrev pub once : ℕ → ℕ → Call Bool
  once key duration = do
    reachable
    now ← monotonic
    until ← reads (λ s. get_or (lookup key s.seen) 0)
    note_seen (ltb now until) key (now + duration)

  -- `take`
  abbrev pub take_token : ℕ → ℕ → Call (Option ℕ)
  take_token bucket per_minute = do
    reachable
    now ← monotonic
    b ← reads (λ s. get_or (lookup bucket s.buckets) (full per_minute now))
    writes (λ s. record s { buckets = insert bucket (take_from per_minute now b).1 s.buckets })
    pure (take_from per_minute now b).0
