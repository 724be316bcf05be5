-- ===== src/Metering/Ledger.antt =====
-- The counters of metering/gate.py and a ledger of all the costs: what the ledger of the code, a
-- table of calls, would sum up.
use nd_mind.Base.{ℕ, ◌+◌, List, [], ◌∷◌, ◌≡◌, ◌∙◌, false, get_or, ◌==◌, if◌then◌else◌}
use nd_mind.Base.Dict.{lookup}
use nd_mind.Metering.Store.{SpendStore, utc_day, utc_month}
use nd_mind.Metering.Store.Calls.{Clocks, Gate, totals_of}
use nd_mind.Metering.Limits.{SpendLimits}
use nd_mind.Metering.Gate.{spent}
use nd_mind.Metering.Counters.{spent-counts, spent-store}

-- A call that cost something.
pub record Entry : Type 0 where
  pub provider : ℕ
  pub cost : ℕ
  pub at : ℕ

abbrev pub sum_day : ℕ → List Entry → ℕ
sum_day at [] = 0
sum_day at (e ∷ es) = sum_day at es + (if utc_day e.at == utc_day at then e.cost else 0)

abbrev pub sum_month : ℕ → List Entry → ℕ
sum_month at [] = 0
sum_month at (e ∷ es) = sum_month at es + (if utc_month e.at == utc_month at then e.cost else 0)

abbrev pub sum_provider : ℕ → List Entry → ℕ
sum_provider provider [] = 0
sum_provider provider (e ∷ es) =
    sum_provider provider es + (if e.provider == provider then e.cost else 0)

-- Calls of `spent`, by provider and cost, and their ledger, the latest first.
module _ (clocks : Clocks) (limits : SpendLimits) where
  abbrev pub spend_all : List (ℕ × ℕ) → Gate → List Entry → Gate × List Entry
  spend_all [] g ledger = (g, ledger)
  spend_all ((provider, cost) ∷ calls) g ledger =
      spend_all calls (spent clocks limits provider cost g).1
        (record { provider = provider; cost = cost; at = clocks.wall g.readings } ∷ ledger)

  -- The store has the ledger's sums, for each moment and provider.
  pub record Implements (ledger : List Entry) (s : SpendStore) : Type 0 where
    pub up : s.fail ≡ false
    pub day : (at : ℕ) → (totals_of at s).day ≡ sum_day at ledger
    pub month : (at : ℕ) → (totals_of at s).month ≡ sum_month at ledger
    pub provider :
        (provider : ℕ) → get_or (lookup provider s.providers) 0 ≡ sum_provider provider ledger

  spent-Implements :
      (provider cost : ℕ) (g : Gate) (ledger : List Entry)
      → Implements ledger g.store
      → Implements
          (record { provider = provider; cost = cost; at = clocks.wall g.readings } ∷ ledger)
          (spent clocks limits provider cost g).1.store
  spent-Implements provider cost g ledger h = record {
    up = (spent-store clocks limits provider cost g h.up).3 ∙ h.up;
    day = λ at. rw (← h.day at) (spent-counts clocks limits provider cost g at 0 h.up).0;
    month = λ at. rw (← h.month at) (spent-counts clocks limits provider cost g at 0 h.up).1;
    provider = λ p. rw (← h.provider p) (spent-counts clocks limits provider cost g 0 p h.up).2;
  }

  -- Where the store has a ledger's sums, it has them again after any calls: each counter is the sum
  -- of the costs of its day, month or provider, whatever the order of the calls was.
  pub spend_all-Implements :
      (calls : List (ℕ × ℕ)) (g : Gate) (ledger : List Entry)
      → Implements ledger g.store
      → Implements (spend_all calls g ledger).1 (spend_all calls g ledger).0.store
  spend_all-Implements [] g ledger h = h
  spend_all-Implements ((provider, cost) ∷ calls) g ledger h =
      spend_all-Implements calls (spent clocks limits provider cost g).1
        (record { provider = provider; cost = cost; at = clocks.wall g.readings } ∷ ledger)
        (spent-Implements provider cost g ledger h)
