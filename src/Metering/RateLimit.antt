-- ===== src/Metering/RateLimit.antt =====
-- The token buckets behind `rate_limited` of metering/gate.py: how many calls pass in a time.
use nd_mind.Base.{
  ℕ, ◌+◌, ◌-◌, ◌*◌, ◌≤◌, zero, suc, Bool, true, false, ◌&&◌, Option, none, some, List, [], ◌∷◌, ◌≡◌,
  refl, arith, Bool-cases, inl, inr, get_or, ◌==◌, if◌then◌else◌, is_none, length, leb,
}
use nd_mind.Base.Dict.{insert, lookup, lookup-insert}
use nd_mind.Metering.Store.{Bucket}
use nd_mind.Metering.Store.Calls.{Clocks, Gate, full, take_from}
use nd_mind.Metering.Limits.{SpendLimits}
use nd_mind.Metering.Gate.{rate_limited}

-- The answer was that there is no wait.
abbrev pub passes : Option (Option ℕ) → Bool
passes none = false
passes (some none) = true
passes (some (some wait)) = false

-- What a bucket may still give until a moment, in its parts of a token: what it has or, where it
-- was never used, what it holds when full; and what the time brings.
abbrev pub worth : ℕ → ℕ → ℕ → Option Bucket → ℕ
worth per_minute from until none = per_minute * 60000000 + (until - from) * per_minute
worth per_minute from until (some b) = b.tokens + (until - b.at) * per_minute

spread : (a b c r : ℕ) → a ≤ b → b ≤ c → (c - a) * r ≡ (b - a) * r + (c - b) * r
spread a b c r p q = grind arith

take_from-worth :
    (per_minute now until : ℕ) (b : Bucket)
    → b.at ≤ now
    → now ≤ until
    → (if is_none (take_from per_minute now b).0 then 60000000 else 0)
        + worth per_minute now until (some (take_from per_minute now b).1)
      ≤ b.tokens + (until - b.at) * per_minute
take_from-worth per_minute now until b p q =
    let s = spread b.at now until per_minute p q in ground arith

take_from-at : (per_minute now : ℕ) (b : Bucket) → (take_from per_minute now b).1.at ≡ now
take_from-at per_minute now b = ground arith

worth-bucket :
    (per_minute now until : ℕ) (o : Option Bucket)
    → worth per_minute now until o
      ≡ (get_or o (full per_minute now)).tokens
        + (until - (get_or o (full per_minute now)).at) * per_minute
worth-bucket per_minute now until none = refl
worth-bucket per_minute now until (some b) = refl

worth-later :
    (per_minute from later until : ℕ) (o : Option Bucket)
    → from ≤ later
    → worth per_minute later until o ≤ worth per_minute from until o
worth-later per_minute from later until none p = grind arith
worth-later per_minute from later until (some b) p = omega arith

-- A bucket was last looked at by a moment.
IsPast : Option Bucket → ℕ → Type 0
IsPast none now = Unit
IsPast (some b) now = b.at ≤ now

past_bucket :
    (per_minute now : ℕ) (o : Option Bucket)
    → IsPast o now
    → (get_or o (full per_minute now)).at ≤ now
unfolding IsPast
past_bucket per_minute now none p = omega arith
past_bucket per_minute now (some b) p = p

IsPast-later : (o : Option Bucket) (now later : ℕ) → now ≤ later → IsPast o now → IsPast o later
unfolding IsPast
IsPast-later none now later q p = tt
IsPast-later (some b) now later q p = omega arith

-- The monotonic clock does not go back.
abbrev pub Ascending : Clocks → Type 0
Ascending clocks = (n : ℕ) → clocks.monotonic n ≤ clocks.monotonic (suc n)

Ascending-le :
    (clocks : Clocks) (m n : ℕ) → Ascending clocks → m ≤ n → clocks.monotonic m ≤ clocks.monotonic n
Ascending-le clocks m zero asc p = let q : m ≡ 0 = omega arith in rw q (omega arith)
Ascending-le clocks m (suc n) asc p = elim (Bool-cases (leb m n)) [
  | inl e ↦ let q = Ascending-le clocks m n asc (ground arith) in let r = asc n in omega arith
  | inr e ↦ let q : m ≡ suc n = ground arith in rw q (omega arith)
]

chain : (a b c : ℕ) → a ≤ b → b ≤ c → a ≤ c
chain a b c p q = omega arith

tally :
    (total rest before after : ℕ) (b : Bool)
    → total ≡ rest + (if b then 1 else 0)
    → rest * 60000000 ≤ before
    → (if b then 60000000 else 0) + before ≤ after
    → total * 60000000 ≤ after
tally total rest before after true e p q = omega arith
tally total rest before after false e p q = omega arith

module _ (clocks : Clocks) (limits : SpendLimits) where
  -- How many calls for `who` pass when one is made for each of the identities, in turn.
  unfoldable pub admitted : ℕ → ℕ → List ℕ → Gate → ℕ
  admitted who per_minute [] g = 0
  admitted who per_minute (id ∷ ids) g =
      let answer = rate_limited clocks limits id per_minute false g in
      let rest = admitted who per_minute ids answer.1 in
      if (id == who) && passes answer.0 then suc rest else rest

  abbrev bucket_of : ℕ → ℕ → Gate → Bucket
  bucket_of id per_minute g =
      get_or (lookup id g.store.buckets) (full per_minute (clocks.monotonic g.readings))

  abbrev answered : ℕ → ℕ → Gate → Option ℕ × Bucket
  answered id per_minute g =
      take_from per_minute (clocks.monotonic g.readings) (bucket_of id per_minute g)

  abbrev after : ℕ → ℕ → Gate → Gate
  after id per_minute g = record g {
    store = record g.store { buckets = insert id (answered id per_minute g).1 g.store.buckets };
    readings = suc g.readings;
  }

  rate_limited-takes :
      (id per_minute : ℕ) (g : Gate)
      → g.store.fail ≡ false
      → rate_limited clocks limits id per_minute false g
        ≡ (some (answered id per_minute g).0, after id per_minute g)
  unfolding rate_limited
  rate_limited-takes id per_minute g up = rw up refl

  passes-is_none : (o : Option ℕ) → passes (some o) ≡ is_none o
  passes-is_none none = refl
  passes-is_none (some wait) = refl

  admitted-other :
      (who id per_minute : ℕ) (ids : List ℕ) (g : Gate)
      → g.store.fail ≡ false
      → (id == who) ≡ false
      → admitted who per_minute (id ∷ ids) g ≡ admitted who per_minute ids (after id per_minute g)
  unfolding admitted
  admitted-other who id per_minute ids g up e = rw (rate_limited-takes id per_minute g up, e) refl

  admitted-own :
      (who id per_minute : ℕ) (ids : List ℕ) (g : Gate)
      → g.store.fail ≡ false
      → (id == who) ≡ true
      → admitted who per_minute (id ∷ ids) g
        ≡ admitted who per_minute ids (after id per_minute g)
          + (if is_none (answered id per_minute g).0 then 1 else 0)
  unfolding admitted
  admitted-own who id per_minute ids g up e =
      rw (rate_limited-takes id per_minute g up, e, passes-is_none (answered id per_minute g).0)
        (ground arith)

  admitted-none : (who per_minute : ℕ) (g : Gate) → admitted who per_minute [] g ≡ 0
  unfolding admitted
  admitted-none who per_minute g = refl

  after-other :
      (who id per_minute : ℕ) (g : Gate)
      → (id == who) ≡ false
      → lookup who (after id per_minute g).store.buckets ≡ lookup who g.store.buckets
  after-other who id per_minute g e = rw (lookup-insert, e) refl

  after-own :
      (who id per_minute : ℕ) (g : Gate)
      → (id == who) ≡ true
      → lookup who (after id per_minute g).store.buckets ≡ some (answered id per_minute g).1
  after-own who id per_minute g e = rw (lookup-insert, e) refl

  -- What a call that passes takes from the bucket, the bucket was worth.
  answered-worth :
      (id per_minute until : ℕ) (g : Gate)
      → clocks.monotonic g.readings ≤ until
      → IsPast (lookup id g.store.buckets) (clocks.monotonic g.readings)
      → (if is_none (answered id per_minute g).0 then 60000000 else 0)
          + worth per_minute
              (clocks.monotonic (suc g.readings))
              until
              (some (answered id per_minute g).1)
        ≤ worth per_minute (clocks.monotonic g.readings) until (lookup id g.store.buckets)
  answered-worth id per_minute until g q past =
      let b =
        worth-bucket per_minute (clocks.monotonic g.readings) until (lookup id g.store.buckets) in
      let p =
        past_bucket per_minute (clocks.monotonic g.readings) (lookup id g.store.buckets) past in
      rw b (
        take_from-worth per_minute (clocks.monotonic g.readings) until (bucket_of id per_minute g) p
          q)

  answered_own-worth :
      (who id per_minute until : ℕ) (g : Gate)
      → id ≡ who
      → clocks.monotonic g.readings ≤ until
      → IsPast (lookup who g.store.buckets) (clocks.monotonic g.readings)
      → (if is_none (answered id per_minute g).0 then 60000000 else 0)
          + worth per_minute
              (clocks.monotonic (suc g.readings))
              until
              (some (answered id per_minute g).1)
        ≤ worth per_minute (clocks.monotonic g.readings) until (lookup who g.store.buckets)
  answered_own-worth who id per_minute until g same q past =
      rw (← same) (answered-worth id per_minute until g q (rw same past))

  answered-IsPast :
      (id per_minute : ℕ) (g : Gate)
      → Ascending clocks
      → IsPast (some (answered id per_minute g).1) (clocks.monotonic (suc g.readings))
  unfolding IsPast
  answered-IsPast id per_minute g asc =
      let a = take_from-at per_minute (clocks.monotonic g.readings) (bucket_of id per_minute g) in
      rw a (asc g.readings)

  admitted-worth :
      (who per_minute until : ℕ) (ids : List ℕ) (g : Gate)
      → Ascending clocks
      → g.store.fail ≡ false
      → ((n : ℕ) → n ≤ g.readings + length ids → clocks.monotonic n ≤ until)
      → IsPast (lookup who g.store.buckets) (clocks.monotonic g.readings)
      → admitted who per_minute ids g * 60000000
        ≤ worth per_minute (clocks.monotonic g.readings) until (lookup who g.store.buckets)
  admitted-worth who per_minute until [] g asc up bound past =
      let z = admitted-none who per_minute g in omega arith
  admitted-worth who per_minute until (id ∷ ids) g asc up bound past =
      let rest =
        admitted-worth who per_minute until ids (after id per_minute g) asc up
          (λ n p. bound n (omega arith)) in
      elim (Bool-cases (id == who)) [
        | inl e ↦
            let same : id ≡ who = ground arith in
            let l = after-own who id per_minute g e in
            let more = rest (rw l (answered-IsPast id per_minute g asc)) in
            let step =
              answered_own-worth who id per_minute until g same (bound g.readings (omega arith))
                past in
            let a = admitted-own who id per_minute ids g up e in
            tally (admitted who per_minute (id ∷ ids) g)
              (admitted who per_minute ids (after id per_minute g))
              (worth per_minute (clocks.monotonic (suc g.readings)) until
                (some (answered id per_minute g).1))
              (worth per_minute (clocks.monotonic g.readings) until (lookup who g.store.buckets))
              (is_none (answered id per_minute g).0) a (rw l at more) step
        | inr e ↦
            let l = after-other who id per_minute g e in
            let more =
              rest (rw l (IsPast-later (lookup who g.store.buckets) _ _ (asc g.readings) past)) in
            let step =
              worth-later per_minute _ (clocks.monotonic (suc g.readings)) until
                (lookup who g.store.buckets) (asc g.readings) in
            rw (admitted-other who id per_minute ids g up e) (
              chain (admitted who per_minute ids (after id per_minute g) * 60000000)
                (worth per_minute (clocks.monotonic (suc g.readings)) until
                  (lookup who g.store.buckets))
                (worth per_minute (clocks.monotonic g.readings) until (lookup who g.store.buckets))
                (rw l at more) step)
      ]

  -- Where the clock does not go back, the store is up and the identity has no bucket yet: whatever
  -- calls are made between, its calls pass at most as often as a full bucket and the time since the
  -- first call allow, `per_minute` times and as many again in every minute.
  pub rate_limited-bound :
      (who per_minute : ℕ) (ids : List ℕ) (g : Gate)
      → Ascending clocks
      → g.store.fail ≡ false
      → lookup who g.store.buckets ≡ none
      → admitted who per_minute ids g * 60000000
        ≤ per_minute * 60000000
          + (clocks.monotonic (g.readings + length ids) - clocks.monotonic g.readings) * per_minute
  unfolding IsPast
  rate_limited-bound who per_minute ids g asc up fresh_ =
      let h =
        admitted-worth who per_minute (clocks.monotonic (g.readings + length ids)) ids g asc up
          (λ n p. Ascending-le clocks n (g.readings + length ids) asc p) in
      let w = h (rw fresh_ tt) in rw fresh_ at w
