-- ===== src/Ingestion/Time/Rules/Nearest.antt =====
-- ingestion/time.py, `_next_date`: a day and month with no year.
use native.Mathlib.Decide.{ℕ_discrete, dec_le, dec_lt}
use nd_mind.Base.{
  sym, ap, ◌∙◌, if◌then◌else◌, ℕ, suc, ◌-◌, ◌≤◌, ◌<◌, ◌≡◌, inl, inr, arith, leb, Bool-cases,
}
use nd_mind.Ingestion.Result.{ok, >>=-returned}
use nd_mind.Ingestion.Dates.{month_length, days_before_year, last_ordinal, year_of}
use nd_mind.Ingestion.Dates.Civil.{year_of-in, year_of_pos, days_before_year_mono, date-year}
use nd_mind.Ingestion.Time.Spans.{Direction}
use nd_mind.Ingestion.Time.Rules.{is_past, safe_date, next_date}

safe_date-year :
    (y m d e : ℕ)
    → safe_date y m d ≡ ok e
    → (days_before_year y < e) × (e ≤ days_before_year (suc y))
unfolding safe_date
safe_date-year y m d e h = ground (arith, date-year y m d e, date-year y m (month_length y m) e)

module _ (m d : ℕ) where
  -- The same day of a later year is later.
  safe_date_mono : (y z a b : ℕ) → safe_date y m d ≡ ok a → safe_date z m d ≡ ok b → y ≤ z → a ≤ b
  safe_date_mono y z a b p q h = elim (ℕ_discrete y z) [
    | yes e ↦
        let same : ok a ≡ ok b = sym p ∙ ap (λ k. safe_date k m d) e ∙ q in ground (arith, same)
    | no ne ↦ omega (
      arith,
      safe_date-year y m d a p,
      safe_date-year z m d b q,
      days_before_year_mono (suc y) z (omega arith),
    )
  ]

-- On this side of today, today with it.
abbrev pub IsOnSide : Direction → ℕ → ℕ → Type 0
IsOnSide Direction.past t e = e ≤ t
IsOnSide _ t e = t ≤ e

-- The nearer of two days on one side.
abbrev pub IsNearer : Direction → ℕ → ℕ → Type 0
IsNearer Direction.past e other = other ≤ e
IsNearer _ e other = e ≤ other

pub record IsNearest (direction : Direction) (t m d e : ℕ) : Type 0 where
  pub year : ℕ
  pub is_day : safe_date year m d ≡ ok e
  pub on_side : IsOnSide direction t e
  pub nearest :
      (y other : ℕ)
      → safe_date y m d ≡ ok other
      → IsOnSide direction t other
      → IsNearer direction e other

module _ (t m d e : ℕ) (lo : 1 ≤ t) (hi : t ≤ last_ordinal) where
  module _ (y other : ℕ) (p : safe_date y m d ≡ ok other) where
    earlier : y < year_of t → other < t
    earlier lt = omega (
      arith,
      safe_date-year y m d other p,
      year_of-in t lo hi,
      days_before_year_mono (suc y) (year_of t) lt,
    )

    later : year_of t < y → t < other
    later lt = omega (
      arith,
      safe_date-year y m d other p,
      year_of-in t lo hi,
      days_before_year_mono (suc (year_of t)) y lt,
    )

    from_this_year : t ≤ other → year_of t ≤ y
    from_this_year h = elim (dec_le (year_of t) y) [
      | yes le ↦ le
      | no gt ↦ absurd (omega (arith, earlier (omega arith)))
    ]

    to_this_year : other ≤ t → y ≤ year_of t
    to_this_year h = elim (dec_le y (year_of t)) [
      | yes le ↦ le
      | no gt ↦ absurd (omega (arith, later (omega arith)))
    ]

  module _ (c : ℕ) (p : safe_date (year_of t) m d ≡ ok c) where
    this_year_ahead : t ≤ c → IsNearest Direction.future t m d c
    this_year_ahead h = record {
      year = year_of t;
      is_day = p;
      on_side = h;
      nearest = λ y other q side.
          safe_date_mono m d (year_of t) y c other p q (from_this_year y other q side);
    }

    next_year : c < t → safe_date (suc (year_of t)) m d ≡ ok e → IsNearest Direction.future t m d e
    next_year h r = record {
      year = suc (year_of t);
      is_day = r;
      on_side = omega (arith, later (suc (year_of t)) e r (omega arith));
      nearest = λ y other q side.
          safe_date_mono m d (suc (year_of t)) y e other r q (elim (dec_lt (year_of t) y) [
            | yes lt ↦ lt
            | no ge ↦
                absurd (omega (arith, safe_date_mono m d y (year_of t) other c q p (omega arith)))
          ]);
    }

    this_year_behind : c ≤ t → IsNearest Direction.past t m d c
    this_year_behind h = record {
      year = year_of t;
      is_day = p;
      on_side = h;
      nearest = λ y other q side.
          safe_date_mono m d y (year_of t) other c q p (to_this_year y other q side);
    }

    last_year : t < c → safe_date (year_of t - 1) m d ≡ ok e → IsNearest Direction.past t m d e
    last_year h r = record {
      year = year_of t - 1;
      is_day = r;
      on_side = omega (arith, earlier (year_of t - 1) e r (omega (arith, year_of_pos t lo hi)));
      nearest = λ y other q side.
          safe_date_mono m d y (year_of t - 1) other e q r (elim (dec_lt y (year_of t)) [
            | yes lt ↦ omega arith
            | no ge ↦
                absurd (omega (arith, safe_date_mono m d (year_of t) y c other p q (omega arith)))
          ]);
    }

    ahead :
        (if leb t c then ok c else safe_date (suc (year_of t)) m d) ≡ ok e
        → IsNearest Direction.future t m d e
    ahead h = elim (Bool-cases (leb t c)) [
      | inl le ↦
          let q : c ≡ e = ground (arith, le) in rw (← q) (this_year_ahead (ground (arith, le)))
      | inr gt ↦ next_year (ground (arith, gt)) (rw gt at h)
    ]

    behind :
        (if leb c t then ok c else safe_date (year_of t - 1) m d) ≡ ok e
        → IsNearest Direction.past t m d e
    behind h = elim (Bool-cases (leb c t)) [
      | inl le ↦
          let q : c ≡ e = ground (arith, le) in rw (← q) (this_year_behind (ground (arith, le)))
      | inr gt ↦ last_year (ground (arith, gt)) (rw gt at h)
    ]

-- A day and month with no year is resolved to that day of some year, clamped to its month, and to the
-- nearest one: the last one up to today where the direction is the past, and else the first one from today on.
pub next_date-IsNearest :
    (t m d e : ℕ) (direction : Direction)
    → 1 ≤ t
    → t ≤ last_ordinal
    → next_date t m d direction ≡ ok e
    → IsNearest direction t m d e
unfolding next_date
next_date-IsNearest t m d e direction lo hi h =
    let found = >>=-returned (safe_date (year_of t) m d) _ h in
    by_direction direction found.0 found.1 found.2
  where
    by_direction :
        (direction : Direction) (c : ℕ)
        → safe_date (year_of t) m d ≡ ok c
        → (if is_past direction
            then (if leb c t then ok c else safe_date (year_of t - 1) m d)
            else (if leb t c then ok c else safe_date (suc (year_of t)) m d))
          ≡ ok e
        → IsNearest direction t m d e
    by_direction Direction.past c p q = behind t m d e lo hi c p q
    by_direction Direction.future c p q = ahead t m d e lo hi c p q
    by_direction Direction.auto c p q =
        let n = ahead t m d e lo hi c p q in
        record { year = n.year; is_day = n.is_day; on_side = n.on_side; nearest = n.nearest }
