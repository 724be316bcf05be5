-- ===== src/Memory/Recurrence/Window.antt =====
-- Which times `expand_rrule` of memory/recurrence.py gives: some within the window, and all of it.
use nd_mind.Base.{
  ℕ, zero, suc, ◌+◌, ◌-◌, ◌≤◌, ◌<◌, String, Bool-cases, Option-cases, true, false, Option, none,
  some, List, ◌≡◌, refl, inl, inr, arith, All, length, if◌then◌else◌,
}
use nd_mind.Memory.Recurrence.{
  Clock, Expansion, Occurrence, RecurrenceRule, cons_if, day, expand_loop, expand_parsed,
  expand_rrule, fuel_for, is_current, is_past, low, parse_rrule, ran,
}

abbrev pub Before : Option ℕ → ℕ → Type 0
Before none n = Unit
Before (some end) n = n < end

abbrev pub After : Option ℕ → ℕ → Type 0
After none n = Unit
After (some start) n = start < n

-- It lasts `length`, begins before the end of the window and ends after its start.
abbrev pub Overlaps : ℕ → Option ℕ → Option ℕ → Occurrence → Type 0
Overlaps len start end o = (o.1 ≡ o.0 + len) × Before end o.0 × After start o.1

-- What `after` promises: without `inc`, a later moment.
abbrev pub Later : RecurrenceRule → Type 0
Later r = (c d : ℕ) → r.after c false ≡ some d → c < d

-- A local moment is at most a day ahead of UTC.
abbrev pub Zoned : (ℕ → ℕ) → Type 0
Zoned to_utc = (c : ℕ) → c ≤ to_utc c + day

-- At most `room` of them, and each within the window.
abbrev pub Fits : ℕ → Option ℕ → Option ℕ → ℕ → Option (List Occurrence) → Type 0
Fits len start end room none = ⊥
Fits len start end room (some out) = (length out ≤ room) × All (Overlaps len start end) out

is_past-Before : (end : Option ℕ) (n : ℕ) → is_past end n ≡ false → Before end n
is_past-Before none n e = tt
is_past-Before (some end) n e = ground arith

is_current-After : (start : Option ℕ) (n : ℕ) → is_current start n ≡ true → After start n
is_current-After none n e = tt
is_current-After (some start) n e = ground arith

-- The steps that are left: one for each that is taken, and one for each moment before the start.
abbrev needs : Option ℕ → Option ℕ → ℕ → ℕ
needs none cursor room = room
needs (some start) none room = room
needs (some start) (some c) room = room + (suc (start + day) - c)

needs-step :
    (start : Option ℕ) (b len c room fuel : ℕ) (o : Option ℕ)
    → ((d : ℕ) → o ≡ some d → c < d)
    → c ≤ b + day
    → needs start (some c) (suc room) < suc fuel
    → needs start o (if is_current start (b + len) then room else suc room) < fuel
needs-step none b len c room fuel o later zoned n = omega arith
needs-step (some start) b len c room fuel none later zoned n = ground arith
needs-step (some start) b len c room fuel (some d) later zoned n =
    let w = later d refl in ground arith

module _ (r : RecurrenceRule) (to_utc : ℕ → ℕ) (len : ℕ) (start end : Option ℕ) where
  cons_if-Fits :
      (b : ℕ) (room : ℕ) (rest : Option (List Occurrence))
      → Before end b
      → Fits len start end (if is_current start (b + len) then room else suc room) rest
      → Fits len start end (suc room) (cons_if (is_current start (b + len)) (b, b + len) rest)
  cons_if-Fits b room none h f = f
  cons_if-Fits b room (some out) h f = elim (Bool-cases (is_current start (b + len))) [
    | inl e ↦
        let g = rw e at f in
        rw e (omega (arith, g.0), ((refl, h, is_current-After start (b + len) e), g.1))
    | inr e ↦ let g = rw e at f in rw e g
  ]

  expand_loop-Fits :
      Later r
      → Zoned to_utc
      → (fuel room : ℕ) (cursor : Option ℕ) → needs start cursor room < fuel
      → Fits len start end room (expand_loop r to_utc len start end fuel room cursor)
  unfolding expand_loop
  expand_loop-Fits later zoned zero room cursor n = omega (arith, n)
  expand_loop-Fits later zoned (suc fuel) room none n = (omega arith, tt)
  expand_loop-Fits later zoned (suc fuel) zero (some c) n = (omega arith, tt)
  expand_loop-Fits later zoned (suc fuel) (suc room) (some c) n =
      let hit = is_current start (to_utc c + len) in
      let ih =
        expand_loop-Fits later zoned fuel (if hit then room else suc room) (r.after c false) in
      elim (Bool-cases (is_past end (to_utc c))) [
        | inl e ↦ rw e (omega arith, tt)
        | inr e ↦ rw e (
            cons_if-Fits (to_utc c) room
              (expand_loop r to_utc len start end fuel (if hit then room else suc room)
                (r.after c false))
              (is_past-Before end (to_utc c) e)
              (ih (
                needs-step start (to_utc c) len c room fuel (r.after c false) (later c) (zoned c)
                  n)))
      ]

-- The expansion ends, and what it gives is bounded and within the window.
abbrev pub IsWithin : ℕ → Option ℕ → Option ℕ → ℕ → Expansion → Type 0
IsWithin len start end limit (Expansion.times out) =
    (length out ≤ limit) × All (Overlaps len start end) out
IsWithin len start end limit Expansion.invalid = Unit
IsWithin len start end limit Expansion.overflow = Unit
IsWithin len start end limit Expansion.out_of_fuel = ⊥

ran-IsWithin :
    (len : ℕ) (start end : Option ℕ) (limit : ℕ) (o : Option (List Occurrence))
    → Fits len start end limit o
    → IsWithin len start end limit (ran o)
ran-IsWithin len start end limit none f = f
ran-IsWithin len start end limit (some out) f = f

needs-fuel_for :
    (start cursor : Option ℕ) (limit : ℕ) → needs start cursor limit < fuel_for start limit
needs-fuel_for none cursor limit = omega arith
needs-fuel_for (some start) none limit = omega arith
needs-fuel_for (some start) (some c) limit = omega arith

-- What is relied on of the rules that a clock reads.
abbrev pub ReadsRules : Clock → Type 0
ReadsRules clock =
    (text : String) (n : ℕ) (r : RecurrenceRule) → parse_rrule clock text n ≡ some r → Later r

expand_parsed-IsWithin :
    (clock : Clock) (first len : ℕ) (start end : Option ℕ) (limit : ℕ) (o : Option RecurrenceRule)
    → ((r : RecurrenceRule) → o ≡ some r → Later r)
    → Zoned clock.to_utc
    → IsWithin len start end limit (expand_parsed clock first len start end limit o)
expand_parsed-IsWithin clock first len start end limit none later zoned = tt
expand_parsed-IsWithin clock first len start end limit (some r) later zoned =
    elim (Option-cases (low start first len)) [
      | inl e ↦ rw e tt
      | inr (lo, e) ↦
          let cursor = r.after (clock.to_local lo) true in
          rw e (
            ran-IsWithin len start end limit
              (expand_loop r clock.to_utc len start end (fuel_for start limit) limit cursor)
              (expand_loop-Fits r clock.to_utc len start end (later r refl) zoned
                (fuel_for start limit) limit cursor (needs-fuel_for start cursor limit)))
    ]

-- Where a rule's next times are later ones and a clock is at most a day ahead of UTC, the expansion
-- of a rule ends within its fuel: at most `limit` times come of it, each as long as the first one,
-- beginning before the window's end and ending after its start; or the text is no rule, or the
-- window starts too early.
pub expand_rrule-IsWithin :
    (clock : Clock)
    → ReadsRules clock
    → Zoned clock.to_utc
    → (text : String) (first len : ℕ) (start end : Option ℕ) (limit : ℕ)
    → IsWithin len start end limit (expand_rrule clock text first len start end limit)
unfolding expand_rrule
expand_rrule-IsWithin clock reads zoned text first len start end limit =
    expand_parsed-IsWithin clock first len start end limit
      (parse_rrule clock text (clock.to_local first)) (reads text (clock.to_local first)) zoned
