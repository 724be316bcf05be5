-- ===== src/Memory/Recurrence.antt =====
-- memory/recurrence.py: recurring times. A moment, of UTC or of a local clock, is a number of
-- microseconds; rules and zones are the libraries'.
pub mod Complete
pub mod Window
mod Tests
use nd_mind.Base.{
  ℕ, zero, suc, ◌+◌, ◌-◌, String, Bool, true, false, not, Option, none, some, List, [], ◌∷◌, ltb,
  leb, if◌then◌else◌,
}

-- An rrule: `after(moment, inc)`, on a local clock.
pub record RecurrenceRule : Type 0 where
  pub after : ℕ → Bool → Option ℕ

-- What `rrulestr` reads: a rule, a set of rules, or an error.
pub data RuleText : Type 0 where
  one : RecurrenceRule → RuleText
  rule_set invalid : RuleText

pub record Clock : Type 0 where
  pub rrulestr : String → ℕ → RuleText
  pub remove_prefix : String → String
  -- A local moment of a zone as UTC, and back.
  pub to_utc : ℕ → ℕ
  pub to_local : ℕ → ℕ

abbrev one_rule : RuleText → Option RecurrenceRule
one_rule (RuleText.one r) = some r
one_rule _ = none

-- `parse_rrule`; none is the ValueError.
abbrev pub parse_rrule : Clock → String → ℕ → Option RecurrenceRule
parse_rrule clock rule local_start =
    one_rule (clock.rrulestr (clock.remove_prefix rule) local_start)

abbrev after_first : Option RecurrenceRule → ℕ → Option (Option ℕ)
after_first none after = none
after_first (some r) after = some (r.after after true)

-- `first_local_occurrence`
abbrev pub first_local_occurrence : Clock → String → ℕ → ℕ → Option (Option ℕ)
first_local_occurrence clock rule local_start after =
    after_first (parse_rrule clock rule local_start) after

abbrev pub Occurrence : Type 0
Occurrence = ℕ × ℕ

-- `end is not None and begins >= end`
abbrev pub is_past : Option ℕ → ℕ → Bool
is_past none begins = false
is_past (some end) begins = leb end begins

-- `start is None or ends > start`
abbrev pub is_current : Option ℕ → ℕ → Bool
is_current none ends = true
is_current (some start) ends = ltb start ends

abbrev pub cons_if {ℓ} : {A : Type ℓ} → Bool → A → Option (List A) → Option (List A)
cons_if hit x none = none
cons_if hit x (some xs) = if hit then some (x ∷ xs) else some xs

-- The loop of `expand_rrule`, with room for so many occurrences more; none if the fuel runs out.
unfoldable pub expand_loop :
    RecurrenceRule → (ℕ → ℕ) → ℕ → Option ℕ → Option ℕ → ℕ → ℕ → Option ℕ → Option (List Occurrence)
expand_loop r to_utc length start end zero room cursor = none
expand_loop r to_utc length start end (suc fuel) room none = some []
expand_loop r to_utc length start end (suc fuel) zero (some c) = some []
expand_loop r to_utc length start end (suc fuel) (suc room) (some c) =
    let begins = to_utc c in
    let hit = is_current start (begins + length) in
    let rest =
      expand_loop r to_utc length start end fuel (if hit then room else suc room)
        (r.after c false) in
    if is_past end begins then some [] else cons_if hit (begins, begins + length) rest

abbrev pub day : ℕ
day = 86400000000

-- Enough for each occurrence that is taken and for each moment before the window.
abbrev pub fuel_for : Option ℕ → ℕ → ℕ
fuel_for none limit = suc limit
fuel_for (some start) limit = suc (limit + suc (start + day))

-- `(start - length) if start is not None else first`; a difference before the first moment raises.
abbrev pub low : Option ℕ → ℕ → ℕ → Option ℕ
low none first length = some first
low (some start) first length = if ltb start length then none else some (start - length)

pub data Expansion : Type 0 where
  times : List Occurrence → Expansion
  invalid overflow out_of_fuel : Expansion

abbrev pub ran : Option (List Occurrence) → Expansion
ran none = Expansion.out_of_fuel
ran (some out) = Expansion.times out

abbrev pub expand_from : Clock → ℕ → Option ℕ → Option ℕ → ℕ → RecurrenceRule → Option ℕ → Expansion
expand_from clock length start end limit r none = Expansion.overflow
expand_from clock length start end limit r (some lo) = ran (
    expand_loop r clock.to_utc length start end (fuel_for start limit) limit
      (r.after (clock.to_local lo) true))

abbrev pub expand_parsed :
    Clock → ℕ → ℕ → Option ℕ → Option ℕ → ℕ → Option RecurrenceRule → Expansion
expand_parsed clock first length start end limit none = Expansion.invalid
expand_parsed clock first length start end limit (some r) =
    expand_from clock length start end limit r (low start first length)

-- `expand_rrule`
unfoldable pub expand_rrule : Clock → String → ℕ → ℕ → Option ℕ → Option ℕ → ℕ → Expansion
expand_rrule clock rrule first length start end limit =
    expand_parsed clock first length start end limit
      (parse_rrule clock rrule (clock.to_local first))

abbrev pub head_of : Expansion → Option Occurrence
head_of (Expansion.times (x ∷ xs)) = some x
head_of _ = none

-- `next_occurrence_of`, where it does not raise.
abbrev pub next_occurrence_of : Clock → String → ℕ → ℕ → ℕ → Option Occurrence
next_occurrence_of clock rrule first length now =
    head_of (expand_rrule clock rrule first length (some now) none 1)
