-- ===== src/Memory/Recurrence/Tests.antt =====
-- A rule of every tenth moment, on a clock five moments ahead of UTC.
use nd_mind.Base.{
  ℕ, suc, ◌+◌, ◌-◌, ◌*◌, ◌/◌, ◌%◌, ◌==◌, Bool, true, false, some, List, [], ◌∷◌, ◌≡◌, refl, arith,
  if◌then◌else◌,
}
use mathlib.Core.Path.{subst}
use nd_mind.Memory.Recurrence.{
  Clock, Expansion, Occurrence, RecurrenceRule, RuleText, expand_loop, expand_rrule,
  next_occurrence_of,
}
use nd_mind.Memory.Recurrence.Complete.{Finds, Has, expand_rrule-Has}
use nd_mind.Memory.Recurrence.Window.{IsWithin, Later, ReadsRules, expand_rrule-IsWithin}

abbrev tenth : ℕ → Bool
tenth n = n % 10 == 5

-- The first such moment that is at least `c`, or after it.
abbrev tens : RecurrenceRule
tens = record { after = λ c inc. some (((if inc then c else suc c) + 4) / 10 * 10 + 5) }

abbrev clock : Clock
clock = record {
  rrulestr = λ text n. RuleText.one tens;
  remove_prefix = λ text. text;
  to_utc = λ c. c - 5;
  to_local = λ u. u + 5;
}

expanded :
    expand_rrule clock "FREQ=DAILY" 0 4 (some 22) (some 50) 100
    ≡ Expansion.times ((20, 24) ∷ (30, 34) ∷ (40, 44) ∷ [])
unfolding expand_rrule expand_loop
expanded = refl

running : next_occurrence_of clock "FREQ=DAILY" 0 4 22 ≡ some (20, 24)
unfolding expand_rrule expand_loop
running = refl

tens-Later : Later tens
tens-Later c d e = ground arith

clock-ReadsRules : ReadsRules clock
clock-ReadsRules text n r e = let w : tens ≡ r = cc in subst Later w tens-Later

expand_rrule-IsWithin_example :
    IsWithin 4 (some 22) (some 50) 100 (expand_rrule clock "FREQ=DAILY" 0 4 (some 22) (some 50) 100)
expand_rrule-IsWithin_example =
    expand_rrule-IsWithin clock clock-ReadsRules (λ c. omega arith) "FREQ=DAILY" 0 4 (some 22)
      (some 50) 100

tens-Finds : Finds tens tenth
tens-Finds c x true o le = (((c + 4) / 10 * 10 + 5), refl, ground arith)
tens-Finds c x false o le = (((suc c + 4) / 10 * 10 + 5), refl, ground arith)

abbrev three : List Occurrence
three = (20, 24) ∷ (30, 34) ∷ (40, 44) ∷ []

-- The window starts within this time.
expand_rrule-Has_example : Has (20, 24) 100 three
unfolding expand_rrule expand_loop
expand_rrule-Has_example =
    expand_rrule-Has clock "FREQ=DAILY" 0 4 (some 22) (some 50) 100 tens tenth 18 25 three refl refl
      tens-Finds (record { follows = λ c le. omega arith; shows = λ u le. omega arith }) refl tt
      (omega arith) (omega arith) refl
