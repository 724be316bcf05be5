-- ===== src/Memory/Quick.antt =====
-- memory/quick.py: whether an item belongs to the quick layer, why, and until when.
pub mod Grounds
pub mod Until
mod Tests
use nd_mind.Base.{
  ℕ, ◌+◌, ◌-◌, ◌*◌, String, Bool, true, false, not, ◌&&◌, ◌||◌, Option, none, some, List, [], ◌∷◌,
  ◌++◌, ltb, leb, if◌then◌else◌, max, str_eq,
}
use nd_mind.Core.{Kind, TimePrecision, TriggerOn, TriggerState}
use nd_mind.Memory.Records.{ItemContent, TriggerContent}
use nd_mind.Memory.Recurrence.{Clock, Expansion, Occurrence, day, expand_rrule}

pub data QuickReason : Type 0 where
  plan_within pending_reminder open_task mentioned frequently_retrieved : QuickReason

pub record QuickDecision : Type 0 where
  pub in_quick : Bool
  pub reason : Option QuickReason
  pub until : Option ℕ

-- `occurrence_length`
abbrev pub occurrence_length : Option TimePrecision → ℕ
occurrence_length (some TimePrecision.datetime) = 3600000000
occurrence_length (some TimePrecision.month) = 31 * day
occurrence_length (some TimePrecision.year) = 366 * day
occurrence_length _ = day

-- `if item.rrule`
abbrev rule_text : Option String → Option String
rule_text none = none
rule_text (some s) = if str_eq s "" then none else some s

abbrev end_or : Option ℕ → ℕ → ℕ
end_or none end = end
end_or (some end) _ = end

-- What an expansion to one occurrence gives; none where it raises.
abbrev first_of : Expansion → Option (Option Occurrence)
first_of (Expansion.times []) = some none
first_of (Expansion.times (o ∷ os)) = some (some o)
first_of _ = none

abbrev occurrence_of :
    Clock → ItemContent → ℕ → Option ℕ → Option String → Option (Option Occurrence)
occurrence_of clock item now none rule = some none
occurrence_of clock item now (some start) (some rule) =
    first_of
      (expand_rrule clock rule start (occurrence_length item.time_precision) (some now) none 1)
occurrence_of clock item now (some start) none =
    some (some (start, end_or item.occurred_end (start + occurrence_length item.time_precision)))

-- `next_occurrence`; the length of an item with an end is only used for its end.
unfoldable pub next_occurrence : Clock → ItemContent → ℕ → Option (Option Occurrence)
next_occurrence clock item now =
    occurrence_of clock item now item.occurred_start (rule_text item.rrule)

abbrev times_of :
    Clock → ItemContent → Option ℕ → Option ℕ → ℕ → Option ℕ → Option String → Expansion
times_of clock item start end limit (some first) (some rule) =
    expand_rrule clock rule first (occurrence_length item.time_precision) start end limit
times_of clock item start end limit _ _ = Expansion.times []

-- `occurrences`
unfoldable pub occurrences : Clock → ItemContent → Option ℕ → Option ℕ → ℕ → Expansion
occurrences clock item start end limit =
    times_of clock item start end limit item.occurred_start (rule_text item.rrule)

-- A reason with its end, if it has one.
abbrev pub Ground : Type 0
Ground = QuickReason × Option ℕ

abbrev is_plan : Kind → Bool
is_plan Kind.plan = true
is_plan _ = false

abbrev pub is_task : Kind → Bool
is_task Kind.task = true
is_task _ = false

abbrev pub plan_ground : ℕ → ℕ → Option Occurrence → List Ground
plan_ground now horizon none = []
plan_ground now horizon (some o) =
    if leb o.0 (now + horizon * day) && ltb now o.1
    then (QuickReason.plan_within, some o.1) ∷ []
    else []

abbrev pub is_pending : TriggerState → TriggerOn → Option ℕ → ℕ → Option ℕ
is_pending TriggerState.pending TriggerOn.time (some at) now = if leb now at then some at else none
is_pending _ _ _ now = none

abbrev pub later : Option ℕ → Option ℕ → Option ℕ
later none b = b
later (some a) none = some a
later (some a) (some b) = some (max a b)

-- When the last pending time trigger fires, if there is one.
abbrev pub last_pending : ℕ → List TriggerContent → Option ℕ
last_pending now [] = none
last_pending now (t ∷ ts) = later (is_pending t.state t.on t.fires_at now) (last_pending now ts)

abbrev pub pending_ground : Option ℕ → List Ground
pending_ground none = []
pending_ground (some at) = (QuickReason.pending_reminder, some at) ∷ []

abbrev pub recent_ground : ℕ → ℕ → ℕ → List Ground
recent_ground now recent mentioned_at =
    if ltb 0 recent && ltb now (mentioned_at + recent * day)
    then (QuickReason.mentioned, some (mentioned_at + recent * day)) ∷ []
    else []

-- All the reasons, in order, for an item with its next occurrence.
abbrev pub grounds :
    ItemContent → ℕ → List TriggerContent → ℕ → ℕ → Bool → Option Occurrence → List Ground
grounds item now triggers horizon recent frequent next =
    plan_ground now horizon next
    ++ (pending_ground (last_pending now triggers)
        ++ ((if is_task item.kind && str_eq item.state "open"
              then (QuickReason.open_task, none) ∷ []
              else [])
            ++ (recent_ground now recent item.mentioned_at
                ++ (if frequent
                    then (QuickReason.frequently_retrieved, some (now + max recent 1 * day)) ∷ []
                    else []))))

-- No end, if one of them has none; else the last.
abbrev pub last_end : Option ℕ → List Ground → Option ℕ
last_end none gs = none
last_end (some a) [] = some a
last_end (some a) ((r, none) ∷ gs) = none
last_end (some a) ((r, some b) ∷ gs) = last_end (some (max a b)) gs

unfoldable pub decide : List Ground → QuickDecision
decide [] = record { in_quick = false; reason = none; until = none }
decide ((r, u) ∷ gs) = record { in_quick = true; reason = some r; until = last_end u gs }

abbrev decide_with :
    ItemContent
    → ℕ
    → List TriggerContent
    → ℕ
    → ℕ
    → Bool
    → Option (Option Occurrence)
    → Option QuickDecision
decide_with item now triggers horizon recent frequent none = none
decide_with item now triggers horizon recent frequent (some next) =
    some (decide (grounds item now triggers horizon recent frequent next))

abbrev pub plan_time : Clock → ItemContent → ℕ → Option (Option Occurrence)
plan_time clock item now =
    if is_plan item.kind && str_eq item.state "scheduled"
    then next_occurrence clock item now
    else some none

-- `quick_layer`; none where the item's rule raises.
unfoldable pub quick_layer :
    Clock → ItemContent → ℕ → List TriggerContent → ℕ → ℕ → Bool → Option QuickDecision
quick_layer clock item now triggers horizon recent frequent =
    decide_with item now triggers horizon recent frequent (plan_time clock item now)
