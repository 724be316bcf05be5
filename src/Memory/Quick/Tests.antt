-- ===== src/Memory/Quick/Tests.antt =====
-- A plan of tomorrow that was mentioned a while ago.
use nd_mind.Base.{true, some, [], ◌≡◌, refl, ◌*◌}
use nd_mind.Core.{Kind}
use nd_mind.Memory.Fixtures.{fact}
use nd_mind.Memory.Records.{ItemContent}
use nd_mind.Memory.Recurrence.{Clock, Occurrence, RuleText, day}
use nd_mind.Memory.Quick.{QuickDecision, QuickReason, decide, next_occurrence, quick_layer}
use nd_mind.Memory.Quick.Until.{IsTimely, quick_layer-IsTimely}

abbrev no_rules : Clock
no_rules = record {
  rrulestr = λ text n. RuleText.invalid;
  remove_prefix = λ text. text;
  to_utc = λ c. c;
  to_local = λ u. u;
}

abbrev plan : ItemContent
plan = record fact { kind = Kind.plan; state = "scheduled"; occurred_start = some (31 * day) }

abbrev tomorrow : Occurrence
tomorrow = (31 * day, 32 * day)

kept :
    quick_layer no_rules plan (30 * day) [] 7 2 true
    ≡ some
        (record { in_quick = true; reason = some QuickReason.plan_within; until = some (32 * day) })
unfolding quick_layer decide next_occurrence
kept = refl

quick_layer-IsTimely_example :
    (d : QuickDecision) × (quick_layer no_rules plan (30 * day) [] 7 2 true ≡ some d)
    × IsTimely plan (30 * day) [] 7 2 true (some tomorrow) d
unfolding next_occurrence
quick_layer-IsTimely_example =
    quick_layer-IsTimely no_rules plan (30 * day) [] 7 2 true (some tomorrow) refl
