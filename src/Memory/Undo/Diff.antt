-- ===== src/Memory/Undo/Diff.antt =====
-- `_inverse` of memory/undo.py for an update: the changes that give a row its old content again.
use nd_mind.Base.{
  ℕ, String, Bool, Option, none, some, [], ◌≡◌, str_eq, str_eq_iff, Bool-cases, inl, inr,
}
use nd_mind.Core.{ItemStatus, Kind, Modality, Sensitivity, Source, TimePrecision, Trust}
use nd_mind.Memory.Changes.{Changes}
use nd_mind.Memory.Records.{ItemContent}
use native.Mathlib.Decide.{ℕ_discrete}

-- The equality of values, which `!=` decides.
pub ItemStatus-discrete : Discrete ItemStatus
ItemStatus-discrete = hlevel

pub Source-discrete : Discrete Source
Source-discrete = hlevel

pub Trust-discrete : Discrete Trust
Trust-discrete = hlevel

pub Kind-discrete : Discrete Kind
Kind-discrete = hlevel

pub String-discrete : Discrete String
String-discrete a b = elim (Bool-cases (str_eq a b)) [
  | inl e ↦ yes ((str_eq_iff a b).0 e)
  | inr e ↦ no (λ w. cc ((str_eq_iff a b).1 w))
]

pub moment-discrete : Discrete (Option ℕ)
moment-discrete = hlevel (ℕ_discrete)

pub text-discrete : Discrete (Option String)
text-discrete = hlevel (String-discrete)

pub number-discrete : Discrete ℕ
number-discrete = ℕ_discrete

pub TimePrecision-discrete : Discrete (Option TimePrecision)
TimePrecision-discrete = hlevel

pub Modality-discrete : Discrete Modality
Modality-discrete = hlevel

pub Sensitivity-discrete : Discrete Sensitivity
Sensitivity-discrete = hlevel

pub Bool-discrete : Discrete Bool
Bool-discrete = hlevel

-- The old value where it differs from the new one.
abbrev pub if_other {ℓ} : {A : Type ℓ} {b a : A} → Dec (b ≡ a) → Option A
if_other (yes _) = none
if_other {b = b} (no _) = some b

-- The fields that differ, but for the access fields, with their values before.
unfoldable pub changes_back : ItemContent → ItemContent → Changes
changes_back b a = record {
  status = if_other (ItemStatus-discrete b.status a.status);
  source = if_other (Source-discrete b.source a.source);
  trust = if_other (Trust-discrete b.trust a.trust);
  kind = if_other (Kind-discrete b.kind a.kind);
  state = if_other (String-discrete b.state a.state);
  text = if_other (String-discrete b.text a.text);
  title = if_other (String-discrete b.title a.title);
  category_id = if_other (moment-discrete b.category_id a.category_id);
  subject_entity_id = if_other (moment-discrete b.subject_entity_id a.subject_entity_id);
  predicate = if_other (text-discrete b.predicate a.predicate);
  mentioned_at = if_other (number-discrete b.mentioned_at a.mentioned_at);
  occurred_start = if_other (moment-discrete b.occurred_start a.occurred_start);
  occurred_end = if_other (moment-discrete b.occurred_end a.occurred_end);
  time_precision = if_other (TimePrecision-discrete b.time_precision a.time_precision);
  rrule = if_other (text-discrete b.rrule a.rrule);
  due_at = if_other (moment-discrete b.due_at a.due_at);
  valid_from = if_other (moment-discrete b.valid_from a.valid_from);
  valid_to = if_other (moment-discrete b.valid_to a.valid_to);
  modality = if_other (Modality-discrete b.modality a.modality);
  confidence = if_other (number-discrete b.confidence a.confidence);
  sensitivity = if_other (Sensitivity-discrete b.sensitivity a.sensitivity);
  access_count = none;
  last_accessed_at = none;
  in_core = if_other (Bool-discrete b.in_core a.in_core);
  core_confirmed_at = if_other (moment-discrete b.core_confirmed_at a.core_confirmed_at);
  in_quick = if_other (Bool-discrete b.in_quick a.in_quick);
  quick_reason = if_other (text-discrete b.quick_reason a.quick_reason);
  quick_until = if_other (moment-discrete b.quick_until a.quick_until);
  details = λ f. if_other (text-discrete (b.details f) (a.details f));
  category_slug = none;
  unknown = [];
}
