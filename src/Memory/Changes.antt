-- ===== src/Memory/Changes.antt =====
-- The `changes` of an update: a dict from field names to values, as one option for each field.
-- The values have the field's type; names that are no field are kept in `unknown`.
use nd_mind.Base.{ℕ, String, Bool, true, false, ◌||◌, Option, none, List, [], ◌∷◌, is_some, get_or}
use nd_mind.Core.{ItemStatus, Kind, Modality, Sensitivity, Source, TimePrecision, Trust}
use nd_mind.Memory.Records.{DetailField, ItemContent}

pub record Changes : Type 0 where
  pub status : Option ItemStatus
  pub source : Option Source
  pub trust : Option Trust
  pub kind : Option Kind
  pub state : Option String
  pub text : Option String
  pub title : Option String
  pub category_id : Option (Option ℕ)
  pub subject_entity_id : Option (Option ℕ)
  pub predicate : Option (Option String)
  pub mentioned_at : Option ℕ
  pub occurred_start : Option (Option ℕ)
  pub occurred_end : Option (Option ℕ)
  pub time_precision : Option (Option TimePrecision)
  pub rrule : Option (Option String)
  pub due_at : Option (Option ℕ)
  pub valid_from : Option (Option ℕ)
  pub valid_to : Option (Option ℕ)
  pub modality : Option Modality
  pub confidence : Option ℕ
  pub sensitivity : Option Sensitivity
  pub access_count : Option ℕ
  pub last_accessed_at : Option (Option ℕ)
  pub in_core : Option Bool
  pub core_confirmed_at : Option (Option ℕ)
  pub in_quick : Option Bool
  pub quick_reason : Option (Option String)
  pub quick_until : Option (Option ℕ)
  pub details : DetailField → Option (Option String)
  -- Pulled out by the writer: the category to file under, by its slug.
  pub category_slug : Option String
  pub unknown : List String

-- `{}`
abbrev pub no_changes : Changes
no_changes = record {
  status = none;
  source = none;
  trust = none;
  kind = none;
  state = none;
  text = none;
  title = none;
  category_id = none;
  subject_entity_id = none;
  predicate = none;
  mentioned_at = none;
  occurred_start = none;
  occurred_end = none;
  time_precision = none;
  rrule = none;
  due_at = none;
  valid_from = none;
  valid_to = none;
  modality = none;
  confidence = none;
  sensitivity = none;
  access_count = none;
  last_accessed_at = none;
  in_core = none;
  core_confirmed_at = none;
  in_quick = none;
  quick_reason = none;
  quick_until = none;
  details = λ _. none;
  category_slug = none;
  unknown = [];
}

abbrev pub nonempty {ℓ} : {A : Type ℓ} → List A → Bool
nonempty [] = false
nonempty (_ ∷ _) = true

-- Some field of the quick layer is named (`QUICK_FIELDS`).
unfoldable pub names_quick : Changes → Bool
names_quick c = is_some c.in_quick || is_some c.quick_reason || is_some c.quick_until

-- Some detail other than the summary and the tags is named.
unfoldable pub names_inner_detail : Changes → Bool
names_inner_detail c =
    is_some (c.details DetailField.raw_content)
    || is_some (c.details DetailField.content_ref)
    || is_some (c.details DetailField.subtype)
    || is_some (c.details DetailField.format)
    || is_some (c.details DetailField.attributes)
    || is_some (c.details DetailField.enrichment)
    || is_some (c.details DetailField.rationale)
    || is_some (c.details DetailField.value)
    || is_some (c.details DetailField.sentiment)
    || is_some (c.details DetailField.rating)
    || is_some (c.details DetailField.importance)

-- One of the fields is named that a saved page may fill in.
unfoldable pub names_page_field : Changes → Bool
names_page_field c =
    is_some c.title
    || is_some (c.details DetailField.summary)
    || is_some (c.details DetailField.tags)

-- Something else is named.
unfoldable pub names_other : Changes → Bool
unfolding names_inner_detail
names_other c =
    is_some c.status
    || is_some c.source
    || is_some c.trust
    || is_some c.kind
    || is_some c.state
    || is_some c.text
    || is_some c.category_id
    || is_some c.subject_entity_id
    || is_some c.predicate
    || is_some c.mentioned_at
    || is_some c.occurred_start
    || is_some c.occurred_end
    || is_some c.time_precision
    || is_some c.rrule
    || is_some c.due_at
    || is_some c.valid_from
    || is_some c.valid_to
    || is_some c.modality
    || is_some c.confidence
    || is_some c.sensitivity
    || is_some c.access_count
    || is_some c.last_accessed_at
    || is_some c.in_core
    || is_some c.core_confirmed_at
    || is_some c.category_slug
    || names_inner_detail c
    || nonempty c.unknown

-- `any(k not in QUICK_FIELDS for k in changes)`
unfoldable pub content_changed : Changes → Bool
content_changed c = names_page_field c || names_other c

-- `{**before, **changes}`
unfoldable pub merge : ItemContent → Changes → ItemContent
merge b c = record {
  status = get_or c.status b.status;
  source = get_or c.source b.source;
  trust = get_or c.trust b.trust;
  kind = get_or c.kind b.kind;
  state = get_or c.state b.state;
  text = get_or c.text b.text;
  title = get_or c.title b.title;
  category_id = get_or c.category_id b.category_id;
  subject_entity_id = get_or c.subject_entity_id b.subject_entity_id;
  predicate = get_or c.predicate b.predicate;
  mentioned_at = get_or c.mentioned_at b.mentioned_at;
  occurred_start = get_or c.occurred_start b.occurred_start;
  occurred_end = get_or c.occurred_end b.occurred_end;
  time_precision = get_or c.time_precision b.time_precision;
  rrule = get_or c.rrule b.rrule;
  due_at = get_or c.due_at b.due_at;
  valid_from = get_or c.valid_from b.valid_from;
  valid_to = get_or c.valid_to b.valid_to;
  modality = get_or c.modality b.modality;
  confidence = get_or c.confidence b.confidence;
  sensitivity = get_or c.sensitivity b.sensitivity;
  access_count = get_or c.access_count b.access_count;
  last_accessed_at = get_or c.last_accessed_at b.last_accessed_at;
  in_core = get_or c.in_core b.in_core;
  core_confirmed_at = get_or c.core_confirmed_at b.core_confirmed_at;
  in_quick = get_or c.in_quick b.in_quick;
  quick_reason = get_or c.quick_reason b.quick_reason;
  quick_until = get_or c.quick_until b.quick_until;
  details = λ f. get_or (c.details f) (b.details f);
}
