-- ===== src/Ingestion/Reconcile.antt =====
-- ingestion/reconcile.py: how a proposed memory relates to what is stored. A score is in millionths,
-- an embedding is a number; the reader, the embedding and the model that chooses are arguments.
pub mod Decide
mod Others
pub mod Settled
pub mod Episodes
mod Tests
use Prim.Native.String.{◌++◌ as join}
use nd_mind.Base.{
  ℕ, zero, suc, String, Bool, true, false, not, ◌&&◌, ◌||◌, Option, none, some, List, [], ◌∷◌, ◌==◌,
  leb, ltb, if◌then◌else◌, any, filter, take, length, map, str_eq, is_some, get_or,
}
use nd_mind.Base.Dict.{Dict, lookup, insert, values}
use nd_mind.Core.Vocabulary.{Kind, EntityKind, EntityRole, ItemStatus, TimePrecision}
use nd_mind.Memory.Records.{DetailField, ItemContent, ItemRecord, ItemEntityRecord}

-- An entity that a draft names, with its role and kind.
pub record DraftEntity : Type 0 where
  pub entity_id : ℕ
  pub role : EntityRole
  pub kind : EntityKind

pub record Draft : Type 0 where
  pub item_id : ℕ
  pub content : ItemContent
  pub entities : List DraftEntity

-- `ReconcileDecision`
pub data ReconcileDecision : Type 0 where
  new add_detail supersede fulfil link no_op : ReconcileDecision

pub record Decision : Type 0 where
  pub decision : ReconcileDecision
  pub candidate : Option ItemRecord
  pub score : Option ℕ
  pub rule : String

pub record ItemQuery : Type 0 where
  pub kind : Kind
  pub states : List String
  pub entity_id : Option ℕ
  pub subject_entity_id : Option ℕ
  pub predicate : Option String
  pub current_only : Bool
  pub limit : Option ℕ

pub record Reader : Type 0 where
  pub find_items : ItemQuery → List ItemRecord
  pub items : List ℕ → List ItemRecord
  pub item_entities : List ℕ → List ItemEntityRecord
  pub similar_items : ℕ → List (ℕ × ℕ)

-- An item's value, read from its JSON, with what the code reads of it as texts.
pub record ValueFields : Type 0 where
  pub text : String
  pub number : String
  pub unit : String

-- What the code uses of Python's texts and of JSON.
pub record Texts : Type 0 where
  -- `" ".join(text.lower().split())`
  pub squeeze : String → String
  -- `str(…).strip().lower()`
  pub trim : String → String
  -- none where there is no value, or an empty one
  pub value_of : Option String → Option ValueFields
  -- with none for a value that is null
  pub attributes_of : Option String → List (String × Option String)

-- The candidates with their scores, to a decision, an index and a reason; none is no index, or a
-- negative one.
abbrev pub Candidate : Type 0
Candidate = ItemRecord × Option ℕ

abbrev pub Chooser : Type 0
Chooser = Draft → List Candidate → ReconcileDecision × Option ℕ × String

pub record Reconciler : Type 0 where
  pub reader : Reader
  pub texts : Texts
  pub threshold : ℕ
  pub embed : Option (String → Option ℕ)
  pub choose : Option Chooser

abbrev is_thing_kind : EntityKind → Bool
is_thing_kind EntityKind.work = true
is_thing_kind EntityKind.thing = true
is_thing_kind EntityKind.place = true
is_thing_kind EntityKind.topic = true
is_thing_kind EntityKind.project = true
is_thing_kind _ = false

abbrev pub is_thing_role : EntityRole → Bool
is_thing_role EntityRole.about = true
is_thing_role EntityRole.at = true
is_thing_role EntityRole.part_of = true
is_thing_role _ = false

-- `Draft.things`
unfoldable pub things : List DraftEntity → List ℕ
things [] = []
things (e ∷ es) =
    let rest = things es in
    if is_thing_kind e.kind && is_thing_role e.role then e.entity_id ∷ rest else rest

abbrev pub is_in : ℕ → List ℕ → Bool
is_in k xs = any (λ j. j == k) xs

abbrev all_in : List ℕ → List ℕ → Bool
all_in [] ys = true
all_in (x ∷ xs) ys = is_in x ys && all_in xs ys

-- Two sets are equal.
abbrev pub same_set : List ℕ → List ℕ → Bool
same_set xs ys = all_in xs ys && all_in ys xs

abbrev pub same_text : Option String → Option String → Bool
same_text none none = true
same_text (some s) (some t) = str_eq s t
same_text _ _ = false

abbrev pub same_number : Option ℕ → Option ℕ → Bool
same_number none none = true
same_number (some a) (some b) = a == b
same_number _ _ = false

abbrev precision_index : TimePrecision → ℕ
precision_index TimePrecision.datetime = 0
precision_index TimePrecision.day = 1
precision_index TimePrecision.month = 2
precision_index TimePrecision.year = 3

abbrev pub same_precision : Option TimePrecision → Option TimePrecision → Bool
same_precision none none = true
same_precision (some p) (some q) = precision_index p == precision_index q
same_precision _ _ = false

abbrev pub same_subtype : ItemContent → ItemContent → Bool
same_subtype a b = same_text (a.details DetailField.subtype) (b.details DetailField.subtype)

-- `_value_key`
abbrev value_key : Texts → ValueFields → String × String
value_key t v =
    let text = t.trim v.text in (if str_eq text "" then v.number else text, t.trim v.unit)

abbrev same_values : Texts → Option ValueFields → Option ValueFields → String → String → Bool
same_values t (some a) (some b) s s' =
    str_eq (value_key t a).0 (value_key t b).0 && str_eq (value_key t a).1 (value_key t b).1
same_values t _ _ s s' = str_eq (t.squeeze s) (t.squeeze s')

-- `same_value`
unfoldable pub same_value : Texts → ItemContent → ItemContent → Bool
same_value t old content =
    same_values t (t.value_of (old.details DetailField.value))
      (t.value_of (content.details DetailField.value)) old.text content.text

-- `attributes.get(k)`, none for a null too
abbrev attribute_of : String → List (String × Option String) → Option String
attribute_of k [] = none
attribute_of k ((j, v) ∷ rest) = let later = attribute_of k rest in if str_eq j k then v else later

abbrev adds_attribute : List (String × Option String) → List (String × Option String) → Bool
adds_attribute [] stored = false
adds_attribute ((k, v) ∷ rest) stored =
    not (same_text (attribute_of k stored) v) || adds_attribute rest stored

abbrev has_text : Option String → Bool
has_text none = false
has_text (some s) = not (str_eq s "")

-- `adds_detail`
unfoldable pub adds_detail : Texts → ItemContent → ItemContent → Bool
adds_detail t stored content =
    adds_attribute (t.attributes_of (content.details DetailField.attributes))
      (t.attributes_of (stored.details DetailField.attributes))
    || has_text (content.details DetailField.summary)
      && not (has_text (stored.details DetailField.summary))

abbrev pub decided : ReconcileDecision → ItemRecord → String → Decision
decided d item rule = record {
  decision = d;
  candidate = some item;
  score = some 1000000;
  rule = rule;
}

abbrev pub nothing : String → Decision
nothing rule = record {
  decision = ReconcileDecision.new;
  candidate = none;
  score = none;
  rule = rule;
}

abbrev pub at_index : ℕ → List Candidate → Option Candidate
at_index i [] = none
at_index zero (c ∷ cs) = some c
at_index (suc i) (c ∷ cs) = at_index i cs

abbrev pub chosen_at :
    List Candidate → String → ReconcileDecision × Option ℕ × String → Option Candidate → Decision
chosen_at candidates why (d, i, reason) none = nothing (join why (join "; model: " reason))
chosen_at candidates why (d, i, reason) (some (item, score)) = record {
  decision = d;
  candidate = some item;
  score = score;
  rule = join why (join "; model: " reason);
}

abbrev pub index_of : List Candidate → Option ℕ → Option Candidate
index_of candidates none = none
index_of candidates (some i) = at_index i candidates

-- The candidate of a model's answer; none with the decision that the memory is new.
abbrev pub picked : List Candidate → ReconcileDecision → Option ℕ → Option Candidate
picked candidates ReconcileDecision.new i = none
picked candidates d i = index_of candidates i

-- `_ask`
unfoldable pub ask : Option Chooser → Draft → List Candidate → String → Decision
ask none draft candidates why = nothing (join why "; no model to decide")
ask (some choose) draft candidates why =
    let answer = choose draft candidates in
    chosen_at candidates why answer (picked candidates answer.0 answer.1)

abbrev pub query : Kind → List String → Option ℕ → Option ℕ → ItemQuery
query kind states entity_id limit = record {
  kind = kind;
  states = states;
  entity_id = entity_id;
  subject_entity_id = none;
  predicate = none;
  current_only = false;
  limit = limit;
}

abbrev pub wishes_for : Reader → ℕ → List ItemRecord
wishes_for r thing =
    r.find_items (query Kind.intention ("wanted" ∷ "active" ∷ []) (some thing) none)

abbrev pub head_or : List ItemRecord → Option ItemRecord → Option ItemRecord
head_or [] later = later
head_or (i ∷ is) later = some i

-- The first wish for one of the things.
unfoldable pub first_wish : Reader → List ℕ → Option ItemRecord
first_wish r [] = none
first_wish r (thing ∷ rest) = head_or (wishes_for r thing) (first_wish r rest)

abbrev pub entities_of : ℕ → List ItemEntityRecord → List ℕ
entities_of item [] = []
entities_of item (l ∷ links) =
    let rest = entities_of item links in if l.item_id == item then l.entity_id ∷ rest else rest

abbrev pub draft_entities : List DraftEntity → List ℕ
draft_entities [] = []
draft_entities (e ∷ es) = e.entity_id ∷ draft_entities es

-- The same time, precision and subtype.
abbrev pub is_same_moment : ItemContent → ItemContent → Bool
is_same_moment a b =
    same_number a.occurred_start b.occurred_start
    && same_precision a.time_precision b.time_precision
    && same_subtype a b

unfoldable pub find_same :
    ItemContent → List ℕ → List ItemEntityRecord → List ItemRecord → Option ItemRecord
find_same content mine links [] = none
find_same content mine links (e ∷ es) =
    let later = find_same content mine links es in
    if is_same_moment e.content content && same_set (entities_of e.id links) mine
    then some e
    else later

abbrev pub ids_of : List ItemRecord → List ℕ
ids_of [] = []
ids_of (i ∷ is) = i.id ∷ ids_of is

abbrev pub first_thing : List ℕ → Option ℕ
first_thing [] = none
first_thing (t ∷ ts) = some t

abbrev pub same_episode : Reader → Draft → Option ItemRecord
same_episode r draft =
    let found =
      r.find_items (query Kind.episode [] (first_thing (things draft.entities)) (some 50)) in
    find_same draft.content (draft_entities draft.entities) (r.item_entities (ids_of found)) found

abbrev pub dated_episode : Reader → Draft → Option ℕ → Option ItemRecord
dated_episode r draft none = none
dated_episode r draft (some start) = same_episode r draft

abbrev pub episode_or : Option ItemRecord → Decision
episode_or none = nothing "episodes never merge"
episode_or (some e) = decided ReconcileDecision.no_op e "same time, entities and subtype"

abbrev pub wish_or : Option ItemRecord → Option ItemRecord → Decision
wish_or (some w) e = decided ReconcileDecision.fulfil w "episode about something on the wish list"
wish_or none e = episode_or e

-- `_episode`
unfoldable pub episode : Reader → Draft → Decision
episode r draft =
    wish_or (first_wish r (things draft.entities))
      (dated_episode r draft draft.content.occurred_start)
