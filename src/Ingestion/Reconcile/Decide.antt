-- ===== src/Ingestion/Reconcile/Decide.antt =====
-- ingestion/reconcile.py: `Reconciler.decide`.
use nd_mind.Base.{
  ℕ, String, Bool, true, false, not, ◌&&◌, ◌||◌, Option, none, some, List, [], ◌∷◌, ◌==◌, leb,
  if◌then◌else◌, take, str_eq,
}
use nd_mind.Base.Dict.{Dict, lookup, insert, values}
use nd_mind.Core.Vocabulary.{Kind, EntityKind, ItemStatus}
use nd_mind.Memory.Records.{ItemRecord, ItemEntityRecord}
use nd_mind.Ingestion.Reconcile.{
  Draft, DraftEntity, ReconcileDecision, Decision, Reader, Candidate, Reconciler, things, is_in,
  is_thing_role, same_subtype, same_value, adds_detail, decided, nothing, ask, query, wishes_for,
  episode,
}

-- The first item of another identifier.
abbrev pub first_other : ℕ → List ItemRecord → Option ItemRecord
first_other id [] = none
first_other id (i ∷ is) = let later = first_other id is in if i.id == id then later else some i

-- A stored wish like the draft's, other than itself.
unfoldable pub like_wish : Draft → List ItemRecord → Option ItemRecord
like_wish draft [] = none
like_wish draft (w ∷ ws) =
    let later = like_wish draft ws in
    if same_subtype w.content draft.content && not (w.id == draft.item_id) then some w else later

abbrev pub some_or : Option ItemRecord → Option ItemRecord → Option ItemRecord
some_or (some w) later = some w
some_or none later = later

-- `_same_wish`
unfoldable pub same_wish : Reader → Draft → List ℕ → Option ItemRecord
same_wish r draft [] = none
same_wish r draft (thing ∷ rest) =
    some_or (like_wish draft (wishes_for r thing)) (same_wish r draft rest)

abbrev pub is_self : EntityKind → Bool
is_self EntityKind.self = true
is_self _ = false

-- The plans like the draft's, by their identifiers.
unfoldable pub add_plans : Draft → List ItemRecord → Dict ItemRecord → Dict ItemRecord
add_plans draft [] out = out
add_plans draft (p ∷ ps) out = add_plans draft ps (
    if same_subtype p.content draft.content && not (p.id == draft.item_id)
    then insert p.id p out
    else out)

unfoldable pub plans_of : Reader → Draft → List DraftEntity → Dict ItemRecord → Dict ItemRecord
plans_of r draft [] out = out
plans_of r draft (e ∷ es) out = plans_of r draft es (
    if is_self e.kind
    then out
    else add_plans draft (r.find_items (query Kind.plan ("scheduled" ∷ []) (some e.entity_id) none))
        out)

abbrev pub unscored : List ItemRecord → List Candidate
unscored [] = []
unscored (i ∷ is) = (i, none) ∷ unscored is

-- `_related_plans`, each with no score
unfoldable pub related_plans : Reader → Draft → List Candidate
related_plans r draft = unscored (take 5 (values (plans_of r draft draft.entities [])))

unfoldable pub close_to : ℕ → List (ℕ × ℕ) → List (ℕ × ℕ)
close_to threshold [] = []
close_to threshold ((id, score) ∷ found) =
    let rest = close_to threshold found in if leb threshold score then (id, score) ∷ rest else rest

abbrev pub firsts : List (ℕ × ℕ) → List ℕ
firsts [] = []
firsts ((id, score) ∷ found) = id ∷ firsts found

abbrev pub by_id : List ItemRecord → Dict ItemRecord → Dict ItemRecord
by_id [] out = out
by_id (i ∷ is) out = by_id is (insert i.id i out)

abbrev pub keys_of : Dict ItemRecord → List ℕ
keys_of [] = []
keys_of ((k, i) ∷ d) = k ∷ keys_of d

abbrev pub is_active : ItemStatus → Bool
is_active ItemStatus.active = true
is_active _ = false

abbrev pub is_episode : Kind → Bool
is_episode Kind.episode = true
is_episode _ = false

-- `_thing_ids`
abbrev pub thing_ids : List ItemEntityRecord → ℕ → List ℕ
thing_ids [] item = []
thing_ids (l ∷ links) item =
    let rest = thing_ids links item in
    if l.item_id == item && is_thing_role l.role then l.entity_id ∷ rest else rest

abbrev pub shares : List ℕ → List ℕ → Bool
shares [] ys = false
shares (x ∷ xs) ys = is_in x ys || shares xs ys

abbrev pub is_nil : List ℕ → Bool
is_nil [] = true
is_nil (x ∷ xs) = false

-- An item that a similar memory may be decided against.
unfoldable pub is_candidate : Draft → List ItemEntityRecord → ItemRecord → Bool
is_candidate draft links item =
    let mine = things draft.entities in
    let theirs = thing_ids links item.id in
    is_active item.content.status
    && not (item.id == draft.item_id)
    && not (is_episode item.content.kind || is_episode draft.content.kind)
    && (is_nil mine || is_nil theirs || shares mine theirs)

abbrev pub keep_candidate :
    Draft → List ItemEntityRecord → ℕ → Option ItemRecord → List Candidate → List Candidate
keep_candidate draft links score none rest = rest
keep_candidate draft links score (some item) rest =
    if is_candidate draft links item then (item, some score) ∷ rest else rest

unfoldable pub candidates_of :
    Draft → Dict ItemRecord → List ItemEntityRecord → List (ℕ × ℕ) → List Candidate
candidates_of draft items links [] = []
candidates_of draft items links ((id, score) ∷ close) =
    keep_candidate draft links score (lookup id items) (candidates_of draft items links close)

abbrev pub ask_some : Reconciler → Draft → String → String → List Candidate → Decision
ask_some s draft why otherwise [] = nothing otherwise
ask_some s draft why otherwise (c ∷ cs) = ask s.choose draft (c ∷ cs) why

abbrev pub similar_close : Reconciler → Draft → List (ℕ × ℕ) → Decision
similar_close s draft [] = nothing "nothing similar above the threshold"
similar_close s draft (c ∷ close) =
    let items = by_id (s.reader.items (firsts (c ∷ close))) [] in
    let links = s.reader.item_entities (keys_of items) in
    ask_some s draft "similar keys" "similar items are about different things"
      (candidates_of draft items links (c ∷ close))

abbrev pub similar_to : Reconciler → Draft → Option ℕ → Decision
similar_to s draft none = nothing "similarity unavailable"
similar_to s draft (some vector) =
    similar_close s draft (close_to s.threshold (s.reader.similar_items vector))

abbrev pub similar_by : Reconciler → Draft → Option (String → Option ℕ) → Decision
similar_by s draft none = nothing "no similar memories"
similar_by s draft (some embed) = similar_to s draft (embed draft.content.text)

-- `_similar`
unfoldable pub similar : Reconciler → Draft → Decision
similar s draft = similar_by s draft s.embed

abbrev pub wish_decision : Reconciler → Draft → Option ItemRecord → Decision
wish_decision s draft none = similar s draft
wish_decision s draft (some w) =
    if adds_detail s.texts w.content draft.content
    then decided ReconcileDecision.add_detail w "same wish, with more detail"
    else decided ReconcileDecision.no_op w "same wish saved again"

abbrev pub plan_decision : Reconciler → Draft → List Candidate → Decision
plan_decision s draft [] = similar s draft
plan_decision s draft (c ∷ cs) = ask s.choose draft (c ∷ cs) "plan for the same thing"

-- What is decided by the draft's kind alone; with no entities there are no related plans.
abbrev pub by_kind : Reconciler → Draft → Kind → Decision
by_kind s draft Kind.episode = episode s.reader draft
by_kind s draft Kind.intention =
    wish_decision s draft (same_wish s.reader draft (things draft.entities))
by_kind s draft Kind.plan = plan_decision s draft (related_plans s.reader draft)
by_kind s draft _ = similar s draft

abbrev pub is_statement : Kind → Bool
is_statement Kind.fact = true
is_statement Kind.preference = true
is_statement _ = false

-- The current item with the draft's subject and predicate, other than itself.
abbrev pub current_of : Reader → Draft → Option ℕ → Option String → Option ItemRecord
current_of r draft (some subject) (some predicate) =
    if str_eq predicate ""
    then none
    else (first_other draft.item_id (
        r.find_items (record {
          kind = draft.content.kind;
          states = [];
          entity_id = none;
          subject_entity_id = some subject;
          predicate = some predicate;
          current_only = true;
          limit = none;
        })))
current_of r draft _ _ = none

abbrev pub current_decision : Reconciler → Draft → Option ItemRecord → Decision
current_decision s draft none = by_kind s draft draft.content.kind
current_decision s draft (some old) =
    if same_value s.texts old.content draft.content
    then decided ReconcileDecision.no_op old "same subject + predicate, same value"
    else decided ReconcileDecision.supersede old "same subject + predicate, new value"

-- `Reconciler.decide`
unfoldable pub decide : Reconciler → Draft → Decision
decide s draft =
    if is_statement draft.content.kind
    then current_decision s draft
        (current_of s.reader draft draft.content.subject_entity_id draft.content.predicate)
    else by_kind s draft draft.content.kind
