-- ===== src/Ingestion/Reconcile/Settled.antt =====
-- ingestion/reconcile.py: what a decision says of its candidate.
use nd_mind.Base.{
  ℕ, ◌≡◌, ◌≢◌, inl, inr, String, false, Option, none, some, List, [], ◌∷◌, All, Bool-cases, str_eq,
}
use nd_mind.Core.Vocabulary.{Kind}
use nd_mind.Memory.Records.{ItemRecord}
use nd_mind.Ingestion.Reconcile.{
  Draft, ReconcileDecision, Decision, Candidate, Reader, Reconciler, Chooser, things, nothing, ask,
  picked, index_of, chosen_at, adds_detail, same_value,
}
use nd_mind.Ingestion.Reconcile.Decide.{
  same_wish, related_plans, close_to, ask_some, similar_close, similar_to, similar_by, similar,
  wish_decision, plan_decision, by_kind, current_of, current_decision, decide, is_episode,
  is_statement, by_id, keys_of, firsts,
}
use nd_mind.Ingestion.Reconcile.Others.{
  IsOther, OptOther, OptCandidate, IsStored, by_id-AllStored, find_items-AllStored, index_of-other,
  first_other-other, same_wish-other, related_plans-IsOther, candidates_of-IsOther,
}

-- A new memory has no candidate; any other decision is against an item that the reader returned, other
-- than the draft's own.
pub data IsSettled (r : Reader) (own : ℕ) : Decision → Type 0 where
  fresh : (rule : String) → IsSettled r own (nothing rule)
  against :
      (d : ReconcileDecision) (item : ItemRecord) (score : Option ℕ) (rule : String)
      → d ≢ ReconcileDecision.new
      → item.id ≢ own
      → IsStored r item
      → IsSettled r own (record { decision = d; candidate = some item; score = score; rule = rule })

module _ (r : Reader) (own : ℕ) where
  chosen-IsSettled :
      (cs : List Candidate) (why : String) (d : ReconcileDecision) (i : Option ℕ) (reason : String)
      (c : Option Candidate)
      → d ≢ ReconcileDecision.new
      → OptCandidate r own c
      → IsSettled r own (chosen_at cs why (d, i, reason) c)
  chosen-IsSettled cs why d i reason none h o = IsSettled.fresh _
  chosen-IsSettled cs why d i reason (some (item, score)) h o =
      IsSettled.against d item score _ h o.0 o.1

  answer-IsSettled :
      (cs : List Candidate) (why : String) (d : ReconcileDecision) (i : Option ℕ) (reason : String)
      → All (IsOther r own) cs
      → IsSettled r own (chosen_at cs why (d, i, reason) (picked cs d i))
  answer-IsSettled cs why ReconcileDecision.new i reason h = IsSettled.fresh _
  answer-IsSettled cs why d i reason h =
      chosen-IsSettled cs why d i reason (index_of cs i) (λ e. cc) (index_of-other r own cs i h)

  ask-IsSettled :
      (choose : Option Chooser) (draft : Draft) (cs : List Candidate) (why : String)
      → All (IsOther r own) cs
      → IsSettled r own (ask choose draft cs why)
  unfolding ask
  ask-IsSettled none draft cs why h = IsSettled.fresh _
  ask-IsSettled (some choose) draft cs why h =
      let answer = choose draft cs in answer-IsSettled cs why answer.0 answer.1 answer.2 h

module _ (draft : Draft) where
  abbrev own : ℕ
  own = draft.item_id

  module _ (s : Reconciler) where
    ask_some-IsSettled :
        (why otherwise : String) (cs : List Candidate)
        → All (IsOther s.reader own) cs
        → IsSettled s.reader own (ask_some s draft why otherwise cs)
    ask_some-IsSettled why otherwise [] h = IsSettled.fresh _
    ask_some-IsSettled why otherwise (c ∷ cs) h =
        ask-IsSettled s.reader own s.choose draft (c ∷ cs) why h

    similar_close-IsSettled :
        (close : List (ℕ × ℕ)) → IsSettled s.reader own (similar_close s draft close)
    similar_close-IsSettled [] = IsSettled.fresh _
    similar_close-IsSettled (c ∷ close) =
        let items = by_id (s.reader.items (firsts (c ∷ close))) [] in
        let links = s.reader.item_entities (keys_of items) in
        ask_some-IsSettled _ _ _ (
          candidates_of-IsOther s.reader draft items links (c ∷ close)
            (by_id-AllStored s.reader (firsts (c ∷ close))))

    similar_to-IsSettled : (v : Option ℕ) → IsSettled s.reader own (similar_to s draft v)
    similar_to-IsSettled none = IsSettled.fresh _
    similar_to-IsSettled (some v) =
        similar_close-IsSettled (close_to s.threshold (s.reader.similar_items v))

    similar_by-IsSettled :
        (e : Option (String → Option ℕ)) → IsSettled s.reader own (similar_by s draft e)
    similar_by-IsSettled none = IsSettled.fresh _
    similar_by-IsSettled (some e) = similar_to-IsSettled (e draft.content.text)

    similar-IsSettled : IsSettled s.reader own (similar s draft)
    unfolding similar
    similar-IsSettled = similar_by-IsSettled s.embed

    wish-IsSettled :
        (w : Option ItemRecord)
        → OptOther s.reader own w
        → IsSettled s.reader own (wish_decision s draft w)
    wish-IsSettled none h = similar-IsSettled
    wish-IsSettled (some w) h = elim (Bool-cases (adds_detail s.texts w.content draft.content)) [
      | inl yes_ ↦
          rw yes_
            (IsSettled.against ReconcileDecision.add_detail w (some 1000000) _ (λ e. cc) h.0 h.1)
      | inr no_ ↦
          rw no_ (IsSettled.against ReconcileDecision.no_op w (some 1000000) _ (λ e. cc) h.0 h.1)
    ]

    plan-IsSettled :
        (cs : List Candidate)
        → All (IsOther s.reader own) cs
        → IsSettled s.reader own (plan_decision s draft cs)
    plan-IsSettled [] h = similar-IsSettled
    plan-IsSettled (c ∷ cs) h = ask-IsSettled s.reader own s.choose draft (c ∷ cs) _ h

    by_kind-IsSettled :
        (k : Kind) → is_episode k ≡ false → IsSettled s.reader own (by_kind s draft k)
    by_kind-IsSettled Kind.episode h = cc
    by_kind-IsSettled Kind.intention h =
        wish-IsSettled (same_wish s.reader draft (things draft.entities))
          (same_wish-other s.reader draft (things draft.entities))
    by_kind-IsSettled Kind.plan h =
        plan-IsSettled (related_plans s.reader draft) (related_plans-IsOther s.reader draft)
    by_kind-IsSettled _ h = similar-IsSettled

    current-IsSettled :
        (o : Option ItemRecord)
        → is_episode draft.content.kind ≡ false
        → OptOther s.reader own o
        → IsSettled s.reader own (current_decision s draft o)
    current-IsSettled none k h = by_kind-IsSettled draft.content.kind k
    current-IsSettled (some old) k h =
        elim (Bool-cases (same_value s.texts old.content draft.content)) [
          | inl yes_ ↦
              rw yes_
                (IsSettled.against ReconcileDecision.no_op old (some 1000000) _ (λ e. cc) h.0 h.1)
          | inr no_ ↦
              rw no_ (
                IsSettled.against ReconcileDecision.supersede old (some 1000000) _ (λ e. cc) h.0
                  h.1)
        ]

    current_of-other :
        (subject : Option ℕ) (predicate : Option String)
        → OptOther s.reader own (current_of s.reader draft subject predicate)
    current_of-other none predicate = tt
    current_of-other (some subject) none = tt
    current_of-other (some subject) (some predicate) = elim (Bool-cases (str_eq predicate "")) [
      | inl yes_ ↦ rw yes_ tt
      | inr no_ ↦ rw no_ (first_other-other s.reader own _ (find_items-AllStored s.reader _))
    ]

-- A memory that is no episode is new, with no candidate, or it is decided against an item that the reader
-- returned for a query or for identifiers, and that is not itself: whatever the reader finds, and whatever the model that chooses answers, an index out of
-- range or the draft's own item among them.
pub decide-IsSettled :
    (s : Reconciler) (draft : Draft)
    → is_episode draft.content.kind ≡ false
    → IsSettled s.reader draft.item_id (decide s draft)
unfolding decide
decide-IsSettled s draft k = elim (Bool-cases (is_statement draft.content.kind)) [
  | inl yes_ ↦ rw yes_ (
      current-IsSettled draft s
        (current_of s.reader draft draft.content.subject_entity_id draft.content.predicate) k
        (current_of-other draft s draft.content.subject_entity_id draft.content.predicate))
  | inr no_ ↦ rw no_ (by_kind-IsSettled draft s draft.content.kind k)
]
