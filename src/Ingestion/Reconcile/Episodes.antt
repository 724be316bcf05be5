-- ===== src/Ingestion/Reconcile/Episodes.antt =====
-- ingestion/reconcile.py: episodes never merge.
use nd_mind.Base.{
  ℕ, ◌≡◌, refl, sym, inl, inr, String, true, ◌&&◌, Option, none, some, List, [], ◌∷◌, Bool-cases,
  and-true,
}
use mathlib.Core.List.{Memᴰ}
use nd_mind.Core.Vocabulary.{Kind}
use nd_mind.Memory.Records.{ItemRecord, ItemEntityRecord}
use nd_mind.Ingestion.Reconcile.{
  Draft, ReconcileDecision, Decision, Reader, Reconciler, things, nothing, decided, is_same_moment,
  same_set, entities_of, draft_entities, ids_of, wishes_for, first_wish, head_or, find_same,
  dated_episode, wish_or, episode, query, first_thing,
}
use nd_mind.Ingestion.Reconcile.Decide.{decide}

-- The episodes that the reader finds for the first thing of the draft.
abbrev pub nearby : Reader → Draft → List ItemRecord
nearby r draft =
    r.find_items (query Kind.episode [] (first_thing (things draft.entities)) (some 50))

-- A stored episode of the same time, precision, subtype and entities.
pub record IsSame (r : Reader) (draft : Draft) (e : ItemRecord) : Type 0 where
  pub at : ℕ
  pub dated : draft.content.occurred_start ≡ some at
  pub found : Memᴰ e (nearby r draft)
  pub moment : is_same_moment e.content draft.content ≡ true
  pub entities :
      same_set
        (entities_of e.id (r.item_entities (ids_of (nearby r draft))))
        (draft_entities draft.entities)
      ≡ true

-- A wish that the reader finds for a thing that the episode is about.
pub record IsWished (r : Reader) (draft : Draft) (w : ItemRecord) : Type 0 where
  pub thing : ℕ
  pub about : Memᴰ thing (things draft.entities)
  pub found : Memᴰ w (wishes_for r thing)

pub data EpisodeDecision (r : Reader) (draft : Draft) : Decision → Type 0 where
  fresh : (rule : String) → EpisodeDecision r draft (nothing rule)
  fulfils :
      (w : ItemRecord) (rule : String)
      → IsWished r draft w
      → EpisodeDecision r draft (decided ReconcileDecision.fulfil w rule)
  repeats :
      (e : ItemRecord) (rule : String)
      → IsSame r draft e
      → EpisodeDecision r draft (decided ReconcileDecision.no_op e rule)

some_inj {ℓ} : {A : Type ℓ} {a b : A} → some a ≡ some b → a ≡ b
some_inj e = cc

module _ (r : Reader) (draft : Draft) where
  abbrev FoundFor : List ℕ → ItemRecord → Type 0
  FoundFor ts w = (t : ℕ) × Memᴰ t ts × Memᴰ w (wishes_for r t)

  by_head :
      (t : ℕ) (ts : List ℕ) (w : ItemRecord) (l : List ItemRecord)
      → wishes_for r t ≡ l
      → (first_wish r ts ≡ some w → FoundFor ts w)
      → head_or l (first_wish r ts) ≡ some w
      → FoundFor (t ∷ ts) w
  by_head t ts w [] e rest k = let (u, m, n) = rest k in (u, Memᴰ.tail m, n)
  by_head t ts w (i ∷ is) e rest k = let q : w ≡ i = cc in (t, Memᴰ.head refl, rw e (Memᴰ.head q))

  first_wish-found : (ts : List ℕ) (w : ItemRecord) → first_wish r ts ≡ some w → FoundFor ts w
  unfolding first_wish
  first_wish-found [] w h = cc
  first_wish-found (t ∷ ts) w h = by_head t ts w (wishes_for r t) refl (first_wish-found ts w) h

  find_same-Same :
      (links : List ItemEntityRecord) (es : List ItemRecord) (e : ItemRecord)
      → find_same draft.content (draft_entities draft.entities) links es ≡ some e
      → Memᴰ e es
        × (is_same_moment e.content draft.content ≡ true)
        × (same_set (entities_of e.id links) (draft_entities draft.entities) ≡ true)
  unfolding find_same
  find_same-Same links [] e h = cc
  find_same-Same links (i ∷ is) e h =
      elim (Bool-cases (
        is_same_moment i.content draft.content
        && same_set (entities_of i.id links) (draft_entities draft.entities))) [
          | inl yes_ ↦
              let q : i ≡ e = some_inj (rw yes_ at h) in
              let both = and-true _ _ yes_ in (Memᴰ.head (sym q), rw (← q) both.0, rw (← q) both.1)
          | inr no_ ↦
              let (m, moment, entities) = find_same-Same links is e (rw no_ at h) in
              (Memᴰ.tail m, moment, entities)
        ]

  dated_episode-Same :
      (o : Option ℕ) (e : ItemRecord)
      → draft.content.occurred_start ≡ o
      → dated_episode r draft o ≡ some e
      → IsSame r draft e
  dated_episode-Same none e q h = cc
  dated_episode-Same (some at) e q h =
      let links = r.item_entities (ids_of (nearby r draft)) in
      let (m, moment, entities) = find_same-Same links (nearby r draft) e h in
      record { at = at; dated = q; found = m; moment = moment; entities = entities }

  wish_or-decided :
      (w e : Option ItemRecord)
      → ((i : ItemRecord) → w ≡ some i → IsWished r draft i)
      → ((i : ItemRecord) → e ≡ some i → IsSame r draft i)
      → EpisodeDecision r draft (wish_or w e)
  wish_or-decided (some w) e f g = EpisodeDecision.fulfils w _ (f w refl)
  wish_or-decided none (some e) f g = EpisodeDecision.repeats e _ (g e refl)
  wish_or-decided none none f g = EpisodeDecision.fresh _

  episode-decided : EpisodeDecision r draft (episode r draft)
  unfolding episode
  episode-decided =
      wish_or-decided (first_wish r (things draft.entities))
        (dated_episode r draft draft.content.occurred_start)
        (λ w h.
          let (t, m, n) = first_wish-found (things draft.entities) w h in
          record { thing = t; about = m; found = n })
        (λ e h. dated_episode-Same draft.content.occurred_start e refl h)

-- An episode is never merged with a memory: it is new, or it fulfils a stored wish for a thing that it is
-- about, or it repeats a stored episode of the same known time, precision, subtype and set of entities.
pub decide-EpisodeDecision :
    (s : Reconciler) (draft : Draft)
    → draft.content.kind ≡ Kind.episode
    → EpisodeDecision s.reader draft (decide s draft)
unfolding decide
decide-EpisodeDecision s draft k = simp k (episode-decided s.reader draft)
