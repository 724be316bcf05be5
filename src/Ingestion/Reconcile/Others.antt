-- ===== src/Ingestion/Reconcile/Others.antt =====
-- ingestion/reconcile.py: the items that a draft is compared with are stored ones, and not its own.
use nd_mind.Base.{
  ℕ, zero, suc, ◌≡◌, ◌≢◌, inl, inr, Bool, true, false, not, ◌&&◌, Option, none, some, List, [], ◌∷◌,
  ◌==◌, arith, All, Bool-cases, take,
}
use mathlib.Core.List.{Memᴰ}
use nd_mind.Base.Membership.{All-mem}
use nd_mind.Base.Dict.{Dict, lookup, insert, values}
use nd_mind.Core.Vocabulary.{Kind}
use nd_mind.Memory.Records.{ItemRecord, ItemEntityRecord}
use nd_mind.Ingestion.Reconcile.{
  Draft, DraftEntity, Reader, ItemQuery, Candidate, query, wishes_for, index_of, at_index,
  same_subtype,
}
use nd_mind.Ingestion.Reconcile.Decide.{
  first_other, like_wish, some_or, same_wish, is_self, add_plans, plans_of, unscored, related_plans,
  is_candidate, keep_candidate, candidates_of, is_active, by_id,
}

-- What the reader returns for a query, or for identifiers.
pub data IsStored (r : Reader) (i : ItemRecord) : Type 0 where
  by_query : (q : ItemQuery) → Memᴰ i (r.find_items q) → IsStored r i
  by_ids : (ids : List ℕ) → Memᴰ i (r.items ids) → IsStored r i

module _ (r : Reader) where
  abbrev OptStored : Option ItemRecord → Type 0
  OptStored none = Unit
  OptStored (some i) = IsStored r i

  abbrev AllStored : Dict ItemRecord → Type 0
  AllStored d = All (IsStored r) (values d)

  pub find_items-AllStored : (q : ItemQuery) → All (IsStored r) (r.find_items q)
  find_items-AllStored q = All-mem (IsStored r) (r.find_items q) (λ i m. IsStored.by_query q m)

  items-AllStored : (ids : List ℕ) → All (IsStored r) (r.items ids)
  items-AllStored ids = All-mem (IsStored r) (r.items ids) (λ i m. IsStored.by_ids ids m)

  insert-All :
      (P : ItemRecord → Type 0) (k : ℕ) (i : ItemRecord) (d : Dict ItemRecord)
      → P i
      → All P (values d)
      → All P (values (insert k i d))
  unfolding insert
  insert-All P k i [] h o = (h, tt)
  insert-All P k i ((j, w) ∷ d) h o =
      let rest = insert-All P k i d h o.1 in
      elim (Bool-cases (j == k)) [ inl e ↦ rw e (h, o.1) | inr e ↦ rw e (o.0, rest) ]

  add_by_id-AllStored :
      (is : List ItemRecord) (out : Dict ItemRecord)
      → All (IsStored r) is
      → AllStored out
      → AllStored (by_id is out)
  add_by_id-AllStored [] out h o = o
  add_by_id-AllStored (i ∷ is) out h o =
      add_by_id-AllStored is (insert i.id i out) h.1 (insert-All (IsStored r) i.id i out h.0 o)

  pub by_id-AllStored : (ids : List ℕ) → AllStored (by_id (r.items ids) [])
  by_id-AllStored ids = add_by_id-AllStored (r.items ids) [] (items-AllStored ids) tt

  lookup-OptStored : (k : ℕ) (d : Dict ItemRecord) → AllStored d → OptStored (lookup k d)
  unfolding lookup
  lookup-OptStored k [] o = tt
  lookup-OptStored k ((j, w) ∷ d) o =
      let rest = lookup-OptStored k d o.1 in
      elim (Bool-cases (j == k)) [ inl e ↦ rw e o.0 | inr e ↦ rw e rest ]

module _ (r : Reader) (own : ℕ) where
  -- A stored item of another identifier.
  abbrev pub IsOtherItem : ItemRecord → Type 0
  IsOtherItem i = (i.id ≢ own) × IsStored r i

  abbrev pub IsOther : Candidate → Type 0
  IsOther c = IsOtherItem c.0

  abbrev pub OptOther : Option ItemRecord → Type 0
  OptOther none = Unit
  OptOther (some i) = IsOtherItem i

  abbrev pub OptCandidate : Option Candidate → Type 0
  OptCandidate none = Unit
  OptCandidate (some c) = IsOther c

  at_index-other : (i : ℕ) (cs : List Candidate) → All IsOther cs → OptCandidate (at_index i cs)
  at_index-other i [] h = tt
  at_index-other zero (c ∷ cs) h = h.0
  at_index-other (suc i) (c ∷ cs) h = at_index-other i cs h.1

  pub index_of-other :
      (cs : List Candidate) (i : Option ℕ) → All IsOther cs → OptCandidate (index_of cs i)
  index_of-other cs none h = tt
  index_of-other cs (some i) h = at_index-other i cs h

  ne_of : (a : ℕ) → (a == own) ≡ false → a ≢ own
  ne_of a h = ground (arith, h)

  pub first_other-other :
      (is : List ItemRecord) → All (IsStored r) is → OptOther (first_other own is)
  first_other-other [] h = tt
  first_other-other (i ∷ is) h = elim (Bool-cases (i.id == own)) [
    | inl yes_ ↦ rw yes_ (first_other-other is h.1)
    | inr no_ ↦ rw no_ (ne_of i.id no_, h.0)
  ]

  some_or-other : (a b : Option ItemRecord) → OptOther a → OptOther b → OptOther (some_or a b)
  some_or-other (some w) b h k = h
  some_or-other none b h k = k

second_of : (a b c d : Bool) → (a && b && c && d) ≡ true → b ≡ true
second_of a b c d h = ground arith

module _ (r : Reader) (draft : Draft) where
  abbrev own : ℕ
  own = draft.item_id

  -- What is like the draft and of another identifier.
  like-ne :
      (w : ItemRecord)
      → (same_subtype w.content draft.content && not (w.id == own)) ≡ true
      → w.id ≢ own
  like-ne w h = ground (arith, h)

  like_wish-other :
      (ws : List ItemRecord) → All (IsStored r) ws → OptOther r own (like_wish draft ws)
  unfolding like_wish
  like_wish-other [] h = tt
  like_wish-other (w ∷ ws) h =
      elim (Bool-cases (same_subtype w.content draft.content && not (w.id == own))) [
        | inl yes_ ↦ rw yes_ (like-ne w yes_, h.0)
        | inr no_ ↦ rw no_ (like_wish-other ws h.1)
      ]

  pub same_wish-other : (ts : List ℕ) → OptOther r own (same_wish r draft ts)
  unfolding same_wish
  same_wish-other [] = tt
  same_wish-other (t ∷ ts) =
      some_or-other r own (like_wish draft (wishes_for r t)) (same_wish r draft ts)
        (like_wish-other (wishes_for r t) (find_items-AllStored r _)) (same_wish-other ts)

  abbrev OthersOnly : Dict ItemRecord → Type 0
  OthersOnly d = All (IsOtherItem r own) (values d)

  add_plans-OthersOnly :
      (ps : List ItemRecord) (out : Dict ItemRecord)
      → All (IsStored r) ps
      → OthersOnly out
      → OthersOnly (add_plans draft ps out)
  unfolding add_plans
  add_plans-OthersOnly [] out h o = o
  add_plans-OthersOnly (p ∷ ps) out h o =
      elim (Bool-cases (same_subtype p.content draft.content && not (p.id == own))) [
        | inl yes_ ↦ rw yes_ (
            add_plans-OthersOnly ps (insert p.id p out) h.1
              (insert-All r (IsOtherItem r own) p.id p out (like-ne p yes_, h.0) o))
        | inr no_ ↦ rw no_ (add_plans-OthersOnly ps out h.1 o)
      ]

  plans_of-OthersOnly :
      (es : List DraftEntity) (out : Dict ItemRecord)
      → OthersOnly out
      → OthersOnly (plans_of r draft es out)
  unfolding plans_of
  plans_of-OthersOnly [] out o = o
  plans_of-OthersOnly (e ∷ es) out o =
      let asked = query Kind.plan ("scheduled" ∷ []) (some e.entity_id) none in
      elim (Bool-cases (is_self e.kind)) [
        | inl yes_ ↦ rw yes_ (plans_of-OthersOnly es out o)
        | inr no_ ↦ rw no_ (
            plans_of-OthersOnly es (add_plans draft (r.find_items asked) out)
              (add_plans-OthersOnly (r.find_items asked) out (find_items-AllStored r asked) o))
      ]

  unscored-IsOther :
      (n : ℕ) (is : List ItemRecord)
      → All (IsOtherItem r own) is
      → All (IsOther r own) (unscored (take n is))
  unscored-IsOther zero is h = tt
  unscored-IsOther (suc n) [] h = tt
  unscored-IsOther (suc n) (i ∷ is) h = (h.0, unscored-IsOther n is h.1)

  pub related_plans-IsOther : All (IsOther r own) (related_plans r draft)
  unfolding related_plans
  related_plans-IsOther =
      unscored-IsOther 5 (values (plans_of r draft draft.entities []))
        (plans_of-OthersOnly draft.entities [] tt)

  candidate-ne :
      (links : List ItemEntityRecord) (i : ItemRecord)
      → is_candidate draft links i ≡ true
      → i.id ≢ own
  unfolding is_candidate
  candidate-ne links i h =
      let other = second_of (is_active i.content.status) (not (i.id == own)) _ _ h in
      ground (arith, other)

  keep_candidate-IsOther :
      (links : List ItemEntityRecord) (score : ℕ) (o : Option ItemRecord) (rest : List Candidate)
      → OptStored r o
      → All (IsOther r own) rest
      → All (IsOther r own) (keep_candidate draft links score o rest)
  keep_candidate-IsOther links score none rest k h = h
  keep_candidate-IsOther links score (some i) rest k h =
      elim (Bool-cases (is_candidate draft links i)) [
        | inl yes_ ↦ rw yes_ ((candidate-ne links i yes_, k), h)
        | inr no_ ↦ rw no_ h
      ]

  pub candidates_of-IsOther :
      (items : Dict ItemRecord) (links : List ItemEntityRecord) (close : List (ℕ × ℕ))
      → AllStored r items
      → All (IsOther r own) (candidates_of draft items links close)
  unfolding candidates_of
  candidates_of-IsOther items links [] k = tt
  candidates_of-IsOther items links ((id, score) ∷ close) k =
      keep_candidate-IsOther links score (lookup id items) (candidates_of draft items links close)
        (lookup-OptStored r id items k) (candidates_of-IsOther items links close k)
