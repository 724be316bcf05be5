-- ===== src/Memory/Undo/Plan/Targets.antt =====
-- The targets of an undo in memory/undo.py, and that one without a conflict was left alone since.
use nd_mind.Base.{
  ℕ, Bool-cases, true, false, not, Option, none, some, List, [], ◌∷◌, ◌==◌, ==_iff, ◌≡◌, ap, refl,
  inl, inr, arith, any, filter, sym,
}
use nd_mind.Base.Dict.{lookup}
use nd_mind.Core.{TargetType}
use nd_mind.Memory.Records.{EntityRecord, ItemRecord, TriggerRecord}
use nd_mind.Memory.Tables.{Tables}
use nd_mind.Memory.Undo.Plan.{
  ConflictReason, UndoTarget, add_conflicted, conflict, conflicted, fromkeys, target_eq, type_eq,
  entity_conflict, entity_items, is_number, item_conflict, trigger_conflict,
}

type_eq_sound : (t u : TargetType) → type_eq t u ≡ true → t ≡ u
type_eq_sound t u e = ground arith

pub type_eq_refl : (t : TargetType) → type_eq t t ≡ true
type_eq_refl t = ground arith

pub target_eq_sound : (x y : UndoTarget) → target_eq x y ≡ true → x ≡ y
target_eq_sound (t, i) (u, j) e = ground (arith, type_eq_sound t u)

any-filter-not :
    (x y : UndoTarget) (xs : List UndoTarget)
    → target_eq x y ≡ false
    → any (target_eq x) xs ≡ true
    → any (target_eq x) (filter (λ z. not (target_eq y z)) xs) ≡ true
any-filter-not x y [] e h = h
any-filter-not x y (z ∷ xs) e h =
    let ih = any-filter-not x y xs e in
    elim (Bool-cases (target_eq y z)) [
      | inl f ↦
          let w : target_eq x z ≡ false = rw (← target_eq_sound y z f) e in rw f (ih (rw w at h))
      | inr f ↦ elim (Bool-cases (target_eq x z)) [
        | inl g ↦ rw (f, g) refl
        | inr g ↦ rw (f, g) (ih (rw g at h))
      ]
    ]

pub fromkeys-any :
    (x : UndoTarget) (xs : List UndoTarget)
    → any (target_eq x) xs ≡ true
    → any (target_eq x) (fromkeys xs) ≡ true
unfolding fromkeys
fromkeys-any x [] h = h
fromkeys-any x (y ∷ xs) h =
    let ih = fromkeys-any x xs in
    elim (Bool-cases (target_eq x y)) [
      | inl e ↦ rw e refl
      | inr e ↦ rw e (any-filter-not x y (fromkeys xs) e (ih (rw e at h)))
    ]

any-add_conflicted :
    (i j : ℕ) (o : Option ConflictReason) (ids : List ℕ)
    → any (◌==◌ i) (add_conflicted j o ids) ≡ false
    → any (◌==◌ i) ids ≡ false
any-add_conflicted i j none ids e = e
any-add_conflicted i j (some r) ids e = ground arith

add_conflicted-none :
    (i : ℕ) (o : Option ConflictReason) (ids : List ℕ)
    → any (◌==◌ i) (add_conflicted i o ids) ≡ false
    → o ≡ none
add_conflicted-none i none ids e = refl
add_conflicted-none i (some r) ids e = ground arith

pub conflicted-any :
    (t : Tables) (turn_id : ℕ) (x : UndoTarget) (xs : List UndoTarget)
    → any (target_eq x) xs ≡ true
    → any (◌==◌ x.1) (conflicted t turn_id xs) ≡ false
    → conflict t turn_id x ≡ none
unfolding conflicted
conflicted-any t turn_id x [] h e = cc
conflicted-any t turn_id x (y ∷ xs) h e =
    let ih = conflicted-any t turn_id x xs in
    elim (Bool-cases (target_eq x y)) [
      | inl f ↦
          let w : y ≡ x = sym (target_eq_sound x y f) in
          add_conflicted-none x.1 (conflict t turn_id x) (conflicted t turn_id xs) (rw w at e)
      | inr f ↦
          ih (rw f at h)
            (any-add_conflicted x.1 y.1 (conflict t turn_id y) (conflicted t turn_id xs) e)
    ]

abbrev pub ItemLastBy : ℕ → Option ItemRecord → Type 0
ItemLastBy turn_id none = Unit
ItemLastBy turn_id (some i) = i.updated_by_turn_id ≡ turn_id

abbrev pub EntityLastBy : ℕ → Option EntityRecord → Type 0
EntityLastBy turn_id none = Unit
EntityLastBy turn_id (some e) = e.updated_by_turn_id ≡ some turn_id

abbrev pub TriggerLastBy : ℕ → Option TriggerRecord → Type 0
TriggerLastBy turn_id none = Unit
TriggerLastBy turn_id (some r) = r.updated_by_turn_id ≡ turn_id

-- An item, an entity or a trigger that is stored was last changed by the turn.
abbrev pub Untouched : Tables → ℕ → UndoTarget → Type 0
Untouched t turn_id (TargetType.item, id) = ItemLastBy turn_id (lookup id t.items)
Untouched t turn_id (TargetType.entity, id) = EntityLastBy turn_id (lookup id t.entities)
Untouched t turn_id (TargetType.trigger, id) = TriggerLastBy turn_id (lookup id t.triggers)
Untouched t turn_id _ = Unit

item-Untouched :
    (turn_id : ℕ) (o : Option ItemRecord) → item_conflict turn_id o ≡ none → ItemLastBy turn_id o
item-Untouched turn_id none c = tt
item-Untouched turn_id (some i) c = ground arith

trigger-Untouched :
    (turn_id : ℕ) (o : Option TriggerRecord)
    → trigger_conflict turn_id o ≡ none
    → TriggerLastBy turn_id o
trigger-Untouched turn_id none c = tt
trigger-Untouched turn_id (some r) c = ground arith

is_number_sound : (o : Option ℕ) (n : ℕ) → is_number o n ≡ true → o ≡ some n
is_number_sound none n e = cc
is_number_sound (some m) n e = ap some ((==_iff m n).0 e)

entity-Untouched :
    (t : Tables) (turn_id : ℕ) (others : List ℕ) (o : Option EntityRecord)
    → entity_conflict turn_id t others o ≡ none
    → EntityLastBy turn_id o
entity-Untouched t turn_id others none c = tt
entity-Untouched t turn_id others (some e) c =
    elim (Bool-cases (is_number e.updated_by_turn_id turn_id)) [
      | inl f ↦ is_number_sound e.updated_by_turn_id turn_id f
      | inr f ↦ let w = rw f at c in cc
    ]

pub conflict-Untouched :
    (t : Tables) (turn_id : ℕ) (x : UndoTarget)
    → conflict t turn_id x ≡ none
    → Untouched t turn_id x
unfolding conflict
conflict-Untouched t turn_id (TargetType.item, id) c = item-Untouched turn_id (lookup id t.items) c
conflict-Untouched t turn_id (TargetType.entity, id) c =
    entity-Untouched t turn_id (entity_items id t) (lookup id t.entities) c
conflict-Untouched t turn_id (TargetType.trigger, id) c =
    trigger-Untouched turn_id (lookup id t.triggers) c
conflict-Untouched t turn_id (TargetType.link, id) c = tt
conflict-Untouched t turn_id (TargetType.item_entity, id) c = tt
conflict-Untouched t turn_id (TargetType.relation, id) c = tt
