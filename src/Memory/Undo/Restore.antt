-- ===== src/Memory/Undo/Restore.antt =====
-- Undoing an update gives the old content back.
use nd_mind.Base.{
  and-true, ℕ, Option, none, some, get_or, is_some, false, true, Bool-cases, inl, inr, arith, ◌∙◌,
  ◌&&◌, ◌≡◌, refl, sym,
}
use nd_mind.Memory.Changes.{
  Changes, content_changed, merge, names_inner_detail, names_other, names_page_field, names_quick,
}
use nd_mind.Memory.Records.{DetailField, ItemContent}
use nd_mind.Core.{ItemStatus}
use nd_mind.Memory.Ops.{Action}
use nd_mind.Memory.Undo.Inverse.{inverse_item, names_any, was_active, was_deleted}
use nd_mind.Memory.Undo.Diff.{changes_back, if_other}

get_or-if_other {ℓ} : {A : Type ℓ} {b a : A} (d : Dec (b ≡ a)) → get_or (if_other d) a ≡ b
get_or-if_other (yes e) = sym e
get_or-if_other (no n) = refl

-- The content `b`, but for its access fields, which are those of `a`.
abbrev pub with_access : ItemContent → ItemContent → ItemContent
with_access b a = record b { access_count = a.access_count; last_accessed_at = a.last_accessed_at }

-- What undoing an update merges into the content after it gives the content before it back, with the
-- access fields as they are.
merge-changes_back : (b a : ItemContent) → merge a (changes_back b a) ≡ with_access b a
unfolding merge changes_back
merge-changes_back b a = simp (get_or-if_other)

get_or-unnamed {ℓ} : {A : Type ℓ} (o : Option A) (x : A) → is_some o ≡ false → get_or o x ≡ x
get_or-unnamed none x e = refl
get_or-unnamed (some y) x e = cc

-- Nothing is named: each field of the changes is none.
record Unnamed (c : Changes) : Type 0 where
  status : is_some c.status ≡ false
  source : is_some c.source ≡ false
  trust : is_some c.trust ≡ false
  kind : is_some c.kind ≡ false
  state : is_some c.state ≡ false
  text : is_some c.text ≡ false
  title : is_some c.title ≡ false
  category_id : is_some c.category_id ≡ false
  subject_entity_id : is_some c.subject_entity_id ≡ false
  predicate : is_some c.predicate ≡ false
  mentioned_at : is_some c.mentioned_at ≡ false
  occurred_start : is_some c.occurred_start ≡ false
  occurred_end : is_some c.occurred_end ≡ false
  time_precision : is_some c.time_precision ≡ false
  rrule : is_some c.rrule ≡ false
  due_at : is_some c.due_at ≡ false
  valid_from : is_some c.valid_from ≡ false
  valid_to : is_some c.valid_to ≡ false
  modality : is_some c.modality ≡ false
  confidence : is_some c.confidence ≡ false
  sensitivity : is_some c.sensitivity ≡ false
  access_count : is_some c.access_count ≡ false
  last_accessed_at : is_some c.last_accessed_at ≡ false
  in_core : is_some c.in_core ≡ false
  core_confirmed_at : is_some c.core_confirmed_at ≡ false
  in_quick : is_some c.in_quick ≡ false
  quick_reason : is_some c.quick_reason ≡ false
  quick_until : is_some c.quick_until ≡ false

names_any-Unnamed : (c : Changes) → names_any c ≡ false → Unnamed c
unfolding content_changed names_quick names_other names_inner_detail names_page_field
names_any-Unnamed c e = record {
  status = ground arith;
  source = ground arith;
  trust = ground arith;
  kind = ground arith;
  state = ground arith;
  text = ground arith;
  title = ground arith;
  category_id = ground arith;
  subject_entity_id = ground arith;
  predicate = ground arith;
  mentioned_at = ground arith;
  occurred_start = ground arith;
  occurred_end = ground arith;
  time_precision = ground arith;
  rrule = ground arith;
  due_at = ground arith;
  valid_from = ground arith;
  valid_to = ground arith;
  modality = ground arith;
  confidence = ground arith;
  sensitivity = ground arith;
  access_count = ground arith;
  last_accessed_at = ground arith;
  in_core = ground arith;
  core_confirmed_at = ground arith;
  in_quick = ground arith;
  quick_reason = ground arith;
  quick_until = ground arith;
}

names_any-details :
    (c : Changes) → names_any c ≡ false → (f : DetailField) → is_some (c.details f) ≡ false
unfolding content_changed names_quick names_other names_inner_detail names_page_field
names_any-details c e f = ground arith

-- Merging changes that name nothing changes nothing.
merge-unnamed : (a : ItemContent) (c : Changes) → names_any c ≡ false → merge a c ≡ a
unfolding merge
merge-unnamed a c e i =
    let u = names_any-Unnamed c e in
    record {
      status = get_or-unnamed c.status a.status u.status i;
      source = get_or-unnamed c.source a.source u.source i;
      trust = get_or-unnamed c.trust a.trust u.trust i;
      kind = get_or-unnamed c.kind a.kind u.kind i;
      state = get_or-unnamed c.state a.state u.state i;
      text = get_or-unnamed c.text a.text u.text i;
      title = get_or-unnamed c.title a.title u.title i;
      category_id = get_or-unnamed c.category_id a.category_id u.category_id i;
      subject_entity_id =
          get_or-unnamed c.subject_entity_id a.subject_entity_id u.subject_entity_id i;
      predicate = get_or-unnamed c.predicate a.predicate u.predicate i;
      mentioned_at = get_or-unnamed c.mentioned_at a.mentioned_at u.mentioned_at i;
      occurred_start = get_or-unnamed c.occurred_start a.occurred_start u.occurred_start i;
      occurred_end = get_or-unnamed c.occurred_end a.occurred_end u.occurred_end i;
      time_precision = get_or-unnamed c.time_precision a.time_precision u.time_precision i;
      rrule = get_or-unnamed c.rrule a.rrule u.rrule i;
      due_at = get_or-unnamed c.due_at a.due_at u.due_at i;
      valid_from = get_or-unnamed c.valid_from a.valid_from u.valid_from i;
      valid_to = get_or-unnamed c.valid_to a.valid_to u.valid_to i;
      modality = get_or-unnamed c.modality a.modality u.modality i;
      confidence = get_or-unnamed c.confidence a.confidence u.confidence i;
      sensitivity = get_or-unnamed c.sensitivity a.sensitivity u.sensitivity i;
      access_count = get_or-unnamed c.access_count a.access_count u.access_count i;
      last_accessed_at = get_or-unnamed c.last_accessed_at a.last_accessed_at u.last_accessed_at i;
      in_core = get_or-unnamed c.in_core a.in_core u.in_core i;
      core_confirmed_at =
          get_or-unnamed c.core_confirmed_at a.core_confirmed_at u.core_confirmed_at i;
      in_quick = get_or-unnamed c.in_quick a.in_quick u.in_quick i;
      quick_reason = get_or-unnamed c.quick_reason a.quick_reason u.quick_reason i;
      quick_until = get_or-unnamed c.quick_until a.quick_until u.quick_until i;
      details = λ f. get_or-unnamed (c.details f) (a.details f) (names_any-details c e f) i;
    }

-- What the op makes of the content after: the content before again, or its status, or nothing where
-- nothing changed.
abbrev pub Restores : ℕ → ItemContent → ItemContent → Option Action → Type 0
Restores id b a none = a ≡ with_access b a
Restores id b a (some (Action.update_item k c)) = (k ≡ id) × (merge a c ≡ with_access b a)
Restores id b a (some (Action.restore_item k)) =
    (k ≡ id) × (b.status ≡ ItemStatus.active) × (a.status ≡ ItemStatus.deleted)
Restores id b a (some (Action.delete_item k)) =
    (k ≡ id) × (b.status ≡ ItemStatus.deleted) × (a.status ≡ ItemStatus.active)
Restores id b a (some action) = ⊥

-- A deletion is undone by a restoration and a restoration by a deletion, of the item itself; any
-- other op, or none, gives the content back.
pub record IsUndone (id : ℕ) (b a : ItemContent) (o : Option Action) : Type 0 where
  pub deleted :
      b.status ≡ ItemStatus.active
      → a.status ≡ ItemStatus.deleted
      → o ≡ some (Action.restore_item id)
  pub restored :
      b.status ≡ ItemStatus.deleted
      → a.status ≡ ItemStatus.active
      → o ≡ some (Action.delete_item id)
  pub restores : Restores id b a o

was_active_sound : (s : ItemStatus) → was_active s ≡ true → s ≡ ItemStatus.active
was_active_sound ItemStatus.active e = refl
was_active_sound _ e = cc

was_deleted_sound : (s : ItemStatus) → was_deleted s ≡ true → s ≡ ItemStatus.deleted
was_deleted_sound ItemStatus.deleted e = refl
was_deleted_sound _ e = cc

Restores-inverse_item : (id : ℕ) (b a : ItemContent) → Restores id b a (inverse_item id b a)
unfolding inverse_item
Restores-inverse_item id b a = elim (Bool-cases (was_active b.status && was_deleted a.status)) [
  | inl e ↦
      let both = and-true (was_active b.status) (was_deleted a.status) e in
      rw e (refl, was_active_sound b.status both.0, was_deleted_sound a.status both.1)
  | inr e ↦ elim (Bool-cases (was_deleted b.status && was_active a.status)) [
    | inl f ↦
        let both = and-true (was_deleted b.status) (was_active a.status) f in
        rw (e, f) (refl, was_deleted_sound b.status both.0, was_active_sound a.status both.1)
    | inr f ↦ elim (Bool-cases (names_any (changes_back b a))) [
      | inl g ↦ rw (e, f, g) (refl, merge-changes_back b a)
      | inr g ↦
          let same = sym (merge-unnamed a (changes_back b a) g) in
          rw (e, f, g) (same ∙ merge-changes_back b a)
    ]
  ]
]

-- Undoing a change of an item restores the item where the change deleted it, and deletes it where the
-- change restored it, and does so only there; else it updates the item to its content before, with the
-- access fields as they are now, or does nothing, where that content is the one before already.
pub inverse_item-IsUndone : (id : ℕ) (b a : ItemContent) → IsUndone id b a (inverse_item id b a)
unfolding inverse_item
inverse_item-IsUndone id b a = record {
  deleted = λ e f. rw (e, f) refl;
  restored = λ e f. rw (e, f) refl;
  restores = Restores-inverse_item id b a;
}
