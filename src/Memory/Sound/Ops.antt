-- ===== src/Memory/Sound/Ops.antt =====
-- The item operations keep the invariant, given that the op brings in no secret.
use nd_mind.Base.{
  ℕ, String, Bool, true, not, ◌&&◌, Option, none, some, ◌≡◌, ◌≢◌, refl, arith, Option-cases,
  Bool-cases, inl, inr, get_or, List, [], ◌∷◌,
}
use nd_mind.Base.Dict.{lookup}
use nd_mind.Core.{Sensitivity, valid_state}
use nd_mind.Memory.Records.{ItemContent, ItemRecord}
use nd_mind.Memory.Changes.{Changes, nonempty}
use nd_mind.Memory.Ops.{CreateItem, EntityLink, NewTrigger}
use nd_mind.Memory.Tables.{insert_item_entity, put_trigger}
use nd_mind.Memory.Exec.{Exec, Tx, pure, ◌>>=◌}
use nd_mind.Memory.Exec.Rules.{After, After-bind}
use nd_mind.Memory.Writer.Turn.{RowLog, Turn}
use nd_mind.Memory.Writer.Items.{
  changed_content, changed_record, slug_category, refile, change_item, category, new_item,
  attach_all, trigger_all, changed_item, live_item, is_deleted, truthy,
}
use nd_mind.Memory.Sound.Items.{IsSoundContent, IsSound, replace_item-IsSound, same_items-IsSound}

-- A step keeps the invariant however it ends; where it returns, `Q` holds too.
abbrev pub Keeps {ℓ} : {A : Type ℓ} → (A → Type 0) → Exec A → Tx → Type 0
Keeps Q m tx =
    After (λ a tx'. IsSound tx'.tables × Q a) (λ tx'. IsSound tx'.tables)
      (λ tx'. IsSound tx'.tables) m tx

abbrev pub Anything {ℓ} : {A : Type ℓ} → A → Type 0
Anything _ = Unit

module _ {ℓ κ} {A : Type ℓ} {B : Type κ} (Q : A → Type 0) (R : B → Type 0) where
  pub Keeps-bind :
      (m : Exec A) (f : A → Exec B) (tx : Tx)
      → Keeps Q m tx
      → ((a : A) (tx' : Tx) → IsSound tx'.tables → Q a → Keeps R (f a) tx')
      → Keeps R (m >>= f) tx
  Keeps-bind m f tx q k =
      After-bind (λ a tx'. IsSound tx'.tables × Q a) (λ a tx'. IsSound tx'.tables × R a)
        (λ tx'. IsSound tx'.tables) (λ tx'. IsSound tx'.tables) m f tx q
        (λ a tx' h. k a tx' h.0 h.1)

-- A change that names no secret, on a content that is none, gives none.
changed_content-no_secret :
    (turn : Turn) (b : ItemContent) (c : Changes)
    → b.sensitivity ≢ Sensitivity.secret
    → c.sensitivity ≢ some Sensitivity.secret
    → (changed_content turn b c).sensitivity ≢ Sensitivity.secret
unfolding changed_content
changed_content-no_secret turn b c h n = ground arith

pub changed_item-Keeps :
    (turn : Turn) (b : ItemRecord) (c : Changes) (tx : Tx)
    → IsSound tx.tables
    → IsSoundContent b.content
    → c.sensitivity ≢ some Sensitivity.secret
    → Keeps (λ r. IsSoundContent r.content) (changed_item turn b c) tx
unfolding changed_item
changed_item-Keeps turn b c tx s sb n =
    let after = changed_record turn b c in
    elim (Bool-cases (nonempty c.unknown)) [
      | inl bad ↦ rw bad s
      | inr named ↦ elim (Bool-cases (valid_state after.content.kind after.content.state)) [
        | inl valid ↦
            rw (named, valid)
              (
                s,
                record {
                  state_valid = valid;
                  no_secret = changed_content-no_secret turn b.content c sb.no_secret n;
                },
              )
        | inr invalid ↦ rw (named, invalid) s
      ]
    ]

pub live_item-Keeps :
    (k : ℕ) (deleted : Bool) (tx : Tx)
    → IsSound tx.tables
    → Keeps
        (λ r. IsSoundContent r.content × (lookup k tx.tables.items ≡ some r))
        (live_item k deleted)
        tx
unfolding live_item
live_item-Keeps k deleted tx s = elim (Option-cases (lookup k tx.tables.items)) [
  | inl missing ↦ rw missing s
  | inr (r, e) ↦ elim (Bool-cases (is_deleted r.content.status && not deleted)) [
    | inl gone ↦ rw (e, gone) s
    | inr live ↦ rw (e, live) (s, (s.at k r e, refl))
  ]
]

slug_category-Keeps :
    (turn : Turn) (slug : String) (name : Option String) (tx : Tx)
    → IsSound tx.tables
    → Keeps Anything (slug_category turn slug name) tx
unfolding slug_category
slug_category-Keeps turn slug name tx s = (same_items-IsSound (ground arith) s, tt)

-- Re-filing changes no field but the category.
refile-Keeps :
    (turn : Turn) (c : Changes) (tx : Tx)
    → IsSound tx.tables
    → Keeps (λ d. d.sensitivity ≡ c.sensitivity) (refile turn c) tx
unfolding refile
refile-Keeps turn c tx s = elim (Option-cases c.category_slug) [
  | inl kept ↦ rw kept (s, refl)
  | inr (slug, e) ↦ rw e (
      Keeps-bind Anything (λ d. d.sensitivity ≡ c.sensitivity) (slug_category turn slug none)
        (λ id. pure (record c { category_id = some (some id); category_slug = none })) tx
        (slug_category-Keeps turn slug none tx s) (λ id tx' s' _. (s', refl)))
]

-- An update is clean where it sets no item to secret.
pub change_item-Keeps :
    (turn : Turn) (k : ℕ) (c : Changes) (log : RowLog) (tx : Tx)
    → IsSound tx.tables
    → ((b : ItemRecord)
        → lookup k tx.tables.items ≡ some b
        → c.sensitivity ≢ some Sensitivity.secret)
    → Keeps Anything (change_item turn k c log) tx
unfolding change_item
change_item-Keeps turn k c log tx s clean =
    Keeps-bind (λ r. IsSoundContent r.content × (lookup k tx.tables.items ≡ some r)) Anything
      (live_item k true) _ tx (live_item-Keeps k true tx s)
      λ b tx₁ s₁ sb.
        Keeps-bind (λ d. d.sensitivity ≡ c.sensitivity) Anything (refile turn c) _ tx₁
          (refile-Keeps turn c tx₁ s₁)
          λ d tx₂ s₂ e.
            Keeps-bind (λ r. IsSoundContent r.content) Anything (changed_item turn b d) _ tx₂
              (changed_item-Keeps turn b d tx₂ s₂ sb.0 (rw e (clean b sb.1)))
              λ r tx₃ s₃ sr. (replace_item-IsSound r sr s₃, tt)

pub category-Keeps :
    (turn : Turn) (op : CreateItem) (tx : Tx)
    → IsSound tx.tables
    → Keeps Anything (category turn op) tx
unfolding category
category-Keeps turn op tx s = elim (Bool-cases (truthy op.category_slug)) [
  | inl named ↦ rw named (
      Keeps-bind Anything Anything
        (slug_category turn (get_or op.category_slug "") op.category_name) (λ id. pure (some id)) tx
        (slug_category-Keeps turn (get_or op.category_slug "") op.category_name tx s)
        (λ id tx' s' _. (s', tt)))
  | inr plain ↦ rw plain (s, tt)
]

pub new_item-Keeps :
    (turn : Turn) (op : CreateItem) (category_id : Option ℕ) (tx : Tx)
    → IsSound tx.tables
    → op.item.sensitivity ≢ Sensitivity.secret
    → Keeps (λ r. IsSoundContent r.content) (new_item turn op category_id) tx
unfolding new_item
new_item-Keeps turn op category_id tx s n =
    elim (Bool-cases (valid_state op.item.kind op.item.state)) [
      | inl valid ↦ rw valid (s, record { state_valid = valid; no_secret = n })
      | inr invalid ↦ rw invalid s
    ]

pub attach_all-Keeps :
    (turn : Turn) (item : ItemRecord) (ls : List EntityLink) (log : RowLog) (tx : Tx)
    → IsSound tx.tables
    → Keeps Anything (attach_all turn item ls log) tx
unfolding attach_all insert_item_entity
attach_all-Keeps turn item [] log tx s = (s, tt)
attach_all-Keeps turn item (l ∷ ls) log tx s =
    elim (Option-cases (lookup l.entity_id tx.tables.entities)) [
      | inl missing ↦ rw missing s
      | inr (e, found) ↦ rw found (attach_all-Keeps turn item ls _ _ (same_items-IsSound refl s))
    ]

pub trigger_all-Keeps :
    (turn : Turn) (item : ItemRecord) (ns : List NewTrigger) (log : RowLog) (tx : Tx)
    → IsSound tx.tables
    → Keeps Anything (trigger_all turn item ns log) tx
unfolding trigger_all put_trigger
trigger_all-Keeps turn item [] log tx s = (s, tt)
trigger_all-Keeps turn item (n ∷ ns) log tx s =
    trigger_all-Keeps turn item ns _ _ (same_items-IsSound refl s)
