-- ===== src/Memory/Sound/Create.antt =====
-- A new item, and the ops that close an item, keep the invariant.
use nd_mind.Base.{
  ℕ, String, Bool, true, false, not, ◌||◌, some, ◌≡◌, ◌≢◌, refl, Bool-cases, inl, inr, is_some,
  ◌==◌, str_eq,
}
use nd_mind.Base.Dict.{lookup}
use nd_mind.Core.{Sensitivity, LinkType, ItemStatus}
use nd_mind.Memory.Records.{ItemRecord}
use nd_mind.Memory.Changes.{Changes, no_changes}
use nd_mind.Memory.Ops.{CreateItem, SupersedeItem, CorrectItem, FulfilIntention}
use nd_mind.Memory.Tables.{insert_link, is_active}
use nd_mind.Memory.Exec.{Exec, Tx, ◌>>=◌, skip_if}
use nd_mind.Memory.Writer.Turn.{RowLog, Turn}
use nd_mind.Memory.Writer.Items.{
  close_item, correct, create_item, fulfil, supersede, category, new_item, attach_all, changed_item,
  live_item, add_link, supersedable,
}
use nd_mind.Memory.Sound.Items.{
  IsSoundContent, IsSound, insert_item-IsSound, replace_item-IsSound, same_items-IsSound,
}
use nd_mind.Memory.Sound.Ops.{
  Keeps, Keeps-bind, Anything, category-Keeps, new_item-Keeps, attach_all-Keeps, trigger_all-Keeps,
  changed_item-Keeps, live_item-Keeps,
}

pub create_item-Keeps :
    (turn : Turn) (op : CreateItem) (log : RowLog) (tx : Tx)
    → IsSound tx.tables
    → op.item.sensitivity ≢ Sensitivity.secret
    → Keeps Anything (create_item turn op log) tx
unfolding create_item
create_item-Keeps turn op log tx s n =
    Keeps-bind Anything Anything (category turn op) _ tx (category-Keeps turn op tx s)
      λ id tx₁ s₁ _.
        Keeps-bind (λ r. IsSoundContent r.content) Anything (new_item turn op id) _ tx₁
          (new_item-Keeps turn op id tx₁ s₁ n)
          λ r tx₂ s₂ sr. elim (Bool-cases (is_some (lookup r.id tx₂.tables.items))) [
            | inl stored ↦ rw stored s₂
            | inr new ↦ elim (Bool-cases (r.workspace_id == turn.store_workspace)) [
              | inl ours ↦
                  rw (new, ours)
                    (Keeps-bind Anything Anything (attach_all turn r op.entities _) _ _
                      (attach_all-Keeps turn r op.entities _ _ (insert_item-IsSound r sr s₂))
                      (λ linked tx₃ s₃ _. trigger_all-Keeps turn r op.triggers linked tx₃ s₃))
              | inr other ↦ rw (new, other) s₂
            ]
          ]

close_item-Keeps :
    (turn : Turn) (old : ItemRecord) (c : Changes) (link_id new_id : ℕ) (link_type : LinkType)
    (log : RowLog) (tx : Tx)
    → IsSound tx.tables
    → IsSoundContent old.content
    → c.sensitivity ≢ some Sensitivity.secret
    → Keeps Anything (close_item turn old c link_id new_id link_type log) tx
unfolding close_item add_link insert_link
close_item-Keeps turn old c link_id new_id link_type log tx s so n =
    Keeps-bind (λ r. IsSoundContent r.content) Anything (changed_item turn old c) _ tx
      (changed_item-Keeps turn old c tx s so n)
      λ r tx₁ s₁ sr. (same_items-IsSound refl (replace_item-IsSound r sr s₁), tt)

-- A guard, then the end of a closing op.
guarded_close-Keeps :
    (b : Bool) (reason : String) (turn : Turn) (old : ItemRecord) (c : Changes) (link_id new_id : ℕ)
    (link_type : LinkType) (log : RowLog) (tx : Tx)
    → IsSound tx.tables
    → IsSoundContent old.content
    → c.sensitivity ≢ some Sensitivity.secret
    → Keeps Anything
        (skip_if b reason >>= λ _. close_item turn old c link_id new_id link_type log)
        tx
guarded_close-Keeps true reason turn old c l n k log tx s so h = s
guarded_close-Keeps false reason turn old c l n k log tx s so h =
    close_item-Keeps turn old c l n k log tx s so h

-- The two items of a closing op, both alive.
two_items-Keeps :
    (i j : ℕ) (f : ItemRecord → ItemRecord → Exec RowLog) (tx : Tx)
    → IsSound tx.tables
    → ((old new : ItemRecord) (tx' : Tx)
        → IsSound tx'.tables
        → IsSoundContent old.content
        → Keeps Anything (f old new) tx')
    → Keeps Anything (live_item i false >>= λ old. live_item j false >>= λ new. f old new) tx
two_items-Keeps i j f tx s k =
    Keeps-bind (λ r. IsSoundContent r.content × (lookup i tx.tables.items ≡ some r)) Anything
      (live_item i false) _ tx (live_item-Keeps i false tx s)
      λ old tx₁ s₁ so.
        Keeps-bind (λ r. IsSoundContent r.content × (lookup j tx₁.tables.items ≡ some r)) Anything
          (live_item j false) (f old) tx₁ (live_item-Keeps j false tx₁ s₁)
          λ new tx₂ s₂ _. k old new tx₂ s₂ so.0

pub supersede-Keeps :
    (turn : Turn) (op : SupersedeItem) (log : RowLog) (tx : Tx)
    → IsSound tx.tables
    → Keeps Anything (supersede turn op log) tx
unfolding supersede
supersede-Keeps turn op log tx s = two_items-Keeps op.old_id op.new_id _ tx s λ old new tx' s' so.
    guarded_close-Keeps (is_some old.content.valid_to || not (supersedable old.content.state))
      "the old memory was already superseded" turn old
      (record no_changes { state = some op.state; valid_to = some (some op.valid_to) }) op.link_id
      new.id LinkType.supersedes log tx' s' so (λ e. cc)

pub correct-Keeps :
    (turn : Turn) (op : CorrectItem) (log : RowLog) (tx : Tx)
    → IsSound tx.tables
    → Keeps Anything (correct turn op log) tx
unfolding correct
correct-Keeps turn op log tx s = two_items-Keeps op.old_id op.new_id _ tx s λ old new tx' s' so.
    guarded_close-Keeps (not (is_active old.content.status)) "the old memory was already corrected"
      turn old (record no_changes { status = some ItemStatus.archived }) op.link_id new.id
      LinkType.corrects log tx' s' so (λ e. cc)

pub fulfil-Keeps :
    (turn : Turn) (op : FulfilIntention) (log : RowLog) (tx : Tx)
    → IsSound tx.tables
    → Keeps Anything (fulfil turn op log) tx
unfolding fulfil
fulfil-Keeps turn op log tx s =
    two_items-Keeps op.intention_id op.episode_id _ tx s λ old new tx' s' so.
      guarded_close-Keeps
        (str_eq old.content.state "fulfilled" || str_eq old.content.state "dropped")
        "the intention was already closed" turn old (record no_changes { state = some op.state })
        op.link_id new.id LinkType.fulfils log tx' s' so (λ e. cc)
