-- ===== src/Memory/Sound/Items.antt =====
-- The invariant of the items table, under the writes of the store.
use nd_mind.Base.{ℕ, true, Option, none, some, ◌≡◌, ◌≢◌}
use nd_mind.Base.Dict.{lookup, insert_All}
use nd_mind.Core.{Sensitivity, valid_state}
use nd_mind.Memory.Records.{ItemContent, ItemRecord}
use nd_mind.Memory.Tables.{Tables, insert_item, keep_access, replace_item}

-- The state is a lifecycle state of the kind, and the content is no secret.
pub record IsSoundContent (c : ItemContent) : Type 0 where
  pub state_valid : valid_state c.kind c.state ≡ true
  pub no_secret : c.sensitivity ≢ Sensitivity.secret

-- Every item that can be looked up is sound.
pub record IsSound (t : Tables) : Type 0 where
  pub at : (k : ℕ) (i : ItemRecord) → lookup k t.items ≡ some i → IsSoundContent i.content

pub insert_item-IsSound :
    {t : Tables} (r : ItemRecord) → IsSoundContent r.content → IsSound t → IsSound (insert_item r t)
unfolding insert_item
insert_item-IsSound {t} r s h = record {
  at = insert_All (λ i. IsSoundContent i.content) r.id r t.items s h.at;
}

pub keep_access-IsSoundContent :
    (o : Option ItemRecord) (r : ItemRecord)
    → IsSoundContent r.content
    → IsSoundContent (keep_access o r).content
keep_access-IsSoundContent none r s = s
keep_access-IsSoundContent (some stored) r s = record {
  state_valid = s.state_valid;
  no_secret = s.no_secret;
}

pub replace_item-IsSound :
    {t : Tables} (r : ItemRecord)
    → IsSoundContent r.content
    → IsSound t
    → IsSound (replace_item r t)
unfolding replace_item
replace_item-IsSound {t} r s h = record {
  at =
      insert_All (λ i. IsSoundContent i.content) r.id (keep_access (lookup r.id t.items) r) t.items
        (keep_access-IsSoundContent (lookup r.id t.items) r s) h.at;
}

-- The items are all that the invariant reads.
pub same_items-IsSound : {t u : Tables} → u.items ≡ t.items → IsSound t → IsSound u
same_items-IsSound {t} {u} e h = record { at = λ k i f. h.at k i (rw e at f) }
