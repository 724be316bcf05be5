-- ===== src/Memory/Tests.antt =====
-- The memory writer at concrete turns, and its theorems at them.
use nd_mind.Base.{ℕ, [], ◌∷◌, ◌≡◌, refl, map}
use nd_mind.Base.Dict.{lookup}
use nd_mind.Memory.Records.{ItemRecord}
use nd_mind.Memory.Writer.Commit.{commit}
use nd_mind.Base.Dict.{insert}
use nd_mind.Core.{valid_state, kind_states}
use nd_mind.Policy.Evaluate.{evaluate}
use nd_mind.Memory.Changes.{content_changed, names_quick}
use nd_mind.Memory.Tables.{
  insert_held_write, insert_item, insert_item_entity, insert_version, insert_write_log,
  next_version, replace_item, turn_rows,
}
use nd_mind.Memory.Writer.Apply.{apply}
use nd_mind.Memory.Writer.Facts.{created_items, edited_items, facts}
use nd_mind.Memory.Writer.Items.{change_item, create_item}
use nd_mind.Memory.Writer.Turn.{add, add_as, log_row}
use nd_mind.Memory.Sound.Items.{IsSound}
use nd_mind.Memory.Sound.Commit.{commit-IsSound}
use nd_mind.Memory.Fixtures.{by_user, empty, turn, writer}
use nd_mind.Memory.Sound.Hold.{SameMemory, commit-SameMemory}
use nd_mind.Memory.Ops.{Action}
use nd_mind.Memory.Tables.{Tables}
use nd_mind.Memory.Changes.{no_changes}
use nd_mind.Memory.Writer.Commit.{Writer}
use nd_mind.Base.{arith, some, false}

empty-IsSound : IsSound empty
unfolding lookup
empty-IsSound = record { at = λ k i e. cc }

-- The fact is stored and then changed; the secret is not stored.
stored_texts :
    map (λ (p : ℕ × ItemRecord). p.1.content.text) (commit writer empty).1.1.items
    ≡ "lives in Goa" ∷ []
unfolding commit edited_items created_items evaluate facts apply create_item change_item valid_state
    kind_states lookup insert insert_item insert_item_entity replace_item add add_as insert_version
    insert_write_log insert_held_write names_quick content_changed next_version turn_rows log_row
stored_texts = refl

commit-IsSound_example : IsSound (commit writer empty).1.1
commit-IsSound_example = commit-IsSound writer empty empty-IsSound

-- Two changes where one is the threshold, on what the first commit left.
abbrev bulk_writer : Writer
bulk_writer = record {
  turn = record turn { bulk_threshold = 1 };
  ops =
      by_user "home" (Action.update_item 20 (record no_changes { text = some "moved" }))
      ∷ by_user "work" (Action.update_item 22 (record no_changes { text = some "left" }))
      ∷ [];
  vocab = [];
  committed = false;
}

abbrev after_first : Tables
after_first = (commit writer empty).1.1

commit-SameMemory_example : SameMemory after_first (commit bulk_writer after_first).1.1
unfolding edited_items created_items names_quick
commit-SameMemory_example = commit-SameMemory bulk_writer after_first refl refl (omega arith)
