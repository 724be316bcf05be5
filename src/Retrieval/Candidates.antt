-- ===== src/Retrieval/Candidates.antt =====
-- `Candidate` of retrieval/fusion.py and what retrieval/select.py reads of a question. A channel is a
-- number, the soft channel 0; a score is in millionths.
use nd_mind.Ingestion.Time.Windows.{Window}
use nd_mind.Base.{ℕ, Bool, true, false, not, ◌&&◌, Option, [], ◌∷◌, ◌==◌}
use nd_mind.Base.Dict.{Dict}

-- `Shape` of core/events.py.
pub data Shape : Type 0 where
  exact list latest history time_window order count set entity semantic why situational
        conversation :
      Shape

-- The rank in each channel that found the item, and the scores.
pub record Candidate : Type 0 where
  pub item_id : ℕ
  pub found_by : Dict ℕ
  pub lexical : Option ℕ
  pub demoted : Bool
  pub rerank_score : Option ℕ

abbrev pub soft : ℕ
soft = 0

abbrev all_soft : Dict ℕ → Bool
all_soft [] = true
all_soft ((channel, rank) ∷ found) = channel == soft && all_soft found

abbrev some_found : Dict ℕ → Bool
some_found [] = false
some_found (f ∷ found) = true

-- `set(self.found_by) == {SOFT}`
unfoldable pub soft_only : Candidate → Bool
soft_only c = some_found c.found_by && all_soft c.found_by

unfoldable pub filtered : Candidate → Bool
filtered c = not (all_soft c.found_by)

-- Who made an expansion: the planner, or the code itself.
pub data ExpansionSource : Type 0 where
  planner code : ExpansionSource

-- What the selection reads of a `SubQuery`.
pub record SubQuery : Type 0 where
  pub shape : Shape
  pub missing_entity : Bool
  pub expansion : Option ExpansionSource
  pub window : Option Window
