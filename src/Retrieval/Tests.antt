-- ===== src/Retrieval/Tests.antt =====
-- A few candidates: one that holds now, one that does not, and one that only the soft channel found.
use nd_mind.Base.{◌≤◌, true, false, Option, none, some, List, [], ◌∷◌, ◌≡◌, refl, map, length, All}
use nd_mind.Base.Dict.{Dict}
use nd_mind.Base.Sorting.{sort_by}
use nd_mind.Memory.Records.{ItemRecord}
use nd_mind.Retrieval.Candidates.{Candidate, Shape, SubQuery, filtered, soft_only}
use nd_mind.Retrieval.Select.{
  SelectSettings, current_first, joins, passes, select, select_list, select_ranked, top,
}
use nd_mind.Retrieval.Select.Current.{Fair, IsBest, Kept, select_ranked-Kept}
use nd_mind.Retrieval.Select.Listed.{Listed}

abbrev settings : SelectSettings
settings = record { rerank_min_score = 500000; answer_top_k = 2; list_max_items = 1 }

abbrev pune : Candidate
pune = record {
  item_id = 1;
  found_by = (0, 2) ∷ (3, 1) ∷ [];
  lexical = some 400000;
  demoted = false;
  rerank_score = some 800000;
}

abbrev bengaluru : Candidate
bengaluru = record pune { item_id = 2; demoted = true; rerank_score = some 900000 }

abbrev extra : Candidate
extra = record pune { item_id = 3; found_by = (0, 1) ∷ []; rerank_score = some 600000 }

abbrev candidates : List Candidate
candidates = bengaluru ∷ extra ∷ pune ∷ []

abbrev question : SubQuery
question = record { shape = Shape.list; missing_entity = false; expansion = none; window = none }

abbrev no_items : Option (Dict ItemRecord)
no_items = none

-- The ranked order is by score; the old row leads it, and is left out.
ranked : map (λ c. c.item_id) (select_ranked settings true candidates).selected ≡ 1 ∷ []
unfolding select_ranked top current_first sort_by
ranked = refl

listed :
    map (λ c. c.item_id) (select settings question candidates true [] no_items).selected
    ≡ 1 ∷ 3 ∷ []
unfolding select select_list current_first filtered joins soft_only passes
listed = refl

select_ranked-Kept_example :
    let selected = (select_ranked settings true candidates).selected in
    (length selected ≤ 2)
    × All (Fair settings true candidates) selected
    × Kept (top settings true candidates) selected
    × IsBest settings true candidates (top settings true candidates)
select_ranked-Kept_example = select_ranked-Kept settings true candidates

abbrev counting : SubQuery
counting = record question { shape = Shape.count }
