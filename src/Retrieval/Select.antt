-- ===== src/Retrieval/Select.antt =====
-- retrieval/select.py: which candidates reach the answer.
pub mod Listed
pub mod Current
use nd_mind.Ingestion.Time.Windows.{Window, contains}
use nd_mind.Base.{
  ℕ, suc, ◌-◌, Bool, true, false, not, ◌&&◌, ◌||◌, Option, none, some, List, [], ◌∷◌, ◌++◌, ◌==◌,
  ltb, leb, if◌then◌else◌, any, filter, take, length, map,
}
use nd_mind.Base.Sorting.{sort_by}
use nd_mind.Base.Dict.{Dict, lookup}
use nd_mind.Memory.Records.{ItemRecord}
use nd_mind.Retrieval.Candidates.{Candidate, ExpansionSource, Shape, SubQuery, filtered, soft_only}

pub record SelectSettings : Type 0 where
  pub rerank_min_score : ℕ
  pub answer_top_k : ℕ
  pub list_max_items : ℕ

-- Why a candidate is selected or not; a score's text is left out.
pub data Why : Type 0 where
  not_known was_counted not_counted found extra over_limit earlier below_bar selected not_selected :
      Why

-- A candidate's `selected` and `reason`.
pub record Mark : Type 0 where
  pub item_id : ℕ
  pub selected : Bool
  pub reason : Why

pub record Selection : Type 0 where
  pub selected : List Candidate
  pub more : ℕ
  pub marks : List Mark

abbrev is_nil : List Candidate → Bool
is_nil [] = true
is_nil (c ∷ cs) = false

-- `c in chosen`, by the item.
abbrev pub is_in : Candidate → List Candidate → Bool
is_in c cs = any (λ d. d.item_id == c.item_id) cs

-- `_current_first`
unfoldable pub current_first : List Candidate → List Candidate
current_first chosen =
    let current = filter (λ c. not c.demoted) chosen in if is_nil current then chosen else current

abbrev pub has_words : Option ℕ → Bool
has_words none = false
has_words (some n) = ltb 0 n

abbrev pub at_least : ℕ → Option ℕ → Bool
at_least bar none = false
at_least bar (some score) = leb bar score

abbrev passes_by : Option ℕ → Option ℕ → Bool → ℕ → Bool
passes_by (some score) lexical true bar = leb bar score
passes_by none lexical true bar = has_words lexical
passes_by score lexical false bar = has_words lexical

-- `_passes`
unfoldable pub passes : SelectSettings → Bool → Candidate → Bool
passes settings reranked c = passes_by c.rerank_score c.lexical reranked settings.rerank_min_score

abbrev holds_some : Window → Option ℕ → Bool
holds_some w none = false
holds_some w (some at) = contains w at

-- `_in_window`, of a question's window
abbrev pub in_window : Option Window → ItemRecord → Bool
in_window none item = true
in_window (some w) item =
    holds_some w item.content.occurred_start
    || holds_some w item.content.due_at
    || contains w item.content.mentioned_at

abbrev out_of_window : Option Window → Option ItemRecord → Bool
out_of_window window none = false
out_of_window window (some item) = not (in_window window item)

abbrev is_set : Shape → Bool
is_set Shape.set = true
is_set _ = false

abbrev is_time_window : Shape → Bool
is_time_window Shape.time_window = true
is_time_window _ = false

abbrev pub is_count : Shape → Bool
is_count Shape.count = true
is_count _ = false

abbrev is_code : Option ExpansionSource → Bool
is_code (some ExpansionSource.code) = true
is_code _ = false

-- LIST_LIKE
abbrev pub list_like : Shape → Bool
list_like Shape.list = true
list_like Shape.set = true
list_like Shape.time_window = true
list_like Shape.situational = true
list_like _ = false

-- The first place of an item in a list of items: `list(counted).index`.
abbrev pub index : ℕ → List ℕ → ℕ
index k [] = 0
index k (j ∷ js) = let rest = index k js in if j == k then 0 else suc rest

-- The reranked order: the key is the score negated, or 1 where there is none.
abbrev precedes : Option ℕ → Option ℕ → Bool
precedes a none = true
precedes none (some b) = false
precedes (some a) (some b) = leb b a

abbrev pub scores_first : Candidate → Candidate → Bool
scores_first c d = precedes c.rerank_score d.rerank_score

abbrev mark_all : (Candidate → Bool) → (Candidate → Why) → List Candidate → List Mark
mark_all chosen why [] = []
mark_all chosen why (c ∷ cs) =
    record { item_id = c.item_id; selected = chosen c; reason = why c } ∷ mark_all chosen why cs

-- What the filtered tools found.
abbrev pub base_of : List Candidate → List Candidate
base_of candidates = current_first (filter filtered candidates)

module _ (settings : SelectSettings) (reranked : Bool) where
  -- The top of the pool, before rows that no longer hold are left out.
  unfoldable pub top : List Candidate → List Candidate
  top candidates =
      if reranked
      then take settings.answer_top_k (
          filter (λ c. at_least settings.rerank_min_score c.rerank_score)
            (sort_by scores_first candidates))
      else take settings.answer_top_k (filter (λ c. filtered c || has_words c.lexical) candidates)

  abbrev ranked_why : List Candidate → Candidate → Why
  ranked_why chosen c =
      if not (is_in c chosen) && c.demoted && reranked && passes settings reranked c
      then Why.earlier
      else if is_in c chosen
      then Why.selected
      else Why.not_selected

  -- `_select_ranked`
  unfoldable pub select_ranked : List Candidate → Selection
  select_ranked candidates =
      let chosen = current_first (top candidates) in
      record {
        selected = chosen;
        more = 0;
        marks = mark_all (λ c. is_in c chosen) (ranked_why chosen) candidates;
      }

  module _ (sub : SubQuery) (items : Option (Dict ItemRecord)) where
    abbrev item_of : Option (Dict ItemRecord) → ℕ → Option ItemRecord
    item_of none id = none
    item_of (some d) id = lookup id d

    -- `joins`
    unfoldable pub joins : Candidate → Bool
    joins c =
        soft_only c
        && passes settings reranked c
        && not (is_set sub.shape)
        && not (is_time_window sub.shape && out_of_window sub.window (item_of items c.item_id))

    abbrev list_why : List Candidate → List Candidate → List Candidate → Candidate → Why
    list_why base kept chosen c =
        if is_in c kept
        then Why.found
        else if is_in c chosen
        then Why.extra
        else if is_in c base
        then Why.over_limit
        else if c.demoted && filtered c
        then Why.earlier
        else Why.below_bar

    -- `_select_list`
    unfoldable pub select_list : List Candidate → Selection
    select_list candidates =
        let base = base_of candidates in
        let kept = take settings.list_max_items base in
        let chosen = kept ++ take settings.answer_top_k (filter joins candidates) in
        record {
          selected = chosen;
          more = length base - length kept;
          marks = mark_all (λ c. is_in c chosen) (list_why base kept chosen) candidates;
        }

-- The shape count: what was counted, in that order.
unfoldable pub select_counted : List ℕ → List Candidate → Selection
select_counted counted candidates =
    let chosen =
      sort_by (λ c d. leb (index c.item_id counted) (index d.item_id counted))
        (filter (λ c. any (◌==◌ c.item_id) counted) candidates) in
    record {
      selected = chosen;
      more = 0;
      marks =
          mark_all (λ c. is_in c chosen)
            (λ c. if is_in c chosen then Why.was_counted else Why.not_counted) candidates;
    }

abbrev pub select_none : List Candidate → Selection
select_none candidates = record {
  selected = [];
  more = 0;
  marks = mark_all (λ c. false) (λ c. Why.not_known) candidates;
}

unfoldable pub select :
    SelectSettings
    → SubQuery
    → List Candidate
    → Bool
    → List ℕ
    → Option (Dict ItemRecord)
    → Selection
select settings sub candidates reranked counted items =
    if sub.missing_entity
    then select_none candidates
    else if is_count sub.shape
    then select_counted counted candidates
    else if list_like sub.shape || is_code sub.expansion
    then select_list settings reranked sub items candidates
    else select_ranked settings reranked candidates
