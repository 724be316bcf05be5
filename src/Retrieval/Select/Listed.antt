-- ===== src/Retrieval/Select/Listed.antt =====
-- What retrieval/select.py selects for a list, and for a count.
use nd_mind.Base.{ℕ, Bool, true, Option, List, ◌==◌, ◌≡◌, ◌⊎◌, any}
use nd_mind.Base.Dict.{Dict}
use nd_mind.Memory.Records.{ItemRecord}
use nd_mind.Retrieval.Candidates.{Candidate, SubQuery}
use nd_mind.Retrieval.Select.{SelectSettings, base_of, joins}
use mathlib.Core.List.{Memᴰ}

-- A row that a filtered tool found, or an extra that the soft channel found and that passes.
abbrev pub Listed :
    SelectSettings
    → Bool
    → SubQuery
    → Option (Dict ItemRecord)
    → List Candidate
    → Candidate
    → Type 0
Listed settings reranked sub items candidates c =
    Memᴰ c (base_of candidates) ⊎ (Memᴰ c candidates × (joins settings reranked sub items c ≡ true))

-- It was counted.
abbrev pub WasCounted : List ℕ → List Candidate → Candidate → Type 0
WasCounted counted candidates c = Memᴰ c candidates × (any (◌==◌ c.item_id) counted ≡ true)
