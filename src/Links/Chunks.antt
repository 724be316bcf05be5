-- ===== src/Links/Chunks.antt =====
-- links/chunking.py: cutting a page's text into chunks. What Python's texts and the expression for a
-- sentence's end do is a record of operations; the two sizes that come of floats are arguments.
pub mod Cutting
pub mod Sizes
pub mod Tests
pub mod Tails
pub mod Whole
pub mod Words
use nd_mind.Base.{
  ℕ, zero, suc, ◌+◌, Bool, true, false, not, ◌&&◌, Option, none, some, List, [], ◌∷◌, ◌++◌, ltb,
  leb, if◌then◌else◌, length, take, drop, map, max,
}

pub record Texts (T W : Type 0) : Type 0 where
  -- `split("\n\n")`, each part stripped, and whether one is empty
  pub paragraphs : T → List T
  pub is_blank : T → Bool
  -- `split()` and `" ".join` of words
  pub words : T → List W
  pub join_words : List W → T
  -- `_SENTENCE.split`, `"\n\n".join` and `" ".join` of sentences
  pub sentences : T → List T
  pub join_paragraphs : List T → T
  pub join_sentences : List T → T

-- A chunk under way: its parts, how many words they have, and how many of these are new.
pub record Current (T : Type 0) : Type 0 where
  pub parts : List T
  pub size : ℕ
  pub fresh : ℕ

pub record Chunk (T : Type 0) : Type 0 where
  pub position : ℕ
  pub text : T

abbrev pub is_nil {ℓ} : {A : Type ℓ} → List A → Bool
is_nil [] = true
is_nil (x ∷ xs) = false

abbrev pub reverse_onto {ℓ} : {A : Type ℓ} → List A → List A → List A
reverse_onto [] ys = ys
reverse_onto (x ∷ xs) ys = reverse_onto xs (x ∷ ys)

module _ {T W : Type 0} (texts : Texts T W) where
  abbrev pub count : T → ℕ
  count t = length (texts.words t)

  -- The loop over a sentence that is too long; each round takes at least a word.
  unfoldable pub cut : ℕ → ℕ → List W → List T
  cut limit zero ws = []
  cut limit (suc fuel) ws =
      let rest = cut limit fuel (drop limit ws) in
      if ltb limit (length ws)
      then texts.join_words (take limit ws) ∷ rest
      else if is_nil ws
      then []
      else texts.join_words ws ∷ []

  unfoldable pub cut_sentences : ℕ → List T → List T
  cut_sentences limit [] = []
  cut_sentences limit (s ∷ ss) =
      let ws = texts.words s in cut limit (suc (length ws)) ws ++ cut_sentences limit ss

  unfoldable pub units_of : ℕ → List T → List T
  units_of limit [] = []
  units_of limit (p ∷ ps) =
      let rest = units_of limit ps in
      if texts.is_blank p
      then rest
      else if leb (count p) limit
      then p ∷ rest
      else cut_sentences limit (texts.sentences p) ++ rest

  -- `_units`
  abbrev pub units : T → ℕ → List T
  units text limit = units_of limit (texts.paragraphs text)

  -- The loop of `_tail` over the sentences, last first.
  unfoldable pub tail_loop : ℕ → List T → List T → ℕ → List T × ℕ
  tail_loop limit [] keep n = (keep, n)
  tail_loop limit (s ∷ ss) keep n =
      let rest = tail_loop limit ss (s ∷ keep) (n + count s) in
      if ltb limit (n + count s) then (keep, n) else rest

  -- `_tail`: the text, none where it is empty, and its words.
  unfoldable pub tail : List T → ℕ → List T × ℕ
  tail parts limit =
      tail_loop limit (reverse_onto (texts.sentences (texts.join_paragraphs parts)) []) [] 0

  -- What a new chunk starts with; `keep` joined is empty just if `is_blank` says so.
  abbrev pub carry : List T × ℕ → Current T
  carry (keep, n) =
      let text = texts.join_sentences keep in
      record { parts = if texts.is_blank text then [] else text ∷ []; size = n; fresh = 0 }

  abbrev pub add_unit : T → Current T → Current T
  add_unit unit c = record {
    parts = c.parts ++ unit ∷ [];
    size = c.size + count unit;
    fresh = c.fresh + count unit;
  }

  abbrev pub is_full : ℕ → T → Current T → Bool
  is_full target unit c = not (is_nil c.parts) && ltb target (c.size + count unit)

  -- The loop of `chunk_text`; it gives the chunks in order.
  unfoldable pub chunk_loop : ℕ → ℕ → List T → Current T → List (List T)
  chunk_loop target overlap [] c =
      if not (is_nil c.parts) && ltb 0 c.fresh then c.parts ∷ [] else []
  chunk_loop target overlap (unit ∷ us) c =
      let full = is_full target unit c in
      let start = if full then carry (tail c.parts overlap) else c in
      let rest = chunk_loop target overlap us (add_unit unit start) in
      if full then c.parts ∷ rest else rest

  abbrev pub nothing : Current T
  nothing = record { parts = []; size = 0; fresh = 0 }

  abbrev number : ℕ → List (List T) → List (Chunk T)
  number n [] = []
  number n (c ∷ cs) = record { position = n; text = texts.join_paragraphs c } ∷ number (suc n) cs

  -- `chunk_text`; `in_words` is `int(tokens / TOKENS_PER_WORD)`, and `share` of the target
  -- `int(target * overlap)`.
  unfoldable pub chunk_text : ℕ → (ℕ → ℕ) → ℕ → T → List (Chunk T)
  chunk_text in_words share max_chunks text =
      let target = max in_words 20 in
      number 0 (take max_chunks (chunk_loop target (share target) (units text target) nothing))
