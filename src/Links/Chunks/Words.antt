-- ===== src/Links/Chunks/Words.antt =====
-- The words of the texts that links/chunking.py cuts, and what its operations on them keep.
use nd_mind.Base.{ℕ, ◌+◌, List, [], ◌∷◌, ◌++◌, length, length-append, ◌≡◌, true, arith}
use nd_mind.Links.Chunks.{Texts, count}

-- What the operations on texts keep: the words.
module _ {T W : Type 0} (texts : Texts T W) where
  unfoldable pub flat : List T → List W
  flat [] = []
  flat (t ∷ ts) = texts.words t ++ flat ts

  pub record Laws : Type 0 where
    pub words_joined : (ws : List W) → texts.words (texts.join_words ws) ≡ ws
    pub sentences_joined : (ss : List T) → texts.words (texts.join_sentences ss) ≡ flat ss
    pub paragraphs_joined : (ps : List T) → texts.words (texts.join_paragraphs ps) ≡ flat ps
    pub sentences_split : (t : T) → flat (texts.sentences t) ≡ texts.words t
    pub blank : (t : T) → texts.is_blank t ≡ true → texts.words t ≡ []

  -- How many words some texts have.
  abbrev pub total : List T → ℕ
  total ts = length (flat ts)

  pub total-cons : (t : T) (ts : List T) → total (t ∷ ts) ≡ count texts t + total ts
  unfolding flat
  total-cons t ts = length-append (texts.words t) (flat ts)

  pub total-snoc : (ts : List T) (t : T) → total (ts ++ t ∷ []) ≡ total ts + count texts t
  unfolding flat
  total-snoc [] t = omega (arith, length-append (texts.words t) [])
  total-snoc (x ∷ ts) t = omega (
    arith,
    length-append (texts.words x) (flat ts),
    length-append (texts.words x) (flat (ts ++ t ∷ [])),
    total-snoc ts t,
  )
