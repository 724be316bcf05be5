-- ===== src/Links/Chunks/Whole.antt =====
-- That links/chunking.py loses none of a page's words.
use nd_mind.Base.{
  ℕ, ◌≤◌, ◌<◌, Bool-cases, false, not, ◌&&◌, List, [], ◌∷◌, ◌++◌, ltb, if◌then◌else◌, length, map,
  All, ◌≡◌, refl, inl, inr, arith, ap, sym, ◌∙◌,
}
use nd_mind.Links.Chunks.Cutting.{flat-append, flat-units_of, is_nil-nil}
use nd_mind.Links.Chunks.Words.{Laws, flat, total, total-cons, total-snoc}
use nd_mind.Links.Chunks.Sizes.{carry-IsSized, tail-Counted}
use nd_mind.Links.Chunks.Tails.{IsEnd, carry-IsEnd}
use nd_mind.Links.Chunks.{
  Current, Texts, add_unit, carry, chunk_loop, is_full, is_nil, nothing, tail, units,
}
use mathlib.Core.List.{append-nil, append_assoc}

-- A chunk: what it repeats of the one before, and what is new.
abbrev pub Split : Type 0 → Type 0
Split T = List T × List T

abbrev pub parts_of : {T : Type 0} → Split T → List T
parts_of s = s.0 ++ s.1

abbrev pub news : {T : Type 0} → List (Split T) → List T
news [] = []
news (s ∷ ss) = s.1 ++ news ss

append_nil_right : {A : Type 0} (xs ys : List A) → xs ++ ys ≡ [] → ys ≡ []
append_nil_right [] ys e = e
append_nil_right (x ∷ xs) ys e = cc

length-zero : {A : Type 0} (xs : List A) → length xs ≡ 0 → xs ≡ []
length-zero [] e = refl
length-zero (x ∷ xs) e = absurd (omega (arith, e))

module _ {T W : Type 0} (texts : Texts T W) where
  short : (p : List T × ℕ) → length ((carry texts p).parts) ≤ 1
  short p = ground arith

module _ {T W : Type 0} (texts : Texts T W) (laws : Laws texts) where
  -- What a chunk repeats is one text at most, of at most the overlap's words.
  abbrev pub Repeats : ℕ → Split T → Type 0
  Repeats overlap s = (length s.0 ≤ 1) × (total texts s.0 ≤ overlap)

  -- What each chunk repeats are the last words of the one before it.
  abbrev pub Follow : List W → List (Split T) → Type 0
  Follow before [] = Unit
  Follow before (s ∷ ss) = IsEnd before (flat texts s.0) × Follow (flat texts (parts_of s)) ss

  -- The chunks, after some words, and the words that are new in them.
  pub record Cover (overlap : ℕ) (before : List W) (chunks : List (List T)) (ws : List W)
      : Type 0 where
    pub splits : List (Split T)
    pub are_chunks : map parts_of splits ≡ chunks
    pub all_words : flat texts (news splits) ≡ ws
    pub repeats : All (Repeats overlap) splits
    pub follow : Follow before splits

  -- A chunk under way is split too.
  record IsSplit (overlap : ℕ) (c : Current T) (s : Split T) : Type 0 where
    made : parts_of s ≡ c.parts
    repeats : Repeats overlap s
    fresh : total texts s.1 ≡ c.fresh

  no_fresh :
      {overlap : ℕ} (c : Current T) (s : Split T)
      → IsSplit overlap c s
      → (not (is_nil c.parts) && ltb 0 c.fresh) ≡ false
      → total texts s.1 ≡ 0
  unfolding flat
  no_fresh c s h e = elim (Bool-cases (is_nil c.parts)) [
    | inl f ↦
        let none_left : s.1 ≡ [] = append_nil_right s.0 s.1 (h.made ∙ is_nil-nil c.parts f) in
        rw none_left refl
    | inr f ↦ let g = rw f at e in ground (arith, g, h.fresh)
  ]

  last-Cover :
      (overlap : ℕ) (before : List W) (c : Current T) (s : Split T)
      → IsSplit overlap c s
      → IsEnd before (flat texts s.0)
      → Cover overlap before (c.parts ∷ []) (flat texts s.1)
  last-Cover overlap before c s h t = record {
    follow = (t, tt);
    splits = s ∷ [];
    are_chunks = ap (λ p. p ∷ []) h.made;
    all_words = ap (flat texts) (append-nil s.1);
    repeats = (h.repeats, tt);
  }

  -- What is left at the end without a new word has nothing new.
  end-Cover :
      (overlap : ℕ) (before : List W) (c : Current T) (s : Split T)
      → IsSplit overlap c s
      → IsEnd before (flat texts s.0)
      → Cover overlap before
          (if not (is_nil c.parts) && ltb 0 c.fresh then c.parts ∷ [] else [])
          (flat texts s.1)
  unfolding flat
  end-Cover overlap before c s h t = elim (Bool-cases (not (is_nil c.parts) && ltb 0 c.fresh)) [
    | inl e ↦ rw e (last-Cover overlap before c s h t)
    | inr e ↦
        let nothing_new : flat texts s.1 ≡ [] = length-zero (flat texts s.1) (no_fresh c s h e) in
        rw (e, nothing_new)
          (record { splits = []; are_chunks = refl; all_words = refl; repeats = tt; follow = tt })
  ]

  -- A chunk that starts with the tail of another and a unit.
  first-IsSplit :
      (overlap : ℕ) (parts : List T) (unit : T)
      → IsSplit overlap
          (add_unit texts unit (carry texts (tail texts parts overlap)))
          ((carry texts (tail texts parts overlap)).parts, unit ∷ [])
  unfolding flat
  first-IsSplit overlap parts unit =
      let sized =
        carry-IsSized texts laws overlap (tail texts parts overlap)
          (tail-Counted texts laws parts overlap) in
      record {
        made = refl;
        repeats =
            (short texts (tail texts parts overlap), omega (arith, sized.counted, sized.bounded));
        fresh = omega (arith, total-cons texts unit []);
      }

  next-IsSplit :
      (overlap : ℕ) (c : Current T) (s : Split T) (unit : T)
      → IsSplit overlap c s
      → IsSplit overlap (add_unit texts unit c) (s.0, s.1 ++ unit ∷ [])
  next-IsSplit overlap c s unit h = record {
    made = sym (append_assoc s.0 s.1 (unit ∷ [])) ∙ ap (λ ps. ps ++ unit ∷ []) h.made;
    repeats = h.repeats;
    fresh = omega (arith, total-snoc texts s.1 unit, h.fresh);
  }

  cons-Cover :
      (overlap : ℕ) (before : List W) (c : Current T) (s : Split T) (chunks : List (List T))
      (ws : List W)
      → IsSplit overlap c s
      → IsEnd before (flat texts s.0)
      → Cover overlap (flat texts (parts_of s)) chunks ws
      → Cover overlap before (c.parts ∷ chunks) (flat texts s.1 ++ ws)
  cons-Cover overlap before c s chunks ws h t rest =
      let both : parts_of s ∷ map parts_of rest.splits ≡ c.parts ∷ chunks =
        rw (h.made, rest.are_chunks) refl in
      record {
        splits = s ∷ rest.splits;
        are_chunks = both;
        all_words =
            flat-append texts laws s.1 (news rest.splits)
            ∙ ap (λ us. flat texts s.1 ++ us) rest.all_words;
        repeats = (h.repeats, rest.repeats);
        follow = (t, rest.follow);
      }

  chunk_loop-Cover :
      (target overlap : ℕ) (us : List T) (before : List W) (c : Current T) (s : Split T)
      → IsSplit overlap c s
      → IsEnd before (flat texts s.0)
      → Cover overlap before
          (chunk_loop texts target overlap us c)
          (flat texts s.1 ++ flat texts us)
  unfolding chunk_loop flat
  chunk_loop-Cover target overlap [] before c s h t =
      rw (append-nil (flat texts s.1)) (end-Cover overlap before c s h t)
  chunk_loop-Cover target overlap (unit ∷ us) before c s h t =
      let first = carry texts (tail texts c.parts overlap) in
      let after : IsEnd (flat texts (parts_of s)) (flat texts first.parts) =
        rw h.made (carry-IsEnd texts laws overlap c.parts) in
      let full =
        chunk_loop-Cover target overlap us (flat texts (parts_of s)) (add_unit texts unit first)
          (first.parts, unit ∷ []) (first-IsSplit overlap c.parts unit) after in
      let more =
        chunk_loop-Cover target overlap us before (add_unit texts unit c) (s.0, s.1 ++ unit ∷ [])
          (next-IsSplit overlap c s unit h) t in
      elim (Bool-cases (is_full texts target unit c)) [
        | inl e ↦
            let w = rw (append-nil (texts.words unit)) at full in
            rw e (
              cons-Cover overlap before c s
                (chunk_loop texts target overlap us (add_unit texts unit first))
                (texts.words unit ++ flat texts us) h t w)
        | inr e ↦
            let w =
              rw
                (
                  flat-append texts laws s.1 (unit ∷ []),
                  append-nil (texts.words unit),
                  append_assoc (flat texts s.1) (texts.words unit) (flat texts us),
                )
                at more in
            rw e w
      ]

  -- Each chunk, before any is left out for their number, starts with one text at most, which has the last
  -- words of the chunk before it, no more than the overlap, and the first chunk with none; the rest is new,
  -- and what is new has all the page's words, in order.
  pub chunk_loop-covers :
      (target overlap : ℕ) (text : T)
      → 0 < target
      → Cover overlap []
          (chunk_loop texts target overlap (units texts text target) (nothing texts))
          (flat texts (texts.paragraphs text))
  unfolding flat
  chunk_loop-covers target overlap text p =
      let cover =
        chunk_loop-Cover target overlap (units texts text target) [] (nothing texts) ([], [])
          (record { made = refl; repeats = (omega arith, omega arith); fresh = refl }) ([], refl) in
      rw (flat-units_of texts laws target (texts.paragraphs text) p) at cover
