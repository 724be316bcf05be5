-- ===== src/Links/Chunks/Tails.antt =====
-- What links/chunking.py repeats of a chunk in the next one: the last of its words.
use nd_mind.Base.{ℕ, ◌+◌, Bool-cases, List, [], ◌∷◌, ◌++◌, ltb, ◌≡◌, refl, inl, inr, ap, sym, ◌∙◌}
use nd_mind.Links.Chunks.{Texts, carry, count, reverse_onto, tail, tail_loop}
use nd_mind.Links.Chunks.Words.{Laws, flat}
use nd_mind.Links.Chunks.Cutting.{flat-append}
use mathlib.Core.List.{append-nil}

-- The list ends with these elements.
abbrev pub IsEnd {ℓ} : {A : Type ℓ} → List A → List A → Type ℓ
IsEnd {A} xs ys = (before : List A) × (xs ≡ before ++ ys)

reverse_onto-append :
    {A : Type 0} (xs ys zs : List A) → reverse_onto xs (ys ++ zs) ≡ reverse_onto xs ys ++ zs
reverse_onto-append [] ys zs = refl
reverse_onto-append (x ∷ xs) ys zs = reverse_onto-append xs (x ∷ ys) zs

reversed_twice :
    {A : Type 0} (xs ys zs : List A)
    → reverse_onto (reverse_onto xs ys) zs ≡ reverse_onto ys (xs ++ zs)
reversed_twice [] ys zs = refl
reversed_twice (x ∷ xs) ys zs = reversed_twice xs (x ∷ ys) zs

module _ {T W : Type 0} (texts : Texts T W) where
  tail_loop-IsEnd :
      (limit : ℕ) (ss keep : List T) (n : ℕ)
      → IsEnd (reverse_onto ss keep) (tail_loop texts limit ss keep n).0
  unfolding tail_loop
  tail_loop-IsEnd limit [] keep n = ([], refl)
  tail_loop-IsEnd limit (s ∷ ss) keep n =
      let ih = tail_loop-IsEnd limit ss (s ∷ keep) (n + count texts s) in
      elim (Bool-cases (ltb limit (n + count texts s))) [
        | inl e ↦ rw e (reverse_onto ss (s ∷ []), reverse_onto-append ss (s ∷ []) keep)
        | inr e ↦ rw e ih
      ]

  tail-IsEnd :
      (limit : ℕ) (parts : List T)
      → IsEnd (texts.sentences (texts.join_paragraphs parts)) (tail texts parts limit).0
  unfolding tail
  tail-IsEnd limit parts =
      let ss = texts.sentences (texts.join_paragraphs parts) in
      let (before, e) = tail_loop-IsEnd limit (reverse_onto ss []) [] 0 in
      (before, sym (append-nil ss) ∙ sym (reversed_twice ss [] []) ∙ e)

  module _ (laws : Laws texts) where
    flat-carry : (p : List T × ℕ) → flat texts (carry texts p).parts ≡ flat texts p.0
    unfolding flat
    flat-carry p =
        let text = texts.join_sentences p.0 in
        let same : texts.words text ≡ flat texts p.0 = laws.sentences_joined p.0 in
        elim (Bool-cases (texts.is_blank text)) [
          | inl e ↦ rw e (sym (laws.blank text e) ∙ same)
          | inr e ↦ rw e (append-nil (texts.words text) ∙ same)
        ]

    -- A new chunk starts with the last words of the one before.
    pub carry-IsEnd :
        (limit : ℕ) (parts : List T)
        → IsEnd (flat texts parts) (flat texts (carry texts (tail texts parts limit)).parts)
    carry-IsEnd limit parts =
        let t = texts.join_paragraphs parts in
        let (before, e) = tail-IsEnd limit parts in
        let kept = (tail texts parts limit).0 in
        (
          flat texts before,
          sym (laws.paragraphs_joined parts)
              ∙ sym (laws.sentences_split t)
              ∙ ap (flat texts) e
              ∙ flat-append texts laws before kept
              ∙ ap (λ ws. flat texts before ++ ws) (sym (flat-carry (tail texts parts limit))),
        )
