-- ===== src/Links/Chunks/Cutting.antt =====
-- That cutting a page into units, as links/chunking.py does, keeps its words and their order.
use nd_mind.Base.{
  ℕ, zero, suc, ◌+◌, ◌<◌, Bool-cases, true, List, [], ◌∷◌, ◌++◌, ltb, leb, length, take, drop, max,
  ◌≡◌, refl, inl, inr, arith, ap, sym, ◌∙◌,
}
use nd_mind.Links.Chunks.Words.{Laws, flat}
use nd_mind.Links.Chunks.{Texts, count, cut, cut_sentences, is_nil, units_of}
use mathlib.Core.List.{append-nil, append_assoc}

take-drop : {A : Type 0} (n : ℕ) (xs : List A) → take n xs ++ drop n xs ≡ xs
take-drop zero xs = refl
take-drop (suc n) [] = refl
take-drop (suc n) (x ∷ xs) = ap (λ ys. x ∷ ys) (take-drop n xs)

length-drop : {A : Type 0} (n : ℕ) (xs : List A) → length (drop n xs) + n ≡ max n (length xs)
length-drop zero xs = omega arith
length-drop (suc n) [] = omega arith
length-drop (suc n) (x ∷ xs) = omega (arith, length-drop n xs)

pub is_nil-nil : {A : Type 0} (xs : List A) → is_nil xs ≡ true → xs ≡ []
is_nil-nil [] e = refl
is_nil-nil (x ∷ xs) e = cc

module _ {T W : Type 0} (texts : Texts T W) (laws : Laws texts) where
  pub flat-append : (ss ts : List T) → flat texts (ss ++ ts) ≡ flat texts ss ++ flat texts ts
  unfolding flat
  flat-append [] ts = refl
  flat-append (s ∷ ss) ts =
      ap (λ ws. texts.words s ++ ws) (flat-append ss ts)
      ∙ sym (append_assoc (texts.words s) (flat texts ss) (flat texts ts))

  -- Its fuel is enough, and the parts that a sentence is cut into have its words.
  flat-cut :
      (limit fuel : ℕ) (ws : List W)
      → 0 < limit
      → length ws < fuel
      → flat texts (cut texts limit fuel ws) ≡ ws
  unfolding cut flat
  flat-cut limit zero ws p l = absurd (omega (arith, l))
  flat-cut limit (suc fuel) ws p l =
      let ih = flat-cut limit fuel (drop limit ws) p in
      elim (Bool-cases (ltb limit (length ws))) [
        | inl e ↦
            let long : limit < length ws = ground (arith, e) in
            let rest = ih (omega (arith, length-drop limit ws, p, long, l)) in
            rw (e, rest, laws.words_joined (take limit ws)) (take-drop limit ws)
        | inr e ↦ elim (Bool-cases (is_nil ws)) [
          | inl f ↦ rw (e, f) (sym (is_nil-nil ws f))
          | inr f ↦ rw (e, f, laws.words_joined ws) (append-nil ws)
        ]
      ]

  flat-cut_sentences :
      (limit : ℕ) (ss : List T)
      → 0 < limit
      → flat texts (cut_sentences texts limit ss) ≡ flat texts ss
  unfolding cut_sentences flat
  flat-cut_sentences limit [] p = refl
  flat-cut_sentences limit (s ∷ ss) p =
      let ws = texts.words s in
      rw
        (
          flat-append (cut texts limit (suc (length ws)) ws) (cut_sentences texts limit ss),
          flat-cut limit (suc (length ws)) ws p (omega arith),
          flat-cut_sentences limit ss p,
        )
        refl

  pub flat-units_of :
      (limit : ℕ) (ps : List T) → 0 < limit → flat texts (units_of texts limit ps) ≡ flat texts ps
  unfolding units_of flat
  flat-units_of limit [] p = refl
  flat-units_of limit (t ∷ ps) p =
      let rest = flat-units_of limit ps p in
      elim (Bool-cases (texts.is_blank t)) [
        | inl e ↦ rw (e, laws.blank t e) rest
        | inr e ↦ elim (Bool-cases (leb (count texts t) limit)) [
          | inl f ↦ rw (e, f, rest) refl
          | inr f ↦
              rw
                (
                  e,
                  f,
                  flat-append (cut_sentences texts limit (texts.sentences t))
                      (units_of texts limit ps),
                  flat-cut_sentences limit (texts.sentences t) p,
                  laws.sentences_split t,
                  rest,
                )
                refl
        ]
      ]
