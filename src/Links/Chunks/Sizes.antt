-- ===== src/Links/Chunks/Sizes.antt =====
-- How large the chunks of links/chunking.py are.
use nd_mind.Base.{
  ℕ, zero, suc, ◌+◌, ◌≤◌, Bool-cases, true, false, not, ◌&&◌, List, [], ◌∷◌, ltb, leb,
  if◌then◌else◌, length, take, drop, max, All, All-append, ◌≡◌, refl, inl, inr, arith, ap,
  length-take,
}
use nd_mind.Links.Chunks.Words.{Laws, flat, total, total-cons, total-snoc}
use nd_mind.Links.Chunks.{
  Chunk, Current, Texts, add_unit, carry, chunk_loop, chunk_text, count, cut, cut_sentences,
  is_full, is_nil, nothing, number, tail, tail_loop, units, units_of, reverse_onto,
}

module _ {T W : Type 0} (texts : Texts T W) where
  abbrev AtMost : ℕ → T → Type 0
  AtMost limit u = count texts u ≤ limit

  module _ (laws : Laws texts) where
    cut-AtMost : (limit fuel : ℕ) (ws : List W) → All (AtMost limit) (cut texts limit fuel ws)
    unfolding cut
    cut-AtMost limit zero ws = tt
    cut-AtMost limit (suc fuel) ws =
        let rest = cut-AtMost limit fuel (drop limit ws) in
        elim (Bool-cases (ltb limit (length ws))) [
          | inl e ↦
              let n : count texts (texts.join_words (take limit ws)) ≤ limit =
                rw (laws.words_joined (take limit ws)) (omega (arith, length-take limit ws)) in
              rw e (n, rest)
          | inr e ↦ elim (Bool-cases (is_nil ws)) [
            | inl f ↦ rw (e, f) tt
            | inr f ↦
                let n : count texts (texts.join_words ws) ≤ limit =
                  rw (laws.words_joined ws) (ground (arith, e)) in
                rw (e, f) (n, tt)
          ]
        ]

    cut_sentences-AtMost :
        (limit : ℕ) (ss : List T) → All (AtMost limit) (cut_sentences texts limit ss)
    unfolding cut_sentences
    cut_sentences-AtMost limit [] = tt
    cut_sentences-AtMost limit (s ∷ ss) =
        let ws = texts.words s in
        All-append (AtMost limit) (cut texts limit (suc (length ws)) ws)
          (cut_sentences texts limit ss) (cut-AtMost limit (suc (length ws)) ws)
          (cut_sentences-AtMost limit ss)

    pub units_of-AtMost : (limit : ℕ) (ps : List T) → All (AtMost limit) (units_of texts limit ps)
    unfolding units_of
    units_of-AtMost limit [] = tt
    units_of-AtMost limit (p ∷ ps) =
        let rest = units_of-AtMost limit ps in
        elim (Bool-cases (texts.is_blank p)) [
          | inl e ↦ rw e rest
          | inr e ↦ elim (Bool-cases (leb (count texts p) limit)) [
            | inl f ↦ let n : count texts p ≤ limit = ground (arith, f) in rw (e, f) (n, rest)
            | inr f ↦
                rw (e, f)
                  (All-append (AtMost limit) (cut_sentences texts limit (texts.sentences p))
                    (units_of texts limit ps) (cut_sentences-AtMost limit (texts.sentences p)) rest)
          ]
        ]

    -- The tail of a chunk: what was counted, and no more than the limit.
    abbrev pub Counted : ℕ → List T × ℕ → Type 0
    Counted limit p = (total texts p.0 ≡ p.1) × (p.1 ≤ limit)

    tail_loop-Counted :
        (limit : ℕ) (ss keep : List T) (n : ℕ)
        → total texts keep ≡ n
        → n ≤ limit
        → Counted limit (tail_loop texts limit ss keep n)
    unfolding tail_loop
    tail_loop-Counted limit [] keep n e l = (e, l)
    tail_loop-Counted limit (s ∷ ss) keep n e l =
        let ih = tail_loop-Counted limit ss (s ∷ keep) (n + count texts s) in
        elim (Bool-cases (ltb limit (n + count texts s))) [
          | inl f ↦ rw f (e, l)
          | inr f ↦ rw f (ih (omega (arith, total-cons texts s keep, e)) (ground (arith, f)))
        ]

    pub tail-Counted : (parts : List T) (limit : ℕ) → Counted limit (tail texts parts limit)
    unfolding tail flat
    tail-Counted parts limit =
        tail_loop-Counted limit (reverse_onto (texts.sentences (texts.join_paragraphs parts)) []) []
          0 refl (omega arith)

    -- A chunk under way whose words are counted right and are not too many.
    pub record IsSized (most : ℕ) (c : Current T) : Type 0 where
      pub counted : total texts c.parts ≡ c.size
      pub bounded : c.size ≤ most

    pub carry-IsSized :
        (limit : ℕ) (p : List T × ℕ) → Counted limit p → IsSized limit (carry texts p)
    unfolding flat
    carry-IsSized limit p h =
        let text = texts.join_sentences p.0 in
        let n : count texts text ≡ p.1 = rw (laws.sentences_joined p.0) h.0 in
        elim (Bool-cases (texts.is_blank text)) [
          | inl e ↦
              let none_left : count texts text ≡ 0 = rw (laws.blank text e) refl in
              rw e (record { counted = omega (arith, n, none_left); bounded = h.1 })
          | inr e ↦
              rw e (record { counted = omega (arith, n, total-cons texts text []); bounded = h.1 })
        ]

    is_nil-total : (ts : List T) → is_nil ts ≡ true → total texts ts ≡ 0
    unfolding flat
    is_nil-total [] e = refl
    is_nil-total (t ∷ ts) e = cc

    not_full :
        (target overlap : ℕ) (unit : T) (c : Current T)
        → count texts unit ≤ target
        → IsSized (target + overlap) c
        → is_full texts target unit c ≡ false
        → c.size + count texts unit ≤ target + overlap
    not_full target overlap unit c n h e = elim (Bool-cases (is_nil c.parts)) [
      | inl f ↦ omega (arith, h.counted, is_nil-total c.parts f, n)
      | inr f ↦ let g = rw f at e in ground (arith, g)
    ]

    -- Adding a unit to a chunk that is not full, or to the new chunk that follows a full one.
    add_unit-IsSized :
        (target overlap : ℕ) (unit : T) (c : Current T)
        → count texts unit ≤ target
        → IsSized (target + overlap) c
        → IsSized (target + overlap) (
            add_unit texts unit
              (if is_full texts target unit c then carry texts (tail texts c.parts overlap) else c))
    add_unit-IsSized target overlap unit c n h = elim (Bool-cases (is_full texts target unit c)) [
      | inl e ↦
          let start =
            carry-IsSized overlap (tail texts c.parts overlap) (tail-Counted c.parts overlap) in
          let first = carry texts (tail texts c.parts overlap) in
          rw e (record {
            counted = omega (arith, total-snoc texts first.parts unit, start.counted);
            bounded = omega (arith, start.bounded, n);
          })
      | inr e ↦ rw e (record {
        counted = omega (arith, total-snoc texts c.parts unit, h.counted);
        bounded = not_full target overlap unit c n h e;
      })
    ]

    chunk_loop-AtMost :
        (target overlap : ℕ) (us : List T) (c : Current T)
        → All (AtMost target) us
        → IsSized (target + overlap) c
        → All (λ parts. total texts parts ≤ target + overlap) (chunk_loop texts target overlap us c)
    unfolding chunk_loop
    chunk_loop-AtMost target overlap [] c n h =
        elim (Bool-cases (not (is_nil c.parts) && ltb 0 c.fresh)) [
          | inl e ↦ rw e (omega (arith, h.counted, h.bounded), tt)
          | inr e ↦ rw e tt
        ]
    chunk_loop-AtMost target overlap (unit ∷ us) c n h =
        let start =
          if is_full texts target unit c then carry texts (tail texts c.parts overlap) else c in
        let rest =
          chunk_loop-AtMost target overlap us (add_unit texts unit start) n.1
            (add_unit-IsSized target overlap unit c n.0 h) in
        elim (Bool-cases (is_full texts target unit c)) [
          | inl e ↦ rw e (omega (arith, h.counted, h.bounded), rw e at rest)
          | inr e ↦ rw e (rw e at rest)
        ]

    take-All {κ} :
        {A : Type 0} (Q : A → Type κ) (n : ℕ) (xs : List A) → All Q xs → All Q (take n xs)
    take-All Q zero xs h = tt
    take-All Q (suc n) [] h = tt
    take-All Q (suc n) (x ∷ xs) h = (h.0, take-All Q n xs h.1)

    number-AtMost :
        (most n : ℕ) (cs : List (List T))
        → All (λ parts. total texts parts ≤ most) cs
        → All (λ (c : Chunk T). count texts c.text ≤ most) (number texts n cs)
    number-AtMost most n [] h = tt
    number-AtMost most n (c ∷ cs) h =
        (rw (laws.paragraphs_joined c) h.0, number-AtMost most (suc n) cs h.1)

    length-number : (n : ℕ) (cs : List (List T)) → length (number texts n cs) ≡ length cs
    length-number n [] = refl
    length-number n (c ∷ cs) = ap suc (length-number (suc n) cs)

    -- At most `max_chunks` chunks, each of at most the target's words and the overlap's.
    pub chunk_text-bounded :
        (in_words : ℕ) (share : ℕ → ℕ) (max_chunks : ℕ) (text : T)
        → (length (chunk_text texts in_words share max_chunks text) ≤ max_chunks)
          × All
              (λ (c : Chunk T). count texts c.text ≤ max in_words 20 + share (max in_words 20))
              (chunk_text texts in_words share max_chunks text)
    unfolding chunk_text flat
    chunk_text-bounded in_words share max_chunks text =
        let target = max in_words 20 in
        let most = target + share target in
        let us = units texts text target in
        let cs = chunk_loop texts target (share target) us (nothing texts) in
        let sized =
          chunk_loop-AtMost target (share target) us (nothing texts)
            (units_of-AtMost target (texts.paragraphs text))
            (record { counted = refl; bounded = omega arith }) in
        (
          omega (arith, length-number 0 (take max_chunks cs), length-take max_chunks cs),
          number-AtMost most 0 (take max_chunks cs)
              (take-All (λ parts. total texts parts ≤ most) max_chunks cs sized),
        )
