-- ===== src/Retrieval/Select/Current.antt =====
-- What retrieval/select.py selects of a ranked list: enough, and nothing that no longer holds where
-- something current is found.
use nd_mind.Base.{
  ℕ, zero, suc, ◌≤◌, ◌⊎◌, ◌↔◌, get_or, Bool, Bool-cases, true, false, not, ◌||◌, List, [], ◌∷◌, ◌≡◌,
  ◌≢◌, refl, inl, inr, arith, filter, take, length, length-take, All,
}
use nd_mind.Base.Membership.{filter-All, filter-keeps, All-mem, mem-All, mem-filter}
use nd_mind.Base.Sorting.{
  sort_by, sort_by-All, mem-sort_by, IsSorted, sort_by-IsSorted, filter-IsSorted, take-best,
}
use nd_mind.Retrieval.Candidates.{Candidate, filtered}
use nd_mind.Retrieval.Select.{
  SelectSettings, at_least, current_first, has_words, is_nil, scores_first, select_ranked, top,
}
use mathlib.Core.List.{Memᴰ}

abbrev pub IsCurrent : Candidate → Type 0
IsCurrent c = c.demoted ≡ false

abbrev pub IsOld : Candidate → Type 0
IsOld c = c.demoted ≡ true

-- Of some candidates those that hold now, or all of them where none does.
pub data Kept (chosen : List Candidate) : List Candidate → Type 0 where
  current :
      {kept : List Candidate}
      → ((c : Candidate) → (Memᴰ c chosen × IsCurrent c) ↔ Memᴰ c kept)
      → kept ≢ []
      → Kept chosen kept
  all_old : All IsOld chosen → Kept chosen chosen

is_nil-nil : (cs : List Candidate) → is_nil cs ≡ true → cs ≡ []
is_nil-nil [] e = refl
is_nil-nil (c ∷ cs) e = cc

none_current : (cs : List Candidate) → filter (λ c. not c.demoted) cs ≡ [] → All IsOld cs
none_current [] e = tt
none_current (c ∷ cs) e = elim (Bool-cases c.demoted) [
  | inl f ↦ let g = rw f at e in (f, none_current cs g)
  | inr f ↦ let g = rw f at e in cc
]

is_nil-false : (cs : List Candidate) → is_nil cs ≡ false → cs ≢ []
is_nil-false [] e = cc
is_nil-false (c ∷ cs) e = λ w. cc

-- Just what is current is among what is kept.
mem-IsCurrent :
    (cs : List Candidate) (c : Candidate)
    → (Memᴰ c cs × IsCurrent c) ↔ Memᴰ c (filter (λ d. not d.demoted) cs)
mem-IsCurrent cs c =
    let held =
      filter-All (λ d. not d.demoted) (λ d. Memᴰ d cs × IsCurrent d) cs
        (λ d m f. (m, ground (arith, f))) in
    (
      λ (m, e). mem-filter (λ d. not d.demoted) c cs m (ground (arith, e)),
      mem-All (λ d. Memᴰ d cs × IsCurrent d) (filter (λ d. not d.demoted) cs) c held,
    )

pub current_first-Kept : (cs : List Candidate) → Kept cs (current_first cs)
unfolding current_first
current_first-Kept cs =
    let now = filter (λ c. not c.demoted) cs in
    elim (Bool-cases (is_nil now)) [
      | inl e ↦ rw e (Kept.all_old (none_current cs (is_nil-nil now e)))
      | inr e ↦ rw e (Kept.current (mem-IsCurrent cs) (is_nil-false now e))
    ]

length-filter : (p : Candidate → Bool) (cs : List Candidate) → length (filter p cs) ≤ length cs
length-filter p [] = omega arith
length-filter p (c ∷ cs) = let ih = length-filter p cs in ground (arith, ih)

length-current_first : (cs : List Candidate) → length (current_first cs) ≤ length cs
unfolding current_first
length-current_first cs = let n = length-filter (λ c. not c.demoted) cs in ground (arith, n)

module _ {κ} (Q : Candidate → Type κ) where
  pub take-All : (n : ℕ) (cs : List Candidate) → All Q cs → All Q (take n cs)
  take-All zero cs h = tt
  take-All (suc n) [] h = tt
  take-All (suc n) (c ∷ cs) h = (h.0, take-All n cs h.1)

  current_first-All : (cs : List Candidate) → All Q cs → All Q (current_first cs)
  unfolding current_first
  current_first-All cs h =
      let rest = filter-keeps (λ c. not c.demoted) Q Q cs (λ c q e. q) h in
      elim (Bool-cases (is_nil (filter (λ c. not c.demoted) cs))) [
        | inl e ↦ rw e h
        | inr e ↦ rw e rest
      ]

-- It scores at least the bar; or, without a rerank, a filtered tool found it or it shares a word.
abbrev pub Earns : SelectSettings → Bool → Candidate → Type 0
Earns settings true c = at_least settings.rerank_min_score c.rerank_score ≡ true
Earns settings false c = (filtered c || has_words c.lexical) ≡ true

abbrev pub Fair : SelectSettings → Bool → List Candidate → Candidate → Type 0
Fair settings reranked candidates c = Memᴰ c candidates × Earns settings reranked c

top-Fair :
    (settings : SelectSettings) (reranked : Bool) (cs : List Candidate)
    → All (Fair settings reranked cs) (top settings reranked cs)
unfolding top
top-Fair settings true cs =
    let bar : Candidate → Bool = λ c. at_least settings.rerank_min_score c.rerank_score in
    let sorted =
      sort_by-All scores_first (λ c. Memᴰ c cs) cs (All-mem (λ c. Memᴰ c cs) cs (λ c m. m)) in
    take-All (Fair settings true cs) settings.answer_top_k (filter bar (sort_by scores_first cs)) (
      filter-keeps bar (λ c. Memᴰ c cs) (Fair settings true cs) (sort_by scores_first cs)
        (λ c m e. (m, e)) sorted)
top-Fair settings false cs =
    let found : Candidate → Bool = λ c. filtered c || has_words c.lexical in
    take-All (Fair settings false cs) settings.answer_top_k (filter found cs)
      (filter-All found (Fair settings false cs) cs (λ c m e. (m, e)))

pub take_le : (n : ℕ) (cs : List Candidate) → length (take n cs) ≤ n
take_le n cs = omega (arith, length-take n cs)

length-top :
    (settings : SelectSettings) (reranked : Bool) (cs : List Candidate)
    → length (top settings reranked cs) ≤ settings.answer_top_k
unfolding top
length-top settings true cs =
    take_le settings.answer_top_k
      (filter (λ c. at_least settings.rerank_min_score c.rerank_score) (sort_by scores_first cs))
length-top settings false cs =
    take_le settings.answer_top_k (filter (λ c. filtered c || has_words c.lexical) cs)

-- With a rerank, it scores no less than another.
abbrev pub AtLeast : Bool → Candidate → Candidate → Type 0
AtLeast true d c = get_or d.rerank_score 0 ≤ get_or c.rerank_score 0
AtLeast false d c = Unit

-- A candidate that earns its place is among the best, or these are as many as may be, and with a rerank
-- none of them scores less.
abbrev pub IsBest : SelectSettings → Bool → List Candidate → List Candidate → Type 0
IsBest settings reranked candidates best =
    (d : Candidate)
    → Fair settings reranked candidates d
    → Memᴰ d best ⊎ ((length best ≡ settings.answer_top_k) × All (AtLeast reranked d) best)

scores_first-total : (c d : Candidate) → scores_first c d ≡ false → scores_first d c ≡ true
scores_first-total c d e = ground arith

scores_first_trans :
    (b c d : Candidate)
    → scores_first b c ≡ true
    → scores_first c d ≡ true
    → scores_first b d ≡ true
scores_first_trans b c d e f = ground arith

any_order : (cs : List Candidate) → IsSorted (λ c d. true) cs
any_order [] = tt
any_order (c ∷ cs) = (All-mem (λ d. true ≡ true) cs (λ d m. refl), any_order cs)

AtLeast-first :
    (d : Candidate) (cs : List Candidate)
    → All (λ c. scores_first c d ≡ true) cs
    → All (AtLeast true d) cs
AtLeast-first d [] h = tt
AtLeast-first d (c ∷ cs) h = let first = h.0 in (ground (arith, first), AtLeast-first d cs h.1)

top-IsBest :
    (settings : SelectSettings) (reranked : Bool) (cs : List Candidate)
    → IsBest settings reranked cs (top settings reranked cs)
unfolding top
top-IsBest settings true cs d (m, e) =
    let bar : Candidate → Bool = λ c. at_least settings.rerank_min_score c.rerank_score in
    let pool = filter bar (sort_by scores_first cs) in
    let sorted =
      filter-IsSorted scores_first bar (sort_by scores_first cs)
        (sort_by-IsSorted scores_first scores_first-total scores_first_trans cs) in
    let there = mem-filter bar d (sort_by scores_first cs) (mem-sort_by scores_first d cs m) e in
    elim (take-best scores_first settings.answer_top_k pool d sorted there) [
      | inl k ↦ inl k
      | inr (l, all) ↦ inr (l, AtLeast-first d (take settings.answer_top_k pool) all)
    ]
top-IsBest settings false cs d (m, e) =
    let found : Candidate → Bool = λ c. filtered c || has_words c.lexical in
    let pool = filter found cs in
    elim (take-best (λ c d. true) settings.answer_top_k pool d (any_order pool)
      (mem-filter found d cs m e)) [
        | inl k ↦ inl k
        | inr (l, all) ↦
            inr (l, All-mem (AtLeast false d) (take settings.answer_top_k pool) (λ c k. tt))
      ]

-- Of the candidates of a ranked question that earn it, by their score or, without a rerank, by a
-- filtered tool or a shared word, the answer has at most `answer_top_k`: with a rerank none that is left
-- out for their number scores better. Of these just those are cited that still hold, or all of them
-- where none does.
pub select_ranked-Kept :
    (settings : SelectSettings) (reranked : Bool) (candidates : List Candidate)
    → let selected = (select_ranked settings reranked candidates).selected in
      (length selected ≤ settings.answer_top_k)
      × All (Fair settings reranked candidates) selected
      × Kept (top settings reranked candidates) selected
      × IsBest settings reranked candidates (top settings reranked candidates)
unfolding select_ranked
select_ranked-Kept settings reranked cs =
    let best = top settings reranked cs in
    (
      omega (arith, length-current_first best, length-top settings reranked cs),
      current_first-All (Fair settings reranked cs) best (top-Fair settings reranked cs),
      current_first-Kept best,
      top-IsBest settings reranked cs,
    )
