-- ===== src/Links/Chunks/Tests.antt =====
-- Texts whose words are numbers, and a page of one paragraph.
use nd_mind.Base.{ℕ, ◌≤◌, ◌+◌, true, List, [], ◌∷◌, ◌++◌, length, All, ◌≡◌, refl, arith, ap}
use nd_mind.Links.Chunks.{
  Chunk, Texts, chunk_loop, chunk_text, count, cut, cut_sentences, is_nil, nothing, tail, tail_loop,
  units, units_of,
}
use nd_mind.Links.Chunks.Sizes.{chunk_text-bounded}
use nd_mind.Links.Chunks.Whole.{Cover, chunk_loop-covers}
use nd_mind.Links.Chunks.Words.{Laws, flat}
use mathlib.Core.List.{append-nil}

abbrev flatten : List (List ℕ) → List ℕ
flatten [] = []
flatten (t ∷ ts) = t ++ flatten ts

abbrev word_numbers : Texts (List ℕ) ℕ
word_numbers = record {
  paragraphs = λ t. t ∷ [];
  is_blank = is_nil;
  words = λ t. t;
  join_words = λ ws. ws;
  sentences = λ t. t ∷ [];
  join_paragraphs = flatten;
  join_sentences = flatten;
}

flatten-flat : (ts : List (List ℕ)) → flatten ts ≡ flat word_numbers ts
unfolding flat
flatten-flat [] = refl
flatten-flat (t ∷ ts) = ap (λ us. t ++ us) (flatten-flat ts)

is_nil-nil : (t : List ℕ) → is_nil t ≡ true → t ≡ []
is_nil-nil [] e = refl
is_nil-nil (w ∷ t) e = cc

word_numbers-Laws : Laws word_numbers
unfolding flat
word_numbers-Laws = record {
  words_joined = λ ws. refl;
  sentences_joined = flatten-flat;
  paragraphs_joined = flatten-flat;
  sentences_split = append-nil;
  blank = is_nil-nil;
}

abbrev page : List ℕ
page = 1 ∷ 2 ∷ 3 ∷ 4 ∷ 5 ∷ []

chunks_of_two :
    chunk_loop word_numbers 2 1 (units word_numbers page 2) (nothing word_numbers)
    ≡ ((1 ∷ 2 ∷ []) ∷ []) ∷ ((3 ∷ 4 ∷ []) ∷ []) ∷ ((5 ∷ []) ∷ []) ∷ []
unfolding chunk_loop units_of cut_sentences cut tail tail_loop
chunks_of_two = refl

chunk_loop-covers_example :
    Cover word_numbers word_numbers-Laws 1 []
      (chunk_loop word_numbers 2 1 (units word_numbers page 2) (nothing word_numbers))
      (flat word_numbers (page ∷ []))
chunk_loop-covers_example = chunk_loop-covers word_numbers word_numbers-Laws 2 1 page (omega arith)

chunk_text-bounded_example :
    (length (chunk_text word_numbers 30 (λ n. 4) 2 page) ≤ 2)
    × All
        (λ (c : Chunk (List ℕ)). count word_numbers c.text ≤ 30 + 4)
        (chunk_text word_numbers 30 (λ n. 4) 2 page)
chunk_text-bounded_example = chunk_text-bounded word_numbers word_numbers-Laws 30 (λ n. 4) 2 page
