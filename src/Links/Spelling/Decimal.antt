-- ===== src/Links/Spelling/Decimal.antt =====
-- The usual spelling of an address, four decimal numbers, and what `parse_ipv4_spelling` of
-- links/urls.py reads of it.
use nd_mind.Base.{
  ℕ, ◌+◌, ◌/◌, ◌%◌, ◌*◌, ◌<◌, [], ◌∷◌, ◌++◌, some, ltb, if◌then◌else◌, ◌≡◌, ◌≢◌, refl, arith, false,
  inl, inr, Bool-cases,
}
use nd_mind.Base.Texts.{HasNoDot, split_dots-last, split_dots-part}
use nd_mind.Links.Spelling.{
  Before, Signed, Spelling, Text, digits, int, parse_ipv4_spelling, parse_part, read_numbers,
  strip_dots,
}

-- A number below 1000, without leading zeros.
abbrev pub print_part : ℕ → Text
print_part n =
    if ltb n 10
    then (48 + n) ∷ []
    else if ltb n 100
    then (48 + n / 10) ∷ (48 + n % 10) ∷ []
    else (48 + n / 100) ∷ (48 + n / 10 % 10) ∷ (48 + n % 10) ∷ []

abbrev pub print_address : ℕ → ℕ → ℕ → ℕ → Text
print_address a b c d =
    print_part a ++ b'.' ∷ (print_part b ++ b'.' ∷ (print_part c ++ b'.' ∷ print_part d))

digits-step :
    (n k : ℕ) (before : Before) (s : Text)
    → k < 10
    → digits 10 n before ((48 + k) ∷ s) ≡ digits 10 (n * 10 + k) Before.digit s
unfolding digits
digits-step n k before s h = ground arith

digits-end : (n : ℕ) → digits 10 n Before.digit [] ≡ some n
unfolding digits
digits-end n = refl

abbrev plain : ℕ → Signed
plain n = record { negative = false; size = n }

one_digit : (k : ℕ) → k < 10 → parse_part ((48 + k) ∷ []) ≡ some (plain k)
unfolding int
one_digit k h = ground (arith, digits-step 0 k Before.nothing [], digits-end (0 * 10 + k))

two_digits :
    (j k : ℕ)
    → 0 < j
    → j < 10
    → k < 10
    → parse_part ((48 + j) ∷ (48 + k) ∷ []) ≡ some (plain (j * 10 + k))
unfolding int
two_digits j k p h i = ground (
  arith,
  digits-step 0 j Before.nothing ((48 + k) ∷ []),
  digits-step (0 * 10 + j) k Before.digit [],
  digits-end ((0 * 10 + j) * 10 + k),
)

three_digits :
    (h j k : ℕ)
    → 0 < h
    → h < 10
    → j < 10
    → k < 10
    → parse_part ((48 + h) ∷ (48 + j) ∷ (48 + k) ∷ []) ≡ some (plain ((h * 10 + j) * 10 + k))
unfolding int
three_digits h j k p q r s = ground (
  arith,
  digits-step 0 h Before.nothing ((48 + j) ∷ (48 + k) ∷ []),
  digits-step (0 * 10 + h) j Before.digit ((48 + k) ∷ []),
  digits-step ((0 * 10 + h) * 10 + j) k Before.digit [],
  digits-end (((0 * 10 + h) * 10 + j) * 10 + k),
)

parse_part-print_part : (n : ℕ) → n < 256 → parse_part (print_part n) ≡ some (plain n)
parse_part-print_part n h = elim (Bool-cases (ltb n 10)) [
  | inl e ↦ rw e (one_digit n (ground arith))
  | inr e ↦ elim (Bool-cases (ltb n 100)) [
    | inl f ↦
        let w : n / 10 * 10 + n % 10 ≡ n = omega arith in
        let two = two_digits (n / 10) (n % 10) (ground arith) (ground arith) (omega arith) in
        rw (e, f, two, w) refl
    | inr f ↦
        let w : (n / 100 * 10 + n / 10 % 10) * 10 + n % 10 ≡ n = omega arith in
        let three =
          three_digits (n / 100) (n / 10 % 10) (n % 10) (ground arith) (omega arith) (omega arith)
            (omega arith) in
        rw (e, f, three, w) refl
  ]
]

strip_dots-none : (p : Text) → HasNoDot p → strip_dots p ≡ p
unfolding HasNoDot
strip_dots-none [] h = refl
strip_dots-none (c ∷ []) h = ground (arith, h.0)
strip_dots-none (c ∷ d ∷ p) h = rw (strip_dots-none (d ∷ p) h.1) refl

strip_dots-append :
    (s : Text) (c : ℕ) (p : Text)
    → strip_dots (c ∷ p) ≡ c ∷ p
    → strip_dots (s ++ c ∷ p) ≡ s ++ c ∷ p
strip_dots-append [] c p h = h
strip_dots-append (d ∷ []) c p h = rw h refl
strip_dots-append (d ∷ e ∷ s) c p h = rw (strip_dots-append (e ∷ s) c p h) refl

strip_dots-last : (p : Text) → p ≢ [] → HasNoDot p → strip_dots (b'.' ∷ p) ≡ b'.' ∷ p
strip_dots-last [] n h = elim (n refl) [ ]
strip_dots-last (c ∷ p) n h = rw (strip_dots-none (c ∷ p) h) refl

print_part-NonEmpty : (n : ℕ) → print_part n ≢ []
print_part-NonEmpty n = ground arith

print_part-HasNoDot : (n : ℕ) → n < 256 → HasNoDot (print_part n)
unfolding HasNoDot
print_part-HasNoDot n h = ground arith

read_numbers-plain :
    (a b c d : ℕ)
    → a < 256
    → b < 256
    → c < 256
    → d < 256
    → read_numbers (some (plain a ∷ plain b ∷ plain c ∷ plain d ∷ []))
      ≡ Spelling.address (a * 16777216 + b * 65536 + c * 256 + d)
read_numbers-plain a b c d p q r s = ground arith

-- Four numbers below 256, printed in decimal with dots between them, are read as the address they
-- are the bytes of.
pub parse_ipv4_spelling-print_address :
    (a b c d : ℕ)
    → a < 256
    → b < 256
    → c < 256
    → d < 256
    → parse_ipv4_spelling (print_address a b c d)
      ≡ Spelling.address (a * 16777216 + b * 65536 + c * 256 + d)
unfolding parse_ipv4_spelling
parse_ipv4_spelling-print_address a b c d p q r s =
    let dot : ℕ = b'.' in
    let strip_d =
      strip_dots-last (print_part d) (print_part-NonEmpty d) (print_part-HasNoDot d s) in
    let strip_c = strip_dots-append (dot ∷ print_part c) dot (print_part d) strip_d in
    let strip_b =
      strip_dots-append (dot ∷ print_part b) dot (print_part c ++ dot ∷ print_part d) strip_c in
    let strip_a =
      strip_dots-append (print_part a) dot
        (print_part b ++ dot ∷ (print_part c ++ dot ∷ print_part d)) strip_b in
    rw
      (
        strip_a,
        split_dots-part (print_part a) (print_part b ++ dot ∷ (print_part c ++ dot ∷ print_part d))
            (print_part-HasNoDot a p),
        split_dots-part (print_part b) (print_part c ++ dot ∷ print_part d)
            (print_part-HasNoDot b q),
        split_dots-part (print_part c) (print_part d) (print_part-HasNoDot c r),
        split_dots-last (print_part d) (print_part-HasNoDot d s),
        parse_part-print_part a p,
        parse_part-print_part b q,
        parse_part-print_part c r,
        parse_part-print_part d s,
      )
      (read_numbers-plain a b c d p q r s)
