-- ===== src/Auth/Tests.antt =====
-- Tokens of small forms: a number is written as that many strokes.
use nd_mind.Base.{ℕ, zero, suc, ◌+◌, true, false, some, [], ◌∷◌, ◌≡◌, refl, arith, ap}
use nd_mind.Base.Texts.{HasNoDot, Text}
use nd_mind.Auth.Sessions.{Forms, SessionSigner, Verified, all_ascii, sign, verify}
use nd_mind.Auth.Sessions.Tokens.{IsSigned, Laws, verify-IsSigned, verify-sign}

abbrev strokes : ℕ → Text
strokes zero = []
strokes (suc n) = b'i' ∷ strokes n

abbrev tally : Text → ℕ
tally [] = 0
tally (c ∷ s) = suc (tally s)

-- A hash that anyone can make.
abbrev forms : Forms
forms = record {
  mac = λ key text. strokes (tally key + tally text);
  user_text = strokes;
  read_user = λ s. some (tally s);
  number_text = strokes;
  read_number = λ s. some (record { negative = false; size = tally s });
}

tally-strokes : (n : ℕ) → tally (strokes n) ≡ n
tally-strokes zero = refl
tally-strokes (suc n) = ap suc (tally-strokes n)

strokes-HasNoDot : (n : ℕ) → HasNoDot (strokes n)
unfolding HasNoDot
strokes-HasNoDot zero = tt
strokes-HasNoDot (suc n) = (omega arith, strokes-HasNoDot n)

all_ascii-strokes : (n : ℕ) → all_ascii (strokes n) ≡ true
all_ascii-strokes zero = refl
all_ascii-strokes (suc n) = all_ascii-strokes n

forms-Laws : Laws forms
forms-Laws = record {
  reads_user = λ u. ap some (tally-strokes u);
  reads_number = λ n. rw (tally-strokes n) refl;
  user_dots = strokes-HasNoDot;
  number_dots = strokes-HasNoDot;
  mac_dots = λ k p. strokes-HasNoDot (tally k + tally p);
  mac_ascii = λ k p. all_ascii-strokes (tally k + tally p);
}

abbrev signer : SessionSigner
signer = record { key = b'k' ∷ []; version = b'v' ∷ b'1' ∷ []; ttl_s = 3 }

verify-sign_example : verify forms signer 6000000 (sign forms signer 4500000 2) ≡ Verified.known 2
unfolding HasNoDot
verify-sign_example =
    verify-sign forms forms-Laws signer 4500000 6000000 2 (omega arith, (omega arith, tt))
      (omega arith)

-- v1.ii.iii and ten strokes
abbrev token : Text
token = b'v' ∷ b'1' ∷ b'.' ∷ b'i' ∷ b'i' ∷ b'.' ∷ b'i' ∷ b'i' ∷ b'i' ∷ b'.' ∷ strokes 10

verify-IsSigned_example : IsSigned forms signer 3000000 token 2
unfolding verify
verify-IsSigned_example = verify-IsSigned forms signer 3000000 2 token refl
