-- ===== src/Base/Texts.antt =====
-- Texts, as the lists of their characters' codes, split at full stops.
use Prim.Native.Nat.{ℕ}
use mathlib.Core.Path.{◌≡◌, refl, ap, sym}
use mathlib.Core.Logic.{◌≢◌, inl, inr}
use mathlib.Core.Bool.{Bool, true, false, ◌&&◌}
use mathlib.Core.List.{List, [], ◌∷◌, ◌++◌}
use native.Mathlib.Omega.{arith}
use nd_mind.Base.Tests.{Bool-cases, ◌==◌, if◌then◌else◌}

abbrev pub Text : Type 0
Text = List ℕ

abbrev pub to_first : ℕ → List Text → List Text
to_first c [] = (c ∷ []) ∷ []
to_first c (p ∷ parts) = (c ∷ p) ∷ parts

-- `split(".")`
abbrev pub split_dots : Text → List Text
split_dots [] = [] ∷ []
split_dots (c ∷ s) = let rest = split_dots s in if c == b'.' then [] ∷ rest else to_first c rest

unfoldable pub HasNoDot : Text → Type 0
HasNoDot [] = Unit
HasNoDot (c ∷ s) = (c ≢ b'.') × HasNoDot s

pub split_dots-part :
    (p rest : Text) → HasNoDot p → split_dots (p ++ b'.' ∷ rest) ≡ p ∷ split_dots rest
unfolding HasNoDot
split_dots-part [] rest h = refl
split_dots-part (c ∷ p) rest h = let ih = split_dots-part p rest h.1 in rw ih (ground (arith, h.0))

pub split_dots-last : (p : Text) → HasNoDot p → split_dots p ≡ p ∷ []
unfolding HasNoDot
split_dots-last [] h = refl
split_dots-last (c ∷ p) h = let ih = split_dots-last p h.1 in rw ih (ground (arith, h.0))

-- `".".join(parts)`
abbrev pub join_dots : List Text → Text
join_dots [] = []
join_dots (p ∷ []) = p
join_dots (p ∷ q ∷ parts) = p ++ b'.' ∷ join_dots (q ∷ parts)

first_part : (s : Text) → (p : Text) × (parts : List Text) × (split_dots s ≡ p ∷ parts)
first_part [] = ([], [], refl)
first_part (c ∷ s) =
    let rest = first_part s in
    elim (Bool-cases (c == b'.')) [
      | inl e ↦ ([], split_dots s, rw e refl)
      | inr e ↦ (c ∷ rest.0, rest.1, rw (e, rest.2) refl)
    ]

join_dots-to_first :
    (c : ℕ) (p : Text) (parts : List Text) → join_dots ((c ∷ p) ∷ parts) ≡ c ∷ join_dots (p ∷ parts)
join_dots-to_first c p [] = refl
join_dots-to_first c p (q ∷ parts) = refl

-- What was split is joined again.
pub join_dots-split_dots : (s : Text) → join_dots (split_dots s) ≡ s
join_dots-split_dots [] = refl
join_dots-split_dots (c ∷ s) =
    let rest = first_part s in
    let ih : join_dots (rest.0 ∷ rest.1) ≡ s = rw (← rest.2) (join_dots-split_dots s) in
    elim (Bool-cases (c == b'.')) [
      | inl e ↦
          let dot : c ≡ b'.' = ground (arith, e) in rw (e, rest.2, ih) (ap (λ d. d ∷ s) (sym dot))
      | inr e ↦ rw (e, rest.2, join_dots-to_first c rest.0 rest.1, ih) refl
    ]

abbrev pub same : Text → Text → Bool
same [] [] = true
same (c ∷ s) (d ∷ t) = c == d && same s t
same _ _ = false

pub same_sound : (s t : Text) → same s t ≡ true → s ≡ t
same_sound [] [] e = refl
same_sound [] (d ∷ t) e = cc
same_sound (c ∷ s) [] e = cc
same_sound (c ∷ s) (d ∷ t) e = ground (arith, same_sound s t)

pub same_refl : (s : Text) → same s s ≡ true
same_refl [] = refl
same_refl (c ∷ s) = ground (arith, same_refl s)
