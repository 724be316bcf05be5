-- ===== src/Base/Sorting.antt =====
-- A stable sort by insertion, as `sorted` gives it, and the elements that it keeps.
use mathlib.Core.Path.{◌≡◌, refl, ap}
use mathlib.Core.Logic.{◌⊎◌, inl, inr}
use Prim.Native.Nat.{ℕ, zero, suc}
use mathlib.Core.Bool.{Bool, true, false}
use mathlib.Core.List.{List, [], ◌∷◌, Memᴰ}
use nd_mind.Base.Tests.{Bool-cases, if◌then◌else◌}
use nd_mind.Base.Lists.{All, filter, take, length}
use nd_mind.Base.Membership.{filter-keeps, mem-All}

-- `le x y` where `x` may stand before `y`.
module _ {ℓ} {A : Type ℓ} (le : A → A → Bool) where
  abbrev pub place : A → List A → List A
  place x [] = x ∷ []
  place x (y ∷ ys) = let rest = place x ys in if le x y then x ∷ y ∷ ys else y ∷ rest

  unfoldable pub sort_by : List A → List A
  sort_by [] = []
  sort_by (x ∷ xs) = place x (sort_by xs)

  module _ {κ} (Q : A → Type κ) where
    place-All : (x : A) (ys : List A) → Q x → All Q ys → All Q (place x ys)
    place-All x [] q h = (q, tt)
    place-All x (y ∷ ys) q h =
        let rest = place-All x ys q h.1 in
        elim (Bool-cases (le x y)) [ inl e ↦ rw e (q, h) | inr e ↦ rw e (h.0, rest) ]

    pub sort_by-All : (xs : List A) → All Q xs → All Q (sort_by xs)
    unfolding sort_by
    sort_by-All [] h = tt
    sort_by-All (x ∷ xs) h = place-All x (sort_by xs) h.0 (sort_by-All xs h.1)

  module _ (z : A) where
    mem-place : (x : A) (ys : List A) → Memᴰ z (x ∷ ys) → Memᴰ z (place x ys)
    mem-place x [] m = m
    mem-place x (y ∷ ys) m =
        let rest = mem-place x ys in
        elim (Bool-cases (le x y)) [
          | inl e ↦ rw e m
          | inr e ↦ rw e (elim m [
            | Memᴰ.head w ↦ Memᴰ.tail (rest (Memᴰ.head w))
            | Memᴰ.tail (Memᴰ.head w) ↦ Memᴰ.head w
            | Memᴰ.tail (Memᴰ.tail n) ↦ Memᴰ.tail (rest (Memᴰ.tail n))
          ])
        ]

    pub mem-sort_by : (xs : List A) → Memᴰ z xs → Memᴰ z (sort_by xs)
    unfolding sort_by
    mem-sort_by [] m = m
    mem-sort_by (x ∷ xs) (Memᴰ.head w) = mem-place x (sort_by xs) (Memᴰ.head w)
    mem-sort_by (x ∷ xs) (Memᴰ.tail m) = mem-place x (sort_by xs) (Memᴰ.tail (mem-sort_by xs m))

  -- Each element may stand before every later one.
  abbrev pub IsSorted : List A → Type ℓ
  IsSorted [] = Unit
  IsSorted (x ∷ xs) = All (λ y. le x y ≡ true) xs × IsSorted xs

  All-trans :
      ((x y z : A) → le x y ≡ true → le y z ≡ true → le x z ≡ true)
      → (x y : A) (ys : List A) → le x y ≡ true
      → All (λ z. le y z ≡ true) ys
      → All (λ z. le x z ≡ true) ys
  All-trans trans x y [] e h = tt
  All-trans trans x y (z ∷ ys) e h = (trans x y z e h.0, All-trans trans x y ys e h.1)

  module _ (total : (x y : A) → le x y ≡ false → le y x ≡ true)
      (trans : (x y z : A) → le x y ≡ true → le y z ≡ true → le x z ≡ true) where
    place-IsSorted : (x : A) (ys : List A) → IsSorted ys → IsSorted (place x ys)
    place-IsSorted x [] h = (tt, tt)
    place-IsSorted x (y ∷ ys) h =
        let rest = place-IsSorted x ys h.1 in
        elim (Bool-cases (le x y)) [
          | inl e ↦ rw e ((e, All-trans trans x y ys e h.0), h)
          | inr e ↦ rw e (place-All (λ z. le y z ≡ true) x ys (total x y e) h.0, rest)
        ]

    pub sort_by-IsSorted : (xs : List A) → IsSorted (sort_by xs)
    unfolding sort_by
    sort_by-IsSorted [] = tt
    sort_by-IsSorted (x ∷ xs) = place-IsSorted x (sort_by xs) (sort_by-IsSorted xs)

  pub filter-IsSorted : (p : A → Bool) (xs : List A) → IsSorted xs → IsSorted (filter p xs)
  filter-IsSorted p [] h = tt
  filter-IsSorted p (x ∷ xs) h =
      let rest = filter-IsSorted p xs h.1 in
      let all = filter-keeps p (λ y. le x y ≡ true) (λ y. le x y ≡ true) xs (λ y q e. q) h.0 in
      elim (Bool-cases (p x)) [ inl e ↦ rw e (all, rest) | inr e ↦ rw e rest ]

  -- What a sorted list's first elements leave out may stand behind each of them.
  pub take-best :
      (n : ℕ) (xs : List A) (d : A)
      → IsSorted xs
      → Memᴰ d xs
      → Memᴰ d (take n xs) ⊎ ((length (take n xs) ≡ n) × All (λ c. le c d ≡ true) (take n xs))
  take-best n [] d h m = elim m [ ]
  take-best zero (x ∷ xs) d h m = inr (refl, tt)
  take-best (suc n) (x ∷ xs) d h (Memᴰ.head e) = inl (Memᴰ.head e)
  take-best (suc n) (x ∷ xs) d h (Memᴰ.tail m) = elim (take-best n xs d h.1 m) [
    | inl k ↦ inl (Memᴰ.tail k)
    | inr (l, all) ↦ inr (ap suc l, (mem-All (λ y. le x y ≡ true) xs d h.0 m, all))
  ]
