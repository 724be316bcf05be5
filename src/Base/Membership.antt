-- ===== src/Base/Membership.antt =====
-- All elements of a list, and those that `filter` keeps, by membership.
use mathlib.Core.Path.{◌≡◌, refl, subst, sym}
use mathlib.Core.Logic.{inl, inr}
use mathlib.Core.Bool.{Bool, true}
use mathlib.Core.List.{List, [], ◌∷◌, Memᴰ}
use nd_mind.Base.Tests.{Bool-cases}
use nd_mind.Base.Lists.{All, filter}

module _ {ℓ κ} {A : Type ℓ} where
  pub filter-All :
      (p : A → Bool) (Q : A → Type κ) (l : List A)
      → ((x : A) → Memᴰ x l → p x ≡ true → Q x)
      → All Q (filter p l)
  filter-All p Q [] f = tt
  filter-All p Q (x ∷ l) f =
      let rest = filter-All p Q l (λ y m. f y (Memᴰ.tail m)) in
      elim (Bool-cases (p x)) [ inl e ↦ rw e (f x (Memᴰ.head refl) e, rest) | inr e ↦ rw e rest ]

  pub filter-keeps :
      (p : A → Bool) (P Q : A → Type κ) (l : List A)
      → ((x : A) → P x → p x ≡ true → Q x)
      → All P l
      → All Q (filter p l)
  filter-keeps p P Q [] f h = tt
  filter-keeps p P Q (x ∷ l) f h =
      let rest = filter-keeps p P Q l f h.1 in
      elim (Bool-cases (p x)) [ inl e ↦ rw e (f x h.0 e, rest) | inr e ↦ rw e rest ]

pub All-mem {ℓ κ} :
    {A : Type ℓ} (Q : A → Type κ) (l : List A) → ((x : A) → Memᴰ x l → Q x) → All Q l
All-mem Q [] f = tt
All-mem Q (x ∷ l) f = (f x (Memᴰ.head refl), All-mem Q l (λ y m. f y (Memᴰ.tail m)))

pub All-both {ℓ κ} :
    {A : Type ℓ} (P Q : A → Type κ) (l : List A) → All P l → All Q l → All (λ x. P x × Q x) l
All-both P Q [] p q = tt
All-both P Q (x ∷ l) p q = ((p.0, q.0), All-both P Q l p.1 q.1)

pub mem-filter {ℓ} :
    {A : Type ℓ} (p : A → Bool) (x : A) (l : List A) → Memᴰ x l → p x ≡ true → Memᴰ x (filter p l)
mem-filter p x [] m e = elim m [ ]
mem-filter p x (y ∷ l) (Memᴰ.head w) e = let q : p y ≡ true = rw (← w) e in rw q (Memᴰ.head w)
mem-filter p x (y ∷ l) (Memᴰ.tail m) e =
    let rest = mem-filter p x l m e in
    elim (Bool-cases (p y)) [ inl f ↦ rw f (Memᴰ.tail rest) | inr f ↦ rw f rest ]

pub mem-All {ℓ κ} : {A : Type ℓ} (Q : A → Type κ) (l : List A) (x : A) → All Q l → Memᴰ x l → Q x
mem-All Q [] x h m = elim m [ ]
mem-All Q (y ∷ l) x h (Memᴰ.head w) = subst Q (sym w) h.0
mem-All Q (y ∷ l) x h (Memᴰ.tail m) = mem-All Q l x h.1 m
