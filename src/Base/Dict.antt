-- ===== src/Base/Dict.antt =====
-- A Python dict in insertion order, with numbers (identifiers) for keys.
use nd_mind.Base.Tests.{◌==◌, if◌then◌else◌}
use Prim.Native.Nat.{ℕ}
use mathlib.Core.Path.{◌≡◌, refl, subst}
use mathlib.Core.Option.{Option, none, some}
use mathlib.Core.Bool.{Bool, true, false}
use mathlib.Core.List.{List, [], ◌∷◌}
use native.Mathlib.Omega.{arith}

abbrev pub Dict {ℓ} : Type ℓ → Type ℓ
Dict V = List (ℕ × V)

module _ {ℓ} {V : Type ℓ} where
  -- `d.get(k)`
  unfoldable pub lookup : ℕ → Dict V → Option V
  lookup k [] = none
  lookup k ((j, v) ∷ d) = if j == k then some v else lookup k d

  -- `d[k] = v`
  unfoldable pub insert : ℕ → V → Dict V → Dict V
  insert k v [] = (k, v) ∷ []
  insert k v ((j, w) ∷ d) = if j == k then (k, v) ∷ d else (j, w) ∷ insert k v d

  -- `d.pop(k, None)`; a key stands once in a dict, and here every entry of it goes
  unfoldable pub remove : ℕ → Dict V → Dict V
  remove k [] = []
  remove k ((j, w) ∷ d) = let rest = remove k d in if j == k then rest else (j, w) ∷ rest

  -- `d.values()`
  abbrev pub values : Dict V → List V
  values [] = []
  values ((j, v) ∷ d) = v ∷ values d

  pub lookup-insert :
      (k j : ℕ) (v : V) (d : Dict V)
      → lookup j (insert k v d) ≡ (if k == j then some v else lookup j d)
  unfolding lookup insert
  lookup-insert k j v [] = refl
  lookup-insert k j v ((i, w) ∷ d) = ground (arith, lookup-insert k j v d)

  pub lookup-remove :
      (k j : ℕ) (d : Dict V) → lookup j (remove k d) ≡ (if k == j then none else lookup j d)
  unfolding lookup remove
  lookup-remove k j [] = ground arith
  lookup-remove k j ((i, w) ∷ d) = ground (arith, lookup-remove k j d)

module _ {ℓ κ} {V : Type ℓ} (P : V → Type κ) where
  choose_All :
      (b : Bool) (v i : V) (o : Option V)
      → P v
      → ((j : V) → o ≡ some j → P j)
      → (if b then some v else o) ≡ some i
      → P i
  choose_All true v i o p h e = let q : v ≡ i = cc in subst P q p
  choose_All false v i o p h e = h i e

  -- What holds of a new value and of every old one holds of every value afterwards.
  pub insert_All :
      (k : ℕ) (v : V) (d : Dict V)
      → P v
      → ((j : ℕ) (i : V) → lookup j d ≡ some i → P i)
      → (j : ℕ) (i : V) → lookup j (insert k v d) ≡ some i
      → P i
  insert_All k v d p h j i e = choose_All (k == j) v i (lookup j d) p (h j) (rw lookup-insert at e)

pub ruleset dict_laws = (lookup-insert, lookup-remove)
