-- ===== src/Links/Address/Public.antt =====
-- An address that links/urls.py lets through is none of those that reach something private, as the
-- registries list them: by first and last address.
use nd_mind.Base.{
  ℕ, ◌/◌, ◌%◌, ◌<◌, ◌≤◌, false, Option, none, some, List, [], ◌∷◌, ◌≡◌, ◌≢◌, ◌⊎◌, arith, refl,
  Bool-cases, inl, inr, All, ◌==◌,
}
use nd_mind.Links.Address.{
  Address, Refusal, check_each, check_resolved, checks4, checks6, first_hit, refusal_for, unwrap,
  refusal_of, or_refusal,
}

-- The address is before the range or after it.
abbrev pub Outside : ℕ → ℕ → ℕ → Type 0
Outside first last n = (n < first) ⊎ (last < n)

-- No address of this host, of a private network, of a link (with the metadata services), of a
-- carrier's network, of a test network, and none that is multicast or reserved.
pub record IsPublic4 (n : ℕ) : Type 0 where
  pub this_network : 16777215 < n
  pub ten : Outside 167772160 184549375 n
  pub carrier : Outside 1681915904 1686110207 n
  pub loopback : Outside 2130706432 2147483647 n
  pub link_local : Outside 2851995648 2852061183 n
  pub one_seven_two : Outside 2886729728 2887778303 n
  pub one_nine_two : Outside 3232235520 3232301055 n
  pub benchmark : Outside 3323068416 3323199487 n
  pub below_multicast : n < 3758096384
  -- 192.0.0.0/24 but for the anycast addresses 192.0.0.9 and 192.0.0.10, and the three test networks
  pub protocol : Outside 3221225472 3221225727 n ⊎ ((n ≡ 3221225481) ⊎ (n ≡ 3221225482))
  pub test_one : Outside 3221225984 3221226239 n
  pub test_two : Outside 3325256704 3325256959 n
  pub test_three : Outside 3405803776 3405804031 n

-- An address of the protocol block 2001::/23 that its registry assigns globally: Port Control and TURN
-- anycast, AMT, AS112-v6, ORCHIDv2 and drone identifiers.
abbrev pub IsAssigned6 : ℕ → Type 0
IsAssigned6 n =
    (n ≡ 0x20010001000000000000000000000001)
    ⊎ (n ≡ 0x20010001000000000000000000000002)
    ⊎ ((0x20010003000000000000000000000000 ≤ n) × (n ≤ 0x20010003ffffffffffffffffffffffff))
    ⊎ ((0x20010004011200000000000000000000 ≤ n) × (n ≤ 0x200100040112ffffffffffffffffffff))
    ⊎ ((0x20010020000000000000000000000000 ≤ n) × (n ≤ 0x2001003fffffffffffffffffffffffff))

-- No address of this host or of none, of a private network, of a link, of the discard prefix, of a
-- documentation network, none that is multicast, and none that holds an address of the other family.
pub record IsPublic6 (n : ℕ) : Type 0 where
  pub embedded : 4294967295 < n
  pub unmapped : n / 4294967296 ≢ 65535
  pub translated :
      Outside 524413980667603649783483181312245760 524413980667603649783483185607213055 n
  pub translated_locally :
      Outside 0x0064ff9b000100000000000000000000 0x0064ff9b0001ffffffffffffffffffff n
  pub tunnelled :
      Outside 42540488161975842760550356425300246528 42540488241204005274814694018844196863 n
  pub six_to_four :
      Outside 42545680458834377588178886921629466624 42550872755692912415807417417958686719 n
  pub unique_local :
      Outside 334965454937798799971759379190646833152 337623910929368631717566993311207522303 n
  pub link_local :
      Outside 338288524927261089654018896841347694592 338620831926207318622244848606417780735 n
  pub below_multicast : n < 338953138925153547590470800371487866880
  pub discard : Outside 0x1000000000000000000000000000000 0x100000000000000ffffffffffffffff n
  pub protocol :
      Outside 0x20010000000000000000000000000000 0x200101ffffffffffffffffffffffffff n
      ⊎ IsAssigned6 n
  pub documentation :
      Outside 0x20010db8000000000000000000000000 0x20010db8ffffffffffffffffffffffff n
  pub documentation_two :
      Outside 0x3fff0000000000000000000000000000 0x3fff0fffffffffffffffffffffffffff n

abbrev pub IsPublic : Address → Type 0
IsPublic (Address.v4 n) = IsPublic4 n
IsPublic (Address.v6 n) = IsPublic6 n

-- An address of its family.
abbrev pub Fits : Address → Type 0
Fits (Address.v4 n) = n < 4294967296
Fits (Address.v6 n) = n < 340282366920938463463374607431768211456

Fits-unwrap : (a : Address) → Fits a → Fits (unwrap a)
Fits-unwrap (Address.v4 n) f = f
Fits-unwrap (Address.v6 n) f = elim (Bool-cases (n / 4294967296 == 65535)) [
  | inl e ↦ rw e (omega arith)
  | inr e ↦ rw e f
]

passes4 : (n : ℕ) → n < 4294967296 → first_hit (checks4 n) ≡ none → IsPublic4 n
passes4 n f e = ground arith

passes6 :
    (n : ℕ)
    → n < 340282366920938463463374607431768211456
    → (n / 4294967296 == 65535) ≡ false
    → first_hit (checks6 n) ≡ none
    → IsPublic6 n
passes6 n f w e = ground arith

-- What is let through is, with an address that it wraps unwrapped, a public one.
pub refusal_for-IsPublic : (a : Address) → Fits a → refusal_for a ≡ none → IsPublic (unwrap a)
unfolding refusal_for
refusal_for-IsPublic (Address.v4 n) f e = passes4 n f e
refusal_for-IsPublic (Address.v6 n) f e = elim (Bool-cases (n / 4294967296 == 65535)) [
  | inl w ↦ rw w (passes4 (n % 4294967296) (omega arith) (rw w at e))
  | inr w ↦ rw w (passes6 n f w (rw w at e))
]

-- An answer of the resolver that is an address, and a public one.
abbrev pub IsSafe : Option Address → Type 0
IsSafe none = ⊥
IsSafe (some a) = IsPublic (unwrap a)

abbrev pub AnswerFits : Option Address → Type 0
AnswerFits none = Unit
AnswerFits (some a) = Fits a

or_refusal-none : (r s : Option Refusal) → or_refusal r s ≡ none → (r ≡ none) × (s ≡ none)
or_refusal-none none s e = (refl, e)
or_refusal-none (some r) s e = cc

answer-IsSafe : (o : Option Address) → AnswerFits o → refusal_of o ≡ none → IsSafe o
answer-IsSafe none f e = cc
answer-IsSafe (some a) f e = refusal_for-IsPublic a f e

check_each-IsSafe :
    (answers : List (Option Address))
    → All AnswerFits answers
    → check_each answers ≡ none
    → All IsSafe answers
unfolding check_each
check_each-IsSafe [] f e = tt
check_each-IsSafe (o ∷ rest) f e =
    let both = or_refusal-none (refusal_of o) (check_each rest) e in
    (answer-IsSafe o f.0 both.0, check_each-IsSafe rest f.1 both.1)

-- A name passes only with at least one answer, each of them a public address: one that is not
-- refuses the name.
pub check_resolved-IsSafe :
    (answers : List (Option Address))
    → All AnswerFits answers
    → check_resolved answers ≡ none
    → (answers ≢ []) × All IsSafe answers
unfolding check_resolved
check_resolved-IsSafe [] f e = cc
check_resolved-IsSafe (o ∷ rest) f e = (λ q. cc, check_each-IsSafe (o ∷ rest) f e)
