-- ===== src/Auth/Sessions/Tokens.antt =====
-- Which tokens auth/sessions.py takes for whose.
use nd_mind.Base.{
  ℕ, ◌+◌, ◌*◌, ◌/◌, ◌≤◌, Bool-cases, true, false, ◌&&◌, Option, none, some, List, [], ◌∷◌, ◌++◌,
  ltb, ◌≡◌, refl, ap, inl, inr, arith,
}
use nd_mind.Base.Texts.{
  HasNoDot, Text, join_dots, join_dots-split_dots, same, same_refl, same_sound, split_dots,
  split_dots-last, split_dots-part,
}
use nd_mind.Auth.Sessions.{
  Forms, SessionSigner, Signed, Verified, all_ascii, check_parts, in_time, is_over, payload, sign,
  verify, verify_parts,
}
use mathlib.Core.List.{append_assoc}

-- What the standard library promises: what is written is read again, and none of the texts has a full
-- stop; a signature is of ASCII.
pub record Laws (forms : Forms) : Type 0 where
  pub reads_user : (u : ℕ) → forms.read_user (forms.user_text u) ≡ some u
  pub reads_number :
      (n : ℕ)
      → forms.read_number (forms.number_text n) ≡ some (record { negative = false; size = n })
  pub user_dots : (u : ℕ) → HasNoDot (forms.user_text u)
  pub number_dots : (n : ℕ) → HasNoDot (forms.number_text n)
  pub mac_dots : (k p : Text) → HasNoDot (forms.mac k p)
  pub mac_ascii : (k p : Text) → all_ascii (forms.mac k p) ≡ true

token_parts :
    (v u e m : Text)
    → HasNoDot v
    → HasNoDot u
    → HasNoDot e
    → HasNoDot m
    → split_dots (payload v u e ++ b'.' ∷ m) ≡ v ∷ u ∷ e ∷ m ∷ []
token_parts v u e m p q r s =
    rw
      (
        append_assoc v (b'.' ∷ (u ++ b'.' ∷ e)) (b'.' ∷ m),
        append_assoc u (b'.' ∷ e) (b'.' ∷ m),
        split_dots-part v (u ++ b'.' ∷ (e ++ b'.' ∷ m)) p,
        split_dots-part u (e ++ b'.' ∷ m) q,
        split_dots-part e m r,
        split_dots-last m s,
      )
      refl

-- A token that a signer signs it verifies as the user's, until the time that it lives is over.
pub verify-sign :
    (forms : Forms)
    → Laws forms
    → (signer : SessionSigner) (now later user : ℕ) → HasNoDot signer.version
    → later ≤ (now / 1000000 + signer.ttl_s) * 1000000
    → verify forms signer later (sign forms signer now user) ≡ Verified.known user
unfolding verify sign
verify-sign forms laws signer now later user v_dots le =
    let u = forms.user_text user in
    let n = now / 1000000 + signer.ttl_s in
    let e = forms.number_text n in
    let m = forms.mac signer.key (payload signer.version u e) in
    let fresh : ltb (n * 1000000) later ≡ false = ground (arith, le) in
    rw
      (
        token_parts signer.version u e m v_dots (laws.user_dots user) (laws.number_dots n)
            (laws.mac_dots signer.key (payload signer.version u e)),
        same_refl signer.version,
        laws.mac_ascii signer.key (payload signer.version u e),
        same_refl m,
        laws.reads_user user,
        laws.reads_number n,
        fresh,
      )
      refl

-- The token is the signed form of an identifier of the user, and of a time that is not over.
pub record IsSigned (forms : Forms) (signer : SessionSigner) (now : ℕ) (token : Text) (user : ℕ)
    : Type 0 where
  pub user_part : Text
  pub time_part : Text
  pub expires : Signed
  pub made :
      token
      ≡ payload signer.version user_part time_part
        ++ b'.' ∷ forms.mac signer.key (payload signer.version user_part time_part)
  pub reads_user : forms.read_user user_part ≡ some user
  pub reads_time : forms.read_number time_part ≡ some expires
  pub fresh : is_over expires now ≡ false

in_time-fresh :
    (o : Option ℕ) (p : Option Signed) (now user : ℕ)
    → in_time o p now ≡ Verified.known user
    → (expires : Signed) × (o ≡ some user) × (p ≡ some expires) × (is_over expires now ≡ false)
in_time-fresh none p now user e = cc
in_time-fresh (some u) none now user e = cc
in_time-fresh (some u) (some x) now user e = elim (Bool-cases (is_over x now)) [
  | inl f ↦ let g = rw f at e in cc
  | inr f ↦ let g = rw f at e in let w : u ≡ user = cc in (x, ap some w, refl, f)
]

check_parts-IsSigned :
    (forms : Forms) (signer : SessionSigner) (now user : ℕ) (v u e m : Text)
    → check_parts forms signer now v u e m ≡ Verified.known user
    → IsSigned forms signer now (payload v u e ++ b'.' ∷ m) user
check_parts-IsSigned forms signer now user v u e m h =
    let right = forms.mac signer.key (payload v u e) in
    elim (Bool-cases (same v signer.version)) [
      | inr f ↦ let g = rw f at h in cc
      | inl f ↦ elim (Bool-cases (all_ascii m && all_ascii right)) [
        | inr a ↦ let g = rw (f, a) at h in cc
        | inl a ↦ elim (Bool-cases (same m right)) [
          | inr s ↦ let g = rw (f, a, s) at h in cc
          | inl s ↦
              let read =
                in_time-fresh (forms.read_user u) (forms.read_number e) now user
                  (rw (f, a, s) at h) in
              let version : v ≡ signer.version = same_sound v signer.version f in
              let signature : m ≡ right = same_sound m right s in
              record {
                user_part = u;
                time_part = e;
                expires = read.0;
                made = rw (signature, version) refl;
                reads_user = read.1;
                reads_time = read.2;
                fresh = read.3;
              }
        ]
      ]
    ]

verify_parts-IsSigned :
    (forms : Forms) (signer : SessionSigner) (now user : ℕ) (parts : List Text)
    → verify_parts forms signer now parts ≡ Verified.known user
    → IsSigned forms signer now (join_dots parts) user
verify_parts-IsSigned forms signer now user [] h = cc
verify_parts-IsSigned forms signer now user (v ∷ []) h = cc
verify_parts-IsSigned forms signer now user (v ∷ u ∷ []) h = cc
verify_parts-IsSigned forms signer now user (v ∷ u ∷ e ∷ []) h = cc
verify_parts-IsSigned forms signer now user (v ∷ u ∷ e ∷ m ∷ []) h =
    let signed = check_parts-IsSigned forms signer now user v u e m h in
    rw (append_assoc v (b'.' ∷ (u ++ b'.' ∷ e)) (b'.' ∷ m), append_assoc u (b'.' ∷ e) (b'.' ∷ m)) at
      signed
verify_parts-IsSigned forms signer now user (v ∷ u ∷ e ∷ m ∷ x ∷ parts) h = cc

-- A token that verifies as a user's is the signed form, by the same key and version, of an identifier
-- of that user and of a time that is not over: no token passes but with its signature.
pub verify-IsSigned :
    (forms : Forms) (signer : SessionSigner) (now user : ℕ) (token : Text)
    → verify forms signer now token ≡ Verified.known user
    → IsSigned forms signer now token user
unfolding verify
verify-IsSigned forms signer now user token h =
    let signed = verify_parts-IsSigned forms signer now user (split_dots token) h in
    rw (join_dots-split_dots token) at signed
