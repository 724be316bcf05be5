-- ===== src/Auth/Sessions.antt =====
-- auth/sessions.py: signed session tokens. A user is a number, a moment a number of microseconds; the
-- hash and the forms of an identifier and of a number are the standard library's.
pub mod Tokens
use nd_mind.Base.{
  ℕ, ◌+◌, ◌*◌, ◌/◌, Bool, true, false, not, ◌&&◌, ◌||◌, Option, none, some, List, [], ◌∷◌, ◌++◌,
  ltb, ◌==◌, if◌then◌else◌, length,
}
use nd_mind.Base.Texts.{Text, join_dots, same, split_dots}

-- What `int` reads: a number, by its sign and its size.
pub record Signed : Type 0 where
  pub negative : Bool
  pub size : ℕ

-- `_mac` of a key and a payload; an identifier's text and `uuid.UUID`; a number's text and `int`.
-- What reads is none where it raises a ValueError.
pub record Forms : Type 0 where
  pub mac : Text → Text → Text
  pub user_text : ℕ → Text
  pub read_user : Text → Option ℕ
  pub number_text : ℕ → Text
  pub read_number : Text → Option Signed

pub record SessionSigner : Type 0 where
  pub key : Text
  pub version : Text
  pub ttl_s : ℕ

abbrev pub session_version : Text
session_version = b'v' ∷ b'1' ∷ []

-- DEVICE_VERSION
abbrev pub device_version : Text
device_version = b'd' ∷ b'1' ∷ []

abbrev pub device : Text
device = b'd' ∷ b'e' ∷ b'v' ∷ b'i' ∷ b'c' ∷ b'e' ∷ []

abbrev key_of : Text → Text → Text
key_of secret [] = secret
key_of secret (c ∷ purpose) = secret ++ b'|' ∷ c ∷ purpose

-- `__init__`; none is the ValueError.
unfoldable pub new_signer : Text → ℕ → Text → Option SessionSigner
new_signer secret ttl_s purpose =
    if ltb (length secret) 32
    then none
    else some (record {
      key = key_of secret purpose;
      version = if same purpose device then device_version else session_version;
      ttl_s = ttl_s;
    })

abbrev pub payload : Text → Text → Text → Text
payload version user expires = version ++ b'.' ∷ (user ++ b'.' ∷ expires)

-- `sign`, with what the clock reads.
unfoldable pub sign : Forms → SessionSigner → ℕ → ℕ → Text
sign forms signer now user =
    let text =
      payload signer.version (forms.user_text user)
        (forms.number_text (now / 1000000 + signer.ttl_s)) in
    text ++ b'.' ∷ forms.mac signer.key text

-- Whose token it is; none; or the TypeError that `compare_digest` raises of a text that is not of ASCII.
pub data Verified : Type 0 where
  known : ℕ → Verified
  refused raised : Verified

abbrev pub all_ascii : Text → Bool
all_ascii [] = true
all_ascii (c ∷ s) = ltb c 128 && all_ascii s

-- `expires < self._clock()`
abbrev pub is_over : Signed → ℕ → Bool
is_over expires now = expires.negative || ltb (expires.size * 1000000) now

abbrev pub in_time : Option ℕ → Option Signed → ℕ → Verified
in_time (some u) (some expires) now =
    if is_over expires now then Verified.refused else Verified.known u
in_time _ _ now = Verified.refused

abbrev pub check_parts : Forms → SessionSigner → ℕ → Text → Text → Text → Text → Verified
check_parts forms signer now version user expires signature =
    let right = forms.mac signer.key (payload version user expires) in
    if not (same version signer.version)
    then Verified.refused
    else if not (all_ascii signature && all_ascii right)
    then Verified.raised
    else if not (same signature right)
    then Verified.refused
    else in_time (forms.read_user user) (forms.read_number expires) now

abbrev pub verify_parts : Forms → SessionSigner → ℕ → List Text → Verified
verify_parts forms signer now (version ∷ user ∷ expires ∷ signature ∷ []) =
    check_parts forms signer now version user expires signature
verify_parts forms signer now _ = Verified.refused

unfoldable pub verify : Forms → SessionSigner → ℕ → Text → Verified
verify forms signer now token = verify_parts forms signer now (split_dots token)
