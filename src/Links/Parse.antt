-- ===== src/Links/Parse.antt =====
-- `parse_url` of links/urls.py, with `_host_of`, `_ascii_name` and `_looks_numeric`. What they call
-- of the standard library beyond texts and numbers is the record Library.
pub mod Safe
use nd_mind.Base.{
  ℕ, Bool, true, false, not, ◌&&◌, ◌||◌, Option, none, some, List, [], ◌∷◌, ltb, leb, ◌==◌,
  if◌then◌else◌, any, length,
}
pub use nd_mind.Base.Texts.{same}
use nd_mind.Links.Address.{Address, Refusal, refusal_for, unwrap}
use nd_mind.Links.Spelling.{
  Spelling, Text, digit_of, lstrip, parse_ipv4_spelling, rstrip, split_dots, strip_dots,
}

-- What `urlsplit` makes of a URL, and its `port` and `hostname`, of which the first can raise.
pub record Parts : Type 0 where
  pub scheme : Text
  pub username : Option Text
  pub password : Option Text
  pub netloc : Text
  pub hostname : Option Text
  pub port : Option ℕ
  pub path : Text
  pub query : Text

-- `urlsplit` of a text without white space around it, the lower case, the IDNA form of a name and
-- `IPv6Address`, each none where it raises; the text of an address, and `urlunsplit` of a path and
-- a query.
pub record Library : Type 0 where
  pub urlsplit : Text → Option Parts
  pub lower : Text → Text
  pub idna : Text → Option Text
  pub ipv6 : Text → Option ℕ
  pub str : Address → Text
  pub urlunsplit : Text → Text → Text

pub record ParsedUrl : Type 0 where
  pub scheme : Text
  pub host : Text
  pub port : ℕ
  pub path_query : Text
  pub is_ip_literal : Bool

abbrev pub ends_with : Text → Text → Bool
ends_with [] t = same [] t
ends_with (c ∷ s) t = same (c ∷ s) t || ends_with s t

abbrev pub every : (ℕ → Bool) → Text → Bool
every p [] = true
every p (c ∷ s) = p c && every p s

abbrev pub localhost : Text
localhost = b'l' ∷ b'o' ∷ b'c' ∷ b'a' ∷ b'l' ∷ b'h' ∷ b'o' ∷ b's' ∷ b't' ∷ []

abbrev pub http : Text
http = b'h' ∷ b't' ∷ b't' ∷ b'p' ∷ []

abbrev pub https : Text
https = b'h' ∷ b't' ∷ b't' ∷ b'p' ∷ b's' ∷ []

-- [a-z0-9._-]
abbrev pub in_name : ℕ → Bool
in_name c =
    leb b'a' c && leb c b'z' || leb b'0' c && leb c b'9' || c == b'.' || c == b'_' || c == b'-'

abbrev last_label : List Text → Text
last_label [] = []
last_label (p ∷ []) = p
last_label (p ∷ q ∷ parts) = last_label (q ∷ parts)

abbrev is_digits : Text → Bool
is_digits [] = false
is_digits (c ∷ s) = every (λ d. leb b'0' d && leb d b'9') (c ∷ s)

abbrev is_hex : Text → Bool
is_hex (c ∷ d ∷ s) = c == b'0' && (d == b'x' || d == b'X') && every (λ e. ltb (digit_of e) 16) s
is_hex _ = false

unfoldable pub looks_numeric : Text → Bool
looks_numeric host =
    let label = last_label (split_dots (strip_dots host)) in is_hex label || is_digits label

-- A host and whether it was an address; a refusal; or an error that is none.
pub data Host : Type 0 where
  found : Text → Bool → Host
  refused : Refusal → Host
  raised : Host

abbrev pub name_of : Option Text → Host
name_of none = Host.refused Refusal.bad_url
name_of (some name) =
    let bare = strip_dots name in
    if ltb 253 (length name) || not (every in_name bare) || same bare []
    then Host.refused Refusal.bad_url
    else if same bare localhost || ends_with bare (b'.' ∷ localhost)
    then Host.refused Refusal.loopback
    else Host.found name false

-- `_ascii_name`
unfoldable pub ascii_name : Library → Text → Host
ascii_name lib host = name_of (lib.idna host)

abbrev refuse_or : Option Refusal → Host → Host
refuse_or (some r) h = Host.refused r
refuse_or none h = h

-- The end of `_host_of`, with an address.
unfoldable pub of_literal : Library → Address → Host
of_literal lib a = refuse_or (refusal_for a) (Host.found (lib.str (unwrap a)) true)

abbrev of_ipv6 : Library → Option ℕ → Host
of_ipv6 lib none = Host.refused Refusal.bad_url
of_ipv6 lib (some n) = of_literal lib (Address.v6 n)

abbrev of_spelling : Library → Text → Spelling → Host
of_spelling lib name Spelling.no_address =
    if looks_numeric name then Host.refused Refusal.bad_url else ascii_name lib name
of_spelling lib name Spelling.below_zero = Host.raised
of_spelling lib name (Spelling.address n) = of_literal lib (Address.v4 n)

unfoldable pub host_of : Library → Text → Host
host_of lib hostname =
    let name = lib.lower hostname in
    if any (◌==◌ b'%') name
    then Host.refused Refusal.bad_url
    else if any (◌==◌ b':') name
    then of_ipv6 lib (lib.ipv6 name)
    else of_spelling lib name (parse_ipv4_spelling name)

pub data Parsed : Type 0 where
  parsed : ParsedUrl → Parsed
  refused : Refusal → Parsed
  raised : Parsed

abbrev is_address : Spelling → Text → Host
is_address Spelling.below_zero name = Host.raised
is_address Spelling.no_address name = Host.found name false
is_address (Spelling.address n) name = Host.found name true

abbrev pub given : Option Text → Bool
given none = false
given (some t) = true

-- ALLOWED_SCHEMES and ALLOWED_PORTS
abbrev pub allowed_scheme : Text → Bool
allowed_scheme s = same s http || same s https

abbrev pub allowed_port : Option ℕ → Bool
allowed_port none = true
allowed_port (some p) = p == 80 || p == 443

-- `port or (443 if scheme == "https" else 80)`
abbrev pub port_of : Text → Option ℕ → ℕ
port_of scheme none = if same scheme https then 443 else 80
port_of scheme (some p) = if p == 0 then if same scheme https then 443 else 80 else p

abbrev or_slash : Text → Text
or_slash [] = b'/' ∷ []
or_slash (c ∷ s) = c ∷ s

abbrev pub url_of : Library → Parts → Host → Parsed
url_of lib parts (Host.refused r) = Parsed.refused r
url_of lib parts Host.raised = Parsed.raised
url_of lib parts (Host.found host literal) =
    let scheme = lib.lower parts.scheme in
    Parsed.parsed (record {
      scheme = scheme;
      host = host;
      port = port_of scheme parts.port;
      path_query = lib.urlunsplit (or_slash parts.path) parts.query;
      is_ip_literal = literal;
    })

-- The host that is allowed, or else the one that `_host_of` makes.
abbrev pub host_to_fetch : Library → Bool → Text → Host
host_to_fetch lib allowed hostname =
    let name = lib.lower hostname in
    if allowed then is_address (parse_ipv4_spelling name) name else host_of lib hostname

abbrev pub with_host : Library → List Text → Parts → Option Text → Parsed
with_host lib allow_hosts parts none = Parsed.refused Refusal.bad_url
with_host lib allow_hosts parts (some []) = Parsed.refused Refusal.bad_url
with_host lib allow_hosts parts (some (c ∷ hostname)) =
    let allowed = any (same (lib.lower (c ∷ hostname))) allow_hosts in
    if not (allowed_port parts.port) && not allowed
    then Parsed.refused Refusal.port
    else url_of lib parts (host_to_fetch lib allowed (c ∷ hostname))

abbrev pub of_parts : Library → List Text → Option Parts → Parsed
of_parts lib allow_hosts none = Parsed.refused Refusal.bad_url
of_parts lib allow_hosts (some parts) =
    if not (allowed_scheme (lib.lower parts.scheme))
    then Parsed.refused Refusal.scheme
    else if given parts.username || given parts.password || any (◌==◌ b'@') parts.netloc
    then Parsed.refused Refusal.credentials
    else with_host lib allow_hosts parts parts.hostname

unfoldable pub parse_url : Library → List Text → Text → Parsed
parse_url lib allow_hosts url =
    if ltb 2048 (length url)
    then Parsed.refused Refusal.url_too_long
    else if any (λ c. ltb c 32 || c == 127) url
    then Parsed.refused Refusal.bad_url
    else of_parts lib allow_hosts (lib.urlsplit (rstrip (lstrip url)))
