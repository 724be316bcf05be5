-- ===== src/Links/Parse/Safe.antt =====
-- What a URL that `parse_url` of links/urls.py lets through can point at.
use nd_mind.Base.{
  ◌≢◌, Bool, ℕ, ◌<◌, ◌≤◌, Option, none, some, [], ◌∷◌, true, false, ◌≡◌, ◌⊎◌, length,
}
use nd_mind.Links.Address.{Address, unwrap}
use nd_mind.Links.Address.Public.{IsPublic}
use nd_mind.Links.Spelling.{Spelling, Text, strip_dots}
use nd_mind.Links.Parse.{
  Host, Library, Parsed, ParsedUrl, Parts, ends_with, every, http, https, in_name, localhost,
}

-- A host name of at most 253 characters of [a-z0-9._-], which is not the local host's.
pub record IsName (name : Text) : Type 0 where
  pub short : length name ≤ 253
  pub plain : every in_name (strip_dots name) ≡ true
  pub somewhere : strip_dots name ≢ []
  pub no_localhost : strip_dots name ≢ localhost
  pub no_sub_localhost : ends_with (strip_dots name) (b'.' ∷ localhost) ≡ false

-- What a host points at: a public address, printed, or a name.
abbrev pub PointsTo : Library → Text → Bool → Type 0
PointsTo lib host true = (a : Address) × IsPublic (unwrap a) × (host ≡ lib.str (unwrap a))
PointsTo lib host false = IsName host

abbrev pub Sure : Library → Host → Type 0
Sure lib (Host.found host literal) = PointsTo lib host literal
Sure lib (Host.refused r) = Unit
Sure lib Host.raised = Unit

-- What the model relies on of `IPv6Address`: its number is below 2 ^ 128.
abbrev pub ReadsIpv6 : Library → Type 0
ReadsIpv6 lib =
    (s : Text) (n : ℕ) → lib.ipv6 s ≡ some n → n < 340282366920938463463374607431768211456

abbrev pub NoCredentials : Parts → Type 0
NoCredentials parts = (parts.username ≡ none) × (parts.password ≡ none)

-- A web URL, of the parts it was split into: its scheme, its port, whom it names and no password.
pub record IsWebUrl (lib : Library) (split : Option Parts) (url : ParsedUrl) : Type 0 where
  pub scheme : (url.scheme ≡ http) ⊎ (url.scheme ≡ https)
  pub port : (url.port ≡ 80) ⊎ (url.port ≡ 443)
  pub host : PointsTo lib url.host url.is_ip_literal
  pub credentials : (parts : Parts) × (split ≡ some parts) × NoCredentials parts

abbrev SureUrl : Library → Option Parts → Parsed → Type 0
SureUrl lib split (Parsed.parsed url) = IsWebUrl lib split url
SureUrl lib split (Parsed.refused r) = Unit
SureUrl lib split Parsed.raised = Unit
