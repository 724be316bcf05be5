-- ===== src/Links/Tests.antt =====
-- Runs of links/urls.py on small inputs, and its theorems at concrete ones.
use nd_mind.Base.{true, Option, none, some, List, [], ◌∷◌, ◌≡◌, ◌≢◌, refl, arith, All, ◌+◌, ◌*◌}
use nd_mind.Links.Address.{Address, Refusal, check_each, check_resolved, refusal_for}
use nd_mind.Links.Address.Public.{IsSafe, check_resolved-IsSafe}
use nd_mind.Links.Spelling.{Spelling, Text, digits, int, parse_ipv4_spelling}
use nd_mind.Links.Spelling.Decimal.{parse_ipv4_spelling-print_address, print_address}
use nd_mind.Links.Parse.{Library, ParsedUrl, Parts, http, host_of, Host}

odd_spellings :
    (parse_ipv4_spelling (b'0' ∷ b'x' ∷ b'7' ∷ b'f' ∷ b'.' ∷ b'1' ∷ [])
      ≡ Spelling.address 2130706433)
    × (parse_ipv4_spelling (b'0' ∷ b'1' ∷ b'7' ∷ b'7' ∷ b'.' ∷ b'0' ∷ b'.' ∷ b'1' ∷ b'.' ∷ [])
        ≡ Spelling.address 2130706433)
    × (parse_ipv4_spelling (b'1' ∷ b'.' ∷ b'.' ∷ []) ≡ Spelling.address 1)
unfolding parse_ipv4_spelling int digits
odd_spellings = (refl, refl, refl)

parse_ipv4_spelling-print_address_example :
    parse_ipv4_spelling (print_address 192 168 0 7)
    ≡ Spelling.address (192 * 16777216 + 168 * 65536 + 0 * 256 + 7)
parse_ipv4_spelling-print_address_example =
    parse_ipv4_spelling-print_address 192 168 0 7 (omega arith) (omega arith) (omega arith)
      (omega arith)

-- A public address of each family, and the metadata service's.
abbrev public_answers : List (Option Address)
public_answers =
    some (Address.v4 134744072) ∷ some (Address.v6 50543257694033307102031451402929180945) ∷ []

metadata :
    check_resolved (some (Address.v4 134744072) ∷ some (Address.v4 2852039166) ∷ [])
    ≡ some Refusal.link_local
unfolding check_resolved check_each refusal_for
metadata = refl

check_resolved-IsSafe_example : (public_answers ≢ []) × All IsSafe public_answers
unfolding check_resolved check_each refusal_for
check_resolved-IsSafe_example =
    check_resolved-IsSafe public_answers (omega arith, (omega arith, tt)) refl

-- http://8.8.8.8/a, as a library that knows only it splits it.
abbrev dns_host : Text
dns_host = b'8' ∷ b'.' ∷ b'8' ∷ b'.' ∷ b'8' ∷ b'.' ∷ b'8' ∷ []

abbrev demo_parts : Parts
demo_parts = record {
  scheme = http;
  username = none;
  password = none;
  netloc = dns_host;
  hostname = some dns_host;
  port = none;
  path = b'/' ∷ b'a' ∷ [];
  query = [];
}

abbrev print_number : Address → Text
print_number (Address.v4 n) = n ∷ []
print_number (Address.v6 n) = n ∷ []

abbrev demo_library : Library
demo_library = record {
  urlsplit = λ s. some demo_parts;
  lower = λ s. s;
  idna = some;
  ipv6 = λ s. none;
  str = print_number;
  urlunsplit = λ path query. path;
}

abbrev demo_url : ParsedUrl
demo_url = record {
  scheme = http;
  host = 134744072 ∷ [];
  port = 80;
  path_query = b'/' ∷ b'a' ∷ [];
  is_ip_literal = true;
}

-- A number below 0 is no refusal: the error is the address's own.
below_zero : host_of demo_library (b'-' ∷ b'1' ∷ []) ≡ Host.raised
unfolding host_of parse_ipv4_spelling int digits
below_zero = refl
