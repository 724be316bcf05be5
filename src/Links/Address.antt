-- ===== src/Links/Address.antt =====
-- The addresses of links/urls.py, as numbers: `unwrap`, `refusal_for` and `check_resolved`, with
-- what they ask of the standard library's `ipaddress`.
pub mod Public
use nd_mind.Base.{
  ℕ, ◌+◌, ◌-◌, ◌*◌, ◌/◌, ◌%◌, ◌^◌, String, Bool, true, false, not, ◌&&◌, ◌||◌, Option, none, some,
  List, [], ◌∷◌, ◌==◌, if◌then◌else◌, any, is_some,
}

-- `IPv4Address` and `IPv6Address`.
pub data Address : Type 0 where
  v4 v6 : ℕ → Address

-- A network of `size` addresses, a power of two; `first` is its lowest.
pub record Network : Type 0 where
  pub first : ℕ
  pub size : ℕ

-- `address in network`
abbrev pub in_net : ℕ → Network → Bool
in_net n net = n / net.size == net.first / net.size

abbrev pub in_any : ℕ → List Network → Bool
in_any n nets = any (in_net n) nets

-- `a.b.c.d/len`
abbrev pub net4 : ℕ → ℕ → ℕ → ℕ → ℕ → Network
net4 a b c d len = record { first = ((a * 256 + b) * 256 + c) * 256 + d; size = 2 ^ (32 - len) }

-- The network of the given length whose first four groups are these, and the last group.
abbrev pub net6 : ℕ → ℕ → ℕ → ℕ → ℕ → ℕ → Network
net6 a b c d last len = record {
  first = (((a * 65536 + b) * 65536 + c) * 65536 + d) * 2 ^ 64 + last;
  size = 2 ^ (128 - len);
}

-- What `ipaddress` of Python 3.12 calls private, and the exceptions to it.
abbrev pub special4 : List Network
special4 =
    net4 0 0 0 0 8
    ∷ net4 10 0 0 0 8
    ∷ net4 127 0 0 0 8
    ∷ net4 169 254 0 0 16
    ∷ net4 172 16 0 0 12
    ∷ net4 192 0 0 0 24
    ∷ net4 192 0 0 170 31
    ∷ net4 192 0 2 0 24
    ∷ net4 192 168 0 0 16
    ∷ net4 198 18 0 0 15
    ∷ net4 198 51 100 0 24
    ∷ net4 203 0 113 0 24
    ∷ net4 240 0 0 0 4
    ∷ net4 255 255 255 255 32
    ∷ []

abbrev pub except4 : List Network
except4 = net4 192 0 0 9 32 ∷ net4 192 0 0 10 32 ∷ []

abbrev pub special6 : List Network
special6 =
    net6 0 0 0 0 1 128
    ∷ net6 0 0 0 0 0 128
    ∷ record { first = 281470681743360; size = 4294967296 }
    ∷ net6 0x64 0xff9b 1 0 0 48
    ∷ net6 0x100 0 0 0 0 64
    ∷ net6 0x2001 0 0 0 0 23
    ∷ net6 0x2001 0xdb8 0 0 0 32
    ∷ net6 0x2002 0 0 0 0 16
    ∷ net6 0x3fff 0 0 0 0 20
    ∷ net6 0xfc00 0 0 0 0 7
    ∷ net6 0xfe80 0 0 0 0 10
    ∷ []

abbrev pub except6 : List Network
except6 =
    net6 0x2001 1 0 0 1 128
    ∷ net6 0x2001 1 0 0 2 128
    ∷ net6 0x2001 3 0 0 0 32
    ∷ net6 0x2001 4 0x112 0 0 48
    ∷ net6 0x2001 0x20 0 0 0 28
    ∷ net6 0x2001 0x30 0 0 0 28
    ∷ []

-- _CGNAT, _PRIVATE and _V6_TUNNELS
abbrev pub cgnat : Network
cgnat = net4 100 64 0 0 10

abbrev pub private4 : List Network
private4 = net4 10 0 0 0 8 ∷ net4 172 16 0 0 12 ∷ net4 192 168 0 0 16 ∷ []

abbrev pub private6 : List Network
private6 = net6 0xfc00 0 0 0 0 7 ∷ []

abbrev pub v6_tunnels : List Network
v6_tunnels =
    net6 0x64 0xff9b 0 0 0 96
    ∷ net6 0x64 0xff9b 1 0 0 48
    ∷ net6 0x2002 0 0 0 0 16
    ∷ net6 0x2001 0 0 0 0 32
    ∷ net6 0 0 0 0 0 96
    ∷ []

-- The rule that refuses, by its code.
pub data Refusal : Type 0 where
  loopback reserved_address link_local multicast carrier_grade_nat private_address : Refusal
  bad_url url_too_long scheme credentials port dns : Refusal

abbrev pub unwrap : Address → Address
unwrap (Address.v4 n) = Address.v4 n
unwrap (Address.v6 n) =
    if n / 4294967296 == 65535 then Address.v4 (n % 4294967296) else Address.v6 n

-- The first check that hits.
abbrev pub first_hit : List (Bool × Refusal) → Option Refusal
first_hit [] = none
first_hit ((hit, rule) ∷ checks) = if hit then some rule else first_hit checks

abbrev pub checks4 : ℕ → List (Bool × Refusal)
checks4 n =
    (in_net n (net4 127 0 0 0 8), Refusal.loopback)
    ∷ (n == 0, Refusal.reserved_address)
    ∷ (in_net n (net4 169 254 0 0 16), Refusal.link_local)
    ∷ (in_net n (net4 224 0 0 0 4), Refusal.multicast)
    ∷ (in_net n cgnat, Refusal.carrier_grade_nat)
    ∷ (in_any n private4, Refusal.private_address)
    ∷ (in_net n cgnat || in_any n special4 && not (in_any n except4), Refusal.reserved_address)
    ∷ []

abbrev pub checks6 : ℕ → List (Bool × Refusal)
checks6 n =
    (n == 1, Refusal.loopback)
    ∷ (n == 0, Refusal.reserved_address)
    ∷ (in_net n (net6 0xfe80 0 0 0 0 10), Refusal.link_local)
    ∷ (in_net n (net6 0xff00 0 0 0 0 8), Refusal.multicast)
    ∷ (in_any n private6, Refusal.private_address)
    ∷ (in_any n v6_tunnels, Refusal.reserved_address)
    ∷ (in_any n special6 && not (in_any n except6), Refusal.reserved_address)
    ∷ []

abbrev pub checks_of : Address → List (Bool × Refusal)
checks_of (Address.v4 n) = checks4 n
checks_of (Address.v6 n) = checks6 n

-- `refusal_for`; the check on carrier-grade NAT is of IPv4 alone, that on tunnels of IPv6.
unfoldable pub refusal_for : Address → Option Refusal
refusal_for a = first_hit (checks_of (unwrap a))

abbrev pub or_refusal : Option Refusal → Option Refusal → Option Refusal
or_refusal (some r) rest = some r
or_refusal none rest = rest

abbrev pub refusal_of : Option Address → Option Refusal
refusal_of none = some Refusal.dns
refusal_of (some a) = refusal_for a

-- The loop of `check_resolved`, on each answer of the resolver as `ip_address` reads it.
unfoldable pub check_each : List (Option Address) → Option Refusal
check_each [] = none
check_each (a ∷ rest) = or_refusal (refusal_of a) (check_each rest)

unfoldable pub check_resolved : List (Option Address) → Option Refusal
check_resolved [] = some Refusal.dns
check_resolved (a ∷ rest) = check_each (a ∷ rest)
