-- ===== src/Links/Spelling.antt =====
-- `parse_ipv4_spelling` of links/urls.py, with the standard library's `int`. A text is the list of
-- its characters' codes, of ASCII.
pub mod Decimal
pub use nd_mind.Base.Texts.{Text, split_dots}
use nd_mind.Base.{
  ℕ, zero, suc, ◌+◌, ◌-◌, ◌*◌, ◌^◌, Bool, true, false, not, ◌&&◌, ◌||◌, Option, none, some, List,
  [], ◌∷◌, ◌++◌, ltb, leb, ◌==◌, if◌then◌else◌, length,
}

-- The value of a digit; what is none has 99.
abbrev pub digit_of : ℕ → ℕ
digit_of c =
    if leb b'0' c && leb c b'9'
    then c - b'0'
    else if leb b'a' c && leb c b'z'
    then c - b'a' + 10
    else if leb b'A' c && leb c b'Z'
    then c - b'A' + 10
    else 99

-- What stands before the next character of a number: nothing, a prefix, a digit, an underscore.
pub data Before : Type 0 where
  nothing prefix digit underscore : Before

abbrev ends : Before → Bool
ends Before.digit = true
ends _ = false

abbrev may_part : Before → Bool
may_part Before.prefix = true
may_part Before.digit = true
may_part _ = false

-- Digits of a base, with single underscores between them.
unfoldable pub digits : ℕ → ℕ → Before → Text → Option ℕ
digits base n before [] = if ends before then some n else none
digits base n before (c ∷ s) =
    let part = c == b'_' && may_part before in
    let rest =
      digits base (if part then n else n * base + digit_of c)
        (if part then Before.underscore else Before.digit) s in
    if part || ltb (digit_of c) base then rest else none

-- What `int` takes for a space, and what `str.strip` takes for one besides.
abbrev is_int_space : ℕ → Bool
is_int_space c = c == 32 || leb 9 c && leb c 13

abbrev is_white : ℕ → Bool
is_white c = is_int_space c || leb 28 c && leb c 31

abbrev drop_left : (ℕ → Bool) → Text → Text
drop_left white [] = []
drop_left white (c ∷ s) = if white c then drop_left white s else c ∷ s

abbrev keep_end : (ℕ → Bool) → ℕ → Text → Text
keep_end white c [] = if white c then [] else c ∷ []
keep_end white c (d ∷ s) = c ∷ d ∷ s

abbrev drop_right : (ℕ → Bool) → Text → Text
drop_right white [] = []
drop_right white (c ∷ s) = keep_end white c (drop_right white s)

abbrev pub lstrip : Text → Text
lstrip s = drop_left is_white s

abbrev pub rstrip : Text → Text
rstrip s = drop_right is_white s

-- The prefix that `int` takes for a base: 0x and 0o.
abbrev marks : ℕ → ℕ → Bool
marks base c = base == 16 && (c == b'x' || c == b'X') || base == 8 && (c == b'o' || c == b'O')

abbrev magnitude : ℕ → Text → Option ℕ
magnitude base (c ∷ d ∷ s) =
    if c == b'0' && marks base d
    then digits base 0 Before.prefix s
    else digits base 0 Before.nothing (c ∷ d ∷ s)
magnitude base s = digits base 0 Before.nothing s

-- A number of Python, by its sign and its size.
pub record Signed : Type 0 where
  pub negative : Bool
  pub size : ℕ

abbrev signed : Bool → Option ℕ → Option Signed
signed negative none = none
signed negative (some n) = some (record { negative = negative; size = n })

abbrev with_sign : ℕ → Text → Option Signed
with_sign base [] = none
with_sign base (c ∷ s) =
    if c == b'-'
    then signed true (magnitude base s)
    else if c == b'+'
    then signed false (magnitude base s)
    else signed false (magnitude base (c ∷ s))

-- `int(text, base)`, where it does not raise.
unfoldable pub int : ℕ → Text → Option Signed
int base s = with_sign base (drop_right is_int_space (drop_left is_int_space s))

abbrev or_zero : Text → Text
or_zero [] = b'0' ∷ []
or_zero (c ∷ s) = c ∷ s

-- `_parse_ipv4_part`
abbrev pub parse_part : Text → Option Signed
parse_part [] = none
parse_part (c ∷ []) = int 10 (c ∷ [])
parse_part (c ∷ d ∷ s) =
    if c == b'0' && (d == b'x' || d == b'X')
    then int 16 (or_zero s)
    else if c == b'0'
    then int 8 (c ∷ d ∷ s)
    else int 10 (c ∷ d ∷ s)

abbrev drop_dot : ℕ → Text → Text
drop_dot c [] = if c == b'.' then [] else c ∷ []
drop_dot c (d ∷ s) = c ∷ d ∷ s

-- `host.rstrip(".")`
abbrev pub strip_dots : Text → Text
strip_dots [] = []
strip_dots (c ∷ s) = drop_dot c (strip_dots s)

abbrev cons_number : Option Signed → Option (List Signed) → Option (List Signed)
cons_number (some n) (some ns) = some (n ∷ ns)
cons_number _ _ = none

-- The parts' numbers, where all have one.
abbrev pub numbers : List Text → Option (List Signed)
numbers [] = some []
numbers (p ∷ parts) = cons_number (parse_part p) (numbers parts)

-- `n > k` and `n >= k`
abbrev above : Signed → ℕ → Bool
above n k = not n.negative && ltb k n.size

abbrev reaches : Signed → ℕ → Bool
reaches n k = not n.negative && leb k n.size

-- A part but the last is above 255, or the last is too large for the bytes that are left.
abbrev pub too_large : ℕ → List Signed → Bool
too_large left [] = false
too_large left (n ∷ []) = reaches n (256 ^ left)
too_large left (n ∷ m ∷ ns) = above n 255 || too_large left (m ∷ ns)

abbrev added : Signed → ℕ
added n = if n.negative then 0 else n.size

abbrev taken : Signed → ℕ
taken n = if n.negative then n.size else 0

-- The sum of `n * 256 ** (3 - i)` and of the last number, of what is added or what is taken off.
abbrev pub weigh : (Signed → ℕ) → ℕ → List Signed → ℕ
weigh side place [] = 0
weigh side place (n ∷ []) = side n
weigh side place (n ∷ m ∷ ns) = side n * 256 ^ place + weigh side (place - 1) (m ∷ ns)

-- The host is no address, one, or a number below 0, of which `IPv4Address` raises.
pub data Spelling : Type 0 where
  no_address below_zero : Spelling
  address : ℕ → Spelling

abbrev pub read_numbers : Option (List Signed) → Spelling
read_numbers none = Spelling.no_address
read_numbers (some ns) =
    if ltb 4 (length ns) || too_large (5 - length ns) ns
    then Spelling.no_address
    else if ltb (weigh added 3 ns) (weigh taken 3 ns)
    then Spelling.below_zero
    else Spelling.address (weigh added 3 ns - weigh taken 3 ns)

unfoldable pub parse_ipv4_spelling : Text → Spelling
parse_ipv4_spelling host = read_numbers (numbers (split_dots (strip_dots host)))
