-- ===== src/Memory/CoreLayer.antt =====
-- memory/core_layer.py: which items core memory shows, and the tokens that it takes.
use Prim.Native.Char.{code}
use nd_mind.Base.{
  ℕ, ◌+◌, ◌/◌, String, Bool, true, false, not, ◌&&◌, ◌||◌, List, [], ◌∷◌, leb, ◌==◌, str_eq,
  if◌then◌else◌, is_some, length, filter,
}
use nd_mind.Policy.Rules.{is_sensitive}
use nd_mind.Memory.Records.{ItemRecord}
use nd_mind.Memory.Tables.{is_active}

-- The code points of a text.
abbrev pub codes : String → List ℕ
codes String.[] = []
codes (String.◌∷◌ c s) = code c ∷ codes s

-- The characters at which `str.split()` cuts.
unfoldable pub is_space : ℕ → Bool
is_space c =
    leb 9 c && leb c 13
    || leb 28 c && leb c 32
    || c == 0x85
    || c == 0xa0
    || c == 0x1680
    || leb 0x2000 c && leb c 0x200a
    || c == 0x2028
    || c == 0x2029
    || c == 0x202f
    || c == 0x205f
    || c == 0x3000

-- The length of `" ".join(text.split())`: the characters of the words, and one space between two
-- words. The flags say whether a word has been read, and whether a space stands before the rest.
unfoldable pub joined_length : Bool → Bool → List ℕ → ℕ
unfolding is_space
joined_length seen gap [] = 0
joined_length seen gap (c ∷ cs) = elim (is_space c) [
  | true ↦ joined_length seen seen cs
  | false ↦ (if gap then 2 else 1) + joined_length true false cs
]

-- `len(core_line(item))`
unfoldable pub core_line_length : ItemRecord → ℕ
unfolding joined_length
core_line_length item = 2 + joined_length false false (codes item.content.text)

abbrev pub header : String
header = "## Core memory (what I always know about you)"

-- `ceil(len(text) / 4)`, for a text of this length.
unfoldable pub estimate_tokens : ℕ → ℕ
estimate_tokens n = (n + 3) / 4

-- Membership of `_CORE_STATES`.
unfoldable pub core_state : String → Bool
core_state s = str_eq s "current" || str_eq s "active" || str_eq s "confirmed"

unfoldable pub in_core_view : ItemRecord → Bool
unfolding core_state
in_core_view item =
    if not item.content.in_core
      || not (is_active item.content.status)
      || is_some item.content.valid_to
    then false
    else if not (core_state item.content.state)
    then false
    else not (is_sensitive item.content.sensitivity) || is_some item.content.core_confirmed_at

-- The lines of core memory joined by line ends, each preceded by one here but the header.
abbrev lines_length : List ItemRecord → ℕ
lines_length [] = 0
lines_length (i ∷ is) = 1 + core_line_length i + lines_length is

unfoldable pub core_tokens_with : List ItemRecord → ItemRecord → ℕ
unfolding in_core_view core_line_length estimate_tokens
core_tokens_with items candidate = estimate_tokens (
    length (codes header)
    + lines_length (filter in_core_view items)
    + (1 + core_line_length candidate))
