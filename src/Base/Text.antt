-- ===== src/Base/Text.antt =====
-- Texts as lists of code points, and what the source uses of Rust's `str`: UTF-8 bytes, `trim`,
-- `split`, ASCII case. Byte strings are lists of numbers below 256.
use Prim.Native.Char.{code}
use Prim.Native.Nat.{ℕ, ◌+◌, ◌-◌, ◌*◌, ◌/◌, ◌%◌}
use Prim.Native.String.{String}
use mathlib.Core.Bool.{Bool, true, false, ◌&&◌, ◌||◌}
use mathlib.Core.List.{List, [], ◌∷◌, ◌++◌, map, reverse}
use mathlib.Core.Option
use mathlib.Core.Option.{Option, none, some}
use peerline.Base.Tests.{ltb, leb, ◌==◌, if◌then◌else◌, text_eq}
use peerline.Base.Lists.{length, is_empty}

abbrev pub Text : Type 0
Text = List ℕ

abbrev pub Bytes : Type 0
Bytes = List ℕ

-- The code points of a literal.
abbrev pub codes : String → Text
codes String.[] = []
codes (String.◌∷◌ c s) = code c ∷ codes s

-- `str::as_bytes`.
unfoldable pub utf8_char : ℕ → Bytes
utf8_char c =
    if ltb c 0x80
    then c ∷ []
    else if ltb c 0x800
    then (0xc0 + c / 64) ∷ (0x80 + c % 64) ∷ []
    else if ltb c 0x10000
    then (0xe0 + c / 4096) ∷ (0x80 + c / 64 % 64) ∷ (0x80 + c % 64) ∷ []
    else (0xf0 + c / 262144) ∷ (0x80 + c / 4096 % 64) ∷ (0x80 + c / 64 % 64) ∷ (0x80 + c % 64) ∷ []

unfoldable pub utf8 : Text → Bytes
unfolding utf8_char
utf8 [] = []
utf8 (c ∷ s) = utf8_char c ++ utf8 s

-- `str::len`, in bytes.
unfoldable pub byte_len : Text → ℕ
unfolding utf8
byte_len s = length (utf8 s)

-- Character classes of `char` and `u8`.
unfoldable pub is_lower : ℕ → Bool
is_lower c = leb b'a' c && leb c b'z'

unfoldable pub is_upper : ℕ → Bool
is_upper c = leb b'A' c && leb c b'Z'

unfoldable pub is_digit : ℕ → Bool
is_digit c = leb b'0' c && leb c b'9'

unfoldable pub is_alphanumeric : ℕ → Bool
unfolding is_lower is_upper is_digit
is_alphanumeric c = is_lower c || is_upper c || is_digit c

unfoldable pub is_hex_digit : ℕ → Bool
unfolding is_digit
is_hex_digit c = is_digit c || leb b'a' c && leb c b'f' || leb b'A' c && leb c b'F'

-- `is_ascii_graphic`: U+0021 to U+007E.
unfoldable pub is_graphic : ℕ → Bool
is_graphic c = leb 0x21 c && leb c 0x7e

-- `char::is_whitespace`: Unicode's White_Space property.
unfoldable pub is_whitespace : ℕ → Bool
is_whitespace c =
    leb 9 c && leb c 13
    || c == 0x20
    || c == 0x85
    || c == 0xa0
    || c == 0x1680
    || leb 0x2000 c && leb c 0x200a
    || c == 0x2028
    || c == 0x2029
    || c == 0x202f
    || c == 0x205f
    || c == 0x3000

unfoldable pub to_lower : ℕ → ℕ
unfolding is_upper
to_lower c = if is_upper c then c + 32 else c

-- `str::to_ascii_lowercase`.
unfoldable pub lowercase : Text → Text
unfolding to_lower
lowercase s = map to_lower s

-- `str::eq_ignore_ascii_case`.
unfoldable pub eq_ignore_case : Text → Text → Bool
unfolding lowercase text_eq
eq_ignore_case s t = text_eq (lowercase s) (lowercase t)

unfoldable pub skip_while : (ℕ → Bool) → Text → Text
skip_while p [] = []
skip_while p (c ∷ s) = elim (p c) [ true ↦ skip_while p s | false ↦ c ∷ s ]

-- `str::trim_matches` by a test on characters.
unfoldable pub trim_matches : (ℕ → Bool) → Text → Text
unfolding skip_while
trim_matches p s = reverse (skip_while p (reverse (skip_while p s)))

-- `str::trim`.
unfoldable pub trim : Text → Text
unfolding trim_matches is_whitespace
trim s = trim_matches is_whitespace s

abbrev pub extend_first : ℕ → List Text → List Text
extend_first c [] = (c ∷ []) ∷ []
extend_first c (w ∷ ws) = (c ∷ w) ∷ ws

-- `str::split` at each character that passes the test: the parts between them, at least one.
unfoldable pub split : (ℕ → Bool) → Text → List Text
split p [] = [] ∷ []
split p (c ∷ s) = let rest = split p s in if p c then [] ∷ rest else extend_first c rest

-- The part of `split` before the first such character.
unfoldable pub first_part : (ℕ → Bool) → Text → Text
first_part p [] = []
first_part p (c ∷ s) = if p c then [] else c ∷ first_part p s

-- `rsplit(p).next()`: the part after the last such character.
unfoldable pub last_part : (ℕ → Bool) → Text → Text
unfolding first_part
last_part p s = reverse (first_part p (reverse s))

unfoldable pub strip_prefix : Text → Text → Option Text
strip_prefix [] s = some s
strip_prefix (a ∷ pre) [] = none
strip_prefix (a ∷ pre) (b ∷ s) = elim (a == b) [ true ↦ strip_prefix pre s | false ↦ none ]

unfoldable pub strip_suffix : Text → Text → Option Text
unfolding strip_prefix
strip_suffix suf s = Option.map reverse (strip_prefix (reverse suf) (reverse s))

unfoldable pub starts_with : Text → Text → Bool
unfolding strip_prefix
starts_with pre s = elim (strip_prefix pre s) [ none ↦ false | some rest ↦ true ]

-- `str::contains` of a text.
unfoldable pub contains_text : Text → Text → Bool
unfolding starts_with
contains_text t [] = is_empty t
contains_text t (c ∷ s) = starts_with t (c ∷ s) || contains_text t s

-- The value of a run of digits, most significant first.
unfoldable pub digits_value : ℕ → Text → Option ℕ
unfolding is_digit
digits_value acc [] = some acc
digits_value acc (c ∷ s) = elim (is_digit c) [
  | true ↦ digits_value (acc * 10 + (c - b'0')) s
  | false ↦ none
]

abbrev pub unsigned : Text → Option ℕ
unfolding digits_value
unsigned [] = none
unsigned (c ∷ s) = digits_value 0 (c ∷ s)
