-- ===== src/Text.antt =====
-- Go strings as lists of Unicode code points, and the functions of the packages `strings`,
-- `unicode`, `strconv` and `fmt` that the sources use: TrimSpace, ToLower, ToUpper, HasPrefix,
-- IndexByte, FormatInt. Every text of a request is valid UTF-8, since it comes from
-- `encoding/json`; `utf8` gives its bytes, which `len` and indexing count.
pub mod Equality
use albion_market_api.Prelude.{
  ℕ, zero, suc, ◌+◌, ◌-◌, ◌*◌, ◌/◌, ◌%◌, ◌≡◌, Bool, true, false, ◌&&◌, ◌||◌, Option, none, some,
  List, [], ◌∷◌, ◌++◌, map, length, ltb, leb, ◌==◌, if◌then◌else◌,
}
use albion_market_api.Prelude.Int.{ℤ, pos, negsuc}
use Prim.Native.String.{String}
use Prim.Native.Char.{code}

abbrev pub Text : Type 0
Text = List ℕ

-- A literal of the source.
abbrev pub lit : String → Text
lit String.[] = []
lit (String.◌∷◌ c s) = code c ∷ lit s

-- Tables and functions of the Go release that the sources call and this library does not define:
-- `unicode.ToLower` and `unicode.ToUpper` at code points from 128 on, `time.Parse` at the layout
-- RFC3339Nano, and the first byte of `sha256.Sum256`.
pub record Platform : Type 0 where
  pub lower : ℕ → ℕ
  pub upper : ℕ → ℕ
  pub parse_rfc3339 : Text → Option ℕ
  pub sha256_head : Text → ℕ

abbrev pub text_eq : Text → Text → Bool
text_eq [] [] = true
text_eq [] (d ∷ t) = false
text_eq (c ∷ s) [] = false
text_eq (c ∷ s) (d ∷ t) = c == d && text_eq s t

-- `s < t`: bytewise, which at UTF-8 is the order of the code points.
abbrev pub text_lt : Text → Text → Bool
text_lt s [] = false
text_lt [] (d ∷ t) = true
text_lt (c ∷ s) (d ∷ t) = ltb c d || (c == d && text_lt s t)

unfoldable pub is_empty : Text → Bool
is_empty [] = true
is_empty (c ∷ s) = false

-- `unicode.IsSpace`.
unfoldable pub is_space : ℕ → Bool
is_space c =
    (leb 9 c && leb c 13)
    || c == 32
    || c == 0x85
    || c == 0xA0
    || c == 0x1680
    || (leb 0x2000 c && leb c 0x200a)
    || c == 0x2028
    || c == 0x2029
    || c == 0x202f
    || c == 0x205f
    || c == 0x3000

unfoldable pub trim_left : Text → Text
unfolding is_space
trim_left [] = []
trim_left (c ∷ s) = let rest = trim_left s in if is_space c then rest else c ∷ s

unfoldable pub reverse_onto : Text → Text → Text
reverse_onto [] t = t
reverse_onto (c ∷ s) t = reverse_onto s (c ∷ t)

-- `strings.TrimSpace`.
unfoldable pub trim_space : Text → Text
unfolding trim_left reverse_onto
trim_space s = reverse_onto (trim_left (reverse_onto (trim_left s) [])) []

module _ ⦃go : Platform⦄ where
  unfoldable pub lower_rune : ℕ → ℕ
  lower_rune c = if leb 128 c then go.lower c else if leb b'A' c && leb c b'Z' then c + 32 else c

  unfoldable pub upper_rune : ℕ → ℕ
  upper_rune c = if leb 128 c then go.upper c else if leb b'a' c && leb c b'z' then c - 32 else c

  -- `strings.ToLower` and `strings.ToUpper`.
  unfoldable pub to_lower : Text → Text
  unfolding lower_rune
  to_lower s = map lower_rune s

  unfoldable pub to_upper : Text → Text
  unfolding upper_rune
  to_upper s = map upper_rune s

-- `strings.HasPrefix(s, prefix)`.
unfoldable pub has_prefix : Text → Text → Bool
has_prefix s [] = true
has_prefix [] (p ∷ ps) = false
has_prefix (c ∷ s) (p ∷ ps) = c == p && has_prefix s ps

-- What stands behind the first `c`, if there is one: `s[IndexByte(s, c)+1:]`.
unfoldable pub after_first : ℕ → Text → Option Text
after_first c [] = none
after_first c (d ∷ s) = if d == c then some s else after_first c s

-- The decimal digits of a number, most significant first; `fuel` is above the number of digits.
unfoldable pub digits_onto : ℕ → ℕ → Text → Text
digits_onto zero n acc = acc
digits_onto (suc fuel) n acc =
    let more = digits_onto fuel (n / 10) ((48 + n % 10) ∷ acc) in
    if ltb n 10 then (48 + n) ∷ acc else more

-- `strconv.FormatInt(n, 10)`, `%d`. A number has at most as many digits as its value plus one.
unfoldable pub format_int : ℤ → Text
unfolding digits_onto
format_int (pos n) = digits_onto (suc n) n []
format_int (negsuc n) = b'-' ∷ digits_onto (suc (suc n)) (suc n) []

-- The bytes of a code point in UTF-8.
unfoldable pub utf8_rune : ℕ → List ℕ
utf8_rune c =
    if ltb c 0x80
    then c ∷ []
    else if ltb c 0x800
    then (0xC0 + c / 64) ∷ (0x80 + c % 64) ∷ []
    else if ltb c 0x10000
    then (0xE0 + c / 4096) ∷ (0x80 + c / 64 % 64) ∷ (0x80 + c % 64) ∷ []
    else (0xF0 + c / 262144) ∷ (0x80 + c / 4096 % 64) ∷ (0x80 + c / 64 % 64) ∷ (0x80 + c % 64) ∷ []

unfoldable pub utf8 : Text → List ℕ
unfolding utf8_rune
utf8 [] = []
utf8 (c ∷ s) = utf8_rune c ++ utf8 s

-- `len(s)`.
unfoldable pub byte_len : Text → ℕ
unfolding utf8
byte_len s = length (utf8 s)
