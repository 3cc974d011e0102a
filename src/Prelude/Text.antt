-- ===== src/Prelude/Text.antt =====
-- Texts as Go's strings: equality, prefixes, lengths in bytes, and the functions of `strings`,
-- `strconv` and `encoding/hex` that the program calls.
use Prim.Native.Nat.{ℕ, zero, suc, ◌+◌, ◌-◌, ◌*◌, ◌/◌, ◌%◌, ◌^◌}
use Prim.Native.Char.{code}
use Prim.Native.String.{String, len}
use mathlib.Core.Path.{◌≡◌, refl}
use mathlib.Core.Logic.{◌↔◌}
use mathlib.Core.Bool.{Bool, true, false, ◌&&◌, ◌||◌}
use mathlib.Core.Option.{Option, none, some}
use mathlib.Core.List.{List, [], ◌∷◌}
use text.Mathlib.Text.{◌==◌ as text_eq, starts_with}
use text.Mathlib.TextEquality.{eq_iff as text_eq_iff}
use whymiss.Prelude.Tests.{ltb, leb, ◌==◌, if◌then◌else◌}

abbrev pub str_eq : String → String → Bool
str_eq s t = text_eq s t

pub str_eq_iff : (s t : String) → (str_eq s t ≡ true) ↔ (s ≡ t)
str_eq_iff s t = text_eq_iff s t

abbrev pub has_prefix : String → String → Bool
has_prefix s t = starts_with s t

abbrev pub codes : String → List ℕ
codes String.[] = []
codes (String.◌∷◌ c s) = code c ∷ codes s

abbrev pub byte_len : String → ℕ
byte_len s = len s

-- `strings.TrimSpace(s) == ""`: every character is white space.
unfoldable pub is_space : ℕ → Bool
is_space c =
    (leb 9 c && leb c 13)
    || c == 32
    || c == 133
    || c == 160
    || c == 5760
    || (leb 8192 c && leb c 8202)
    || c == 8232
    || c == 8233
    || c == 8239
    || c == 8287
    || c == 12288

unfoldable pub all_space : List ℕ → Bool
all_space [] = true
all_space (c ∷ s) = elim (is_space c) [ true ↦ all_space s | false ↦ false ]

unfoldable pub is_blank : String → Bool
unfolding all_space is_space
is_blank s = all_space (codes s)

abbrev pub is_digit : ℕ → Bool
is_digit c = leb 48 c && leb c 57

abbrev pub is_hex : ℕ → Bool
is_hex c = is_digit c || (leb 97 c && leb c 102) || (leb 65 c && leb c 70)

-- `strconv.ParseUint(s, 10, bits)`: digits alone, at least one, and a value below 2 ^ bits.
unfoldable pub digits_value : ℕ → List ℕ → Option ℕ
digits_value n [] = some n
digits_value n (c ∷ s) = elim (is_digit c) [
  | true ↦ digits_value (n * 10 + (c - 48)) s
  | false ↦ none
]

abbrev pub parse_digits : List ℕ → Option ℕ
parse_digits [] = none
parse_digits (c ∷ s) = digits_value 0 (c ∷ s)

abbrev pub below : ℕ → Option ℕ → Option ℕ
below limit none = none
below limit (some n) = if ltb n limit then some n else none

unfoldable pub parse_uint : ℕ → String → Option ℕ
unfolding digits_value
parse_uint bits s = below (2 ^ bits) (parse_digits (codes s))

-- `strconv.ParseInt(s, 10, bits)` and `strconv.Atoi` where the caller refuses what is not positive:
-- a sign `-` never leads to a positive number, and a sign `+` is allowed.
abbrev strip_plus : String → String
strip_plus String.[] = String.[]
strip_plus (String.◌∷◌ c s) = if str_eq (String.◌∷◌ c String.[]) "+" then s else String.◌∷◌ c s

unfoldable pub parse_nonneg_int : ℕ → String → Option ℕ
unfolding digits_value
parse_nonneg_int bits s = below (2 ^ (bits - 1)) (parse_digits (codes (strip_plus s)))

-- `%d` and `strconv.FormatUint(n, 10)`; a number has at most as many digits as `suc n`.
unfoldable pub decimal_digits : ℕ → ℕ → List ℕ → List ℕ
decimal_digits zero n rest = rest
decimal_digits (suc fuel) n rest = elim (ltb n 10) [
  | true ↦ (48 + n) ∷ rest
  | false ↦ decimal_digits fuel (n / 10) ((48 + n % 10) ∷ rest)
]

unfoldable pub decimal : ℕ → List ℕ
unfolding decimal_digits
decimal n = decimal_digits (suc n) n []

-- The test that `encoding/hex.DecodeString` makes: pairs of hexadecimal digits.
unfoldable pub is_hex_pairs : List ℕ → Bool
is_hex_pairs [] = true
is_hex_pairs (c ∷ []) = false
is_hex_pairs (c ∷ d ∷ s) = is_hex c && (is_hex d && is_hex_pairs s)

abbrev pub drop_two : List ℕ → List ℕ
drop_two [] = []
drop_two (c ∷ []) = []
drop_two (c ∷ d ∷ s) = s

parse_uint_max : parse_uint 64 "18446744073709551615" ≡ some 18446744073709551615
unfolding parse_uint
parse_uint_max = refl

parse_uint_over : parse_uint 64 "18446744073709551616" ≡ none
unfolding parse_uint
parse_uint_over = refl

is_blank_space : is_blank " \t" ≡ true
unfolding is_blank
is_blank_space = refl

is_blank_text : is_blank "  a statement" ≡ false
unfolding is_blank
is_blank_text = refl

decimal_3210 : decimal 3210 ≡ 51 ∷ 50 ∷ 49 ∷ 48 ∷ []
unfolding decimal
decimal_3210 = refl
