-- ===== src/Beacon/Bitlist.antt =====
-- internal/source/beaconapi/bitlist.go and attestation_bits.go: SSZ bitlists and bitvectors as the
-- Beacon API encodes them, in hexadecimal. A text is the list of its bytes.
pub mod Bits
use Prim.Native.Nat.{◌-◌}
use whymiss.Prelude.{
  ℕ, zero, suc, ◌+◌, ◌*◌, ◌/◌, ◌%◌, ◌^◌, ◌==◌, Bool, false, ◌&&◌, ◌||◌, not, List, [], ◌∷◌, Option,
  none, some, length, ltb, leb, if◌then◌else◌,
}
use whymiss.Prelude.Text.{is_digit, is_hex, is_hex_pairs}

abbrev pub hex_value : ℕ → ℕ
hex_value c = if is_digit c then c - 48 else if leb 97 c then c - 87 else c - 55

-- `strings.TrimPrefix(s, "0x")`
abbrev pub trim_0x : List ℕ → List ℕ
trim_0x [] = []
trim_0x (c ∷ []) = c ∷ []
trim_0x (c ∷ d ∷ s) = if c == 48 && d == 120 then s else c ∷ d ∷ s

abbrev pub has_0x : List ℕ → Bool
has_0x [] = false
has_0x (c ∷ []) = false
has_0x (c ∷ d ∷ s) = c == 48 && d == 120

-- `fmt.Sscanf(chunk, "%02x", &b)` on two bytes: white space but a newline is skipped, then there is
-- at least one digit, and what follows the digits is not looked at.
abbrev skipped_space : ℕ → Bool
skipped_space c = c == 9 || c == 11 || c == 12 || c == 13 || c == 32

abbrev pub scan_byte : ℕ → ℕ → Option ℕ
scan_byte c d =
    if is_hex c
    then (if is_hex d then some (hex_value c * 16 + hex_value d) else some (hex_value c))
    else if skipped_space c && is_hex d
    then some (hex_value d)
    else none

unfoldable pub scan_bytes : List ℕ → Option (List ℕ)
scan_bytes [] = some []
scan_bytes (c ∷ []) = none
scan_bytes (c ∷ d ∷ s) = elim (scan_byte c d) [
  | none ↦ none
  | some b ↦ elim (scan_bytes s) [ none ↦ none | some bs ↦ some (b ∷ bs) ]
]

abbrev pub padded : List ℕ → List ℕ
padded raw = if length raw % 2 == 0 then raw else 48 ∷ raw

-- `bits.Len8(b) - 1` of a byte other than 0.
abbrev pub top_bit : ℕ → ℕ
top_bit b =
    if leb 128 b
    then 7
    else if leb 64 b
    then 6
    else if leb 32 b
    then 5
    else if leb 16 b
    then 4
    else if leb 8 b
    then 3
    else if leb 4 b
    then 2
    else if leb 2 b
    then 1
    else 0

-- The loop from the last byte down: the position of the highest bit, if there is one.
abbrev pub highest_bit : List ℕ → Option ℕ
highest_bit [] = none
highest_bit (b ∷ bs) = elim (highest_bit bs) [
  | some n ↦ some (n + 8)
  | none ↦ if b == 0 then none else some (top_bit b)
]

unfoldable pub bitlist_length : List ℕ → ℕ
bitlist_length buf = elim (highest_bit buf) [ none ↦ 0 | some n ↦ n ]

-- buf[index/8] & (1 << (index%8)) != 0, within the buffer.
abbrev pub bit_at : ℕ → List ℕ → Bool
bit_at index [] = false
bit_at index (b ∷ bs) =
    let later = bit_at (index - 8) bs in if ltb index 8 then (b / 2 ^ index) % 2 == 1 else later

-- `none` is an error.
unfoldable pub bit_set : List ℕ → ℕ → Option Bool
unfolding scan_bytes bitlist_length
bit_set hex_bits index = elim (scan_bytes (padded (trim_0x hex_bits))) [
  | none ↦ none
  | some buf ↦ if leb (bitlist_length buf) index then none else some (bit_at index buf)
]

-- `hex.DecodeString` of a text of pairs of digits.
abbrev pub hex_bytes : List ℕ → List ℕ
hex_bytes [] = []
hex_bytes (c ∷ []) = []
hex_bytes (c ∷ d ∷ s) = (hex_value c * 16 + hex_value d) ∷ hex_bytes s

abbrev pub set_indices : List ℕ → ℕ → ℕ → List ℕ
set_indices raw zero index = []
set_indices raw (suc left) index =
    let rest = set_indices raw left (suc index) in if bit_at index raw then index ∷ rest else rest

unfoldable pub bitvector_indices : List ℕ → ℕ → Option (List ℕ)
bitvector_indices hex_bits bit_length =
    if not (has_0x hex_bits)
    then none
    else if not (is_hex_pairs (trim_0x hex_bits))
    then none
    else if not (length (hex_bytes (trim_0x hex_bits)) == (bit_length + 7) / 8)
    then none
    else elim (set_indices (hex_bytes (trim_0x hex_bits)) bit_length 0) [
      | [] ↦ none
      | i ∷ is ↦ some (i ∷ is)
    ]
