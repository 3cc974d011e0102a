-- ===== src/Beacon/Bitlist/Bits.antt =====
-- internal/source/beaconapi/bitlist.go and attestation_bits.go: the bits that are read, by their byte
-- and their place in it.
use whymiss.Prelude.{
  ℕ, zero, suc, ◌+◌, ◌-◌, ◌/◌, ◌%◌, ◌^◌, ◌<◌, ◌≤◌, Any, ◌∙◌, ◌==◌, ==_iff, true, false, List, [],
  ◌∷◌, Option, none, some, ltb, leb, ◌≡◌, refl, sym, subst, arith, All, Bool-cases, Option-cases,
  inl, inr, some_inj, none_ne_some, true_ne_false,
}
use whymiss.Prelude.Text.{is_hex}
use whymiss.Beacon.Bitlist.{
  hex_value, scan_byte, scan_bytes, padded, trim_0x, top_bit, highest_bit, bitlist_length, bit_at,
  bit_set, set_indices, bitvector_indices, hex_bytes,
}

abbrev pub byte_of : ℕ → List ℕ → Option ℕ
byte_of n [] = none
byte_of zero (b ∷ bs) = some b
byte_of (suc n) (b ∷ bs) = byte_of n bs

-- Bit i is bit i % 8, of value 2 ^ (i % 8), of the byte i / 8.
abbrev pub IsOne : List ℕ → ℕ → Type 0
IsOne buf i = (b : ℕ) × (byte_of (i / 8) buf ≡ some b) × (b / 2 ^ (i % 8) % 2 ≡ 1)

IsOne-here : (i b : ℕ) (bs : List ℕ) → i < 8 → b / 2 ^ i % 2 ≡ 1 → IsOne (b ∷ bs) i
IsOne-here i b bs h e =
    let low : i / 8 ≡ 0 = omega arith in
    let same : i % 8 ≡ i = omega arith in rw (low, same) (b, refl, e)

IsOne-later : (i b : ℕ) (bs : List ℕ) → IsOne bs i → IsOne (b ∷ bs) (i + 8)
IsOne-later i b bs h =
    let next : (i + 8) / 8 ≡ suc (i / 8) = omega arith in
    let same : (i + 8) % 8 ≡ i % 8 = omega arith in rw (next, same) h

bit_at-IsOne : (i : ℕ) (buf : List ℕ) → bit_at i buf ≡ true → IsOne buf i
bit_at-IsOne i [] h = absurd (true_ne_false (sym h))
bit_at-IsOne i (b ∷ bs) h = elim (Bool-cases (ltb i 8)) [
  | inl e ↦ IsOne-here i b bs (ground arith) ((==_iff (b / 2 ^ i % 2) 1).0 (rw e at h))
  | inr e ↦
      let back : i - 8 + 8 ≡ i = ground arith in
      subst (IsOne (b ∷ bs)) back (IsOne-later (i - 8) b bs (bit_at-IsOne (i - 8) bs (rw e at h)))
]

-- The bits that a bitvector lists are set.
set_indices-IsOne : (raw : List ℕ) (left index : ℕ) → All (IsOne raw) (set_indices raw left index)
set_indices-IsOne raw zero index = tt
set_indices-IsOne raw (suc left) index =
    let rest = set_indices-IsOne raw left (suc index) in
    elim (Bool-cases (bit_at index raw)) [
      | inl e ↦ rw e (bit_at-IsOne index raw e, rest)
      | inr e ↦ rw e rest
    ]

pub bitvector_indices-IsOne :
    (hex : List ℕ) (n : ℕ) (indices : List ℕ)
    → bitvector_indices hex n ≡ some indices
    → All (IsOne (hex_bytes (trim_0x hex))) indices
unfolding bitvector_indices
bitvector_indices-IsOne hex n indices h =
    let e : set_indices (hex_bytes (trim_0x hex)) n 0 ≡ indices = ground arith in
    subst (All (IsOne (hex_bytes (trim_0x hex)))) e
      (set_indices-IsOne (hex_bytes (trim_0x hex)) n 0)

-- And it lists every bit that is set.
byte_of-nil : (n : ℕ) → byte_of n [] ≡ none
byte_of-nil n = refl

IsOne-bit_at : (i : ℕ) (buf : List ℕ) → IsOne buf i → bit_at i buf ≡ true
IsOne-bit_at i [] (b, e, s) = absurd (none_ne_some (sym (byte_of-nil (i / 8)) ∙ e))
IsOne-bit_at i (b ∷ bs) h = elim (Bool-cases (ltb i 8)) [
  | inl e ↦ rw e (here i b bs (ground arith) h)
  | inr e ↦ rw e (IsOne-bit_at (i - 8) bs (later i b bs (ground arith) h))
]
  where
    here : (i b : ℕ) (bs : List ℕ) → i < 8 → IsOne (b ∷ bs) i → ((b / 2 ^ i) % 2 == 1) ≡ true
    here i b bs l (c, e, s) =
        let low : i / 8 ≡ 0 = omega (arith, l) in
        let same : i % 8 ≡ i = omega (arith, l) in
        let this : b ≡ c = some_inj (rw low at e) in
        (==_iff (b / 2 ^ i % 2) 1).1 (rw this (rw same at s))

    later : (i b : ℕ) (bs : List ℕ) → 8 ≤ i → IsOne (b ∷ bs) i → IsOne bs (i - 8)
    later i b bs l (c, e, s) =
        let next : i / 8 ≡ suc ((i - 8) / 8) = omega (arith, l) in
        let same : i % 8 ≡ (i - 8) % 8 = omega (arith, l) in (c, (rw next at e), (rw same at s))

set_indices_complete :
    (raw : List ℕ) (left index i : ℕ)
    → index ≤ i
    → i < index + left
    → IsOne raw i
    → Any (λ (j : ℕ). j ≡ i) (set_indices raw left index)
set_indices_complete raw zero index i l h s = absurd (omega arith)
set_indices_complete raw (suc left) index i l h s = elim (Bool-cases (bit_at index raw)) [
  | inl e ↦ elim (Bool-cases (index == i)) [
    | inl q ↦ rw e (inl ((==_iff index i).0 q))
    | inr q ↦
        rw e (inr (set_indices_complete raw left (suc index) i (ground arith) (omega arith) s))
  ]
  | inr e ↦ elim (Bool-cases (index == i)) [
    | inl q ↦
        let same : index ≡ i = (==_iff index i).0 q in
        absurd
          (true_ne_false (sym (IsOne-bit_at i raw s) ∙ subst (λ k. bit_at k raw ≡ false) same e))
    | inr q ↦ rw e (set_indices_complete raw left (suc index) i (ground arith) (omega arith) s)
  ]
]

pub bitvector_indices_complete :
    (hex : List ℕ) (n : ℕ) (indices : List ℕ)
    → bitvector_indices hex n ≡ some indices
    → (i : ℕ) → i < n
    → IsOne (hex_bytes (trim_0x hex)) i
    → Any (λ (j : ℕ). j ≡ i) indices
unfolding bitvector_indices
bitvector_indices_complete hex n indices h i l s =
    let e : set_indices (hex_bytes (trim_0x hex)) n 0 ≡ indices = ground arith in
    subst (Any (λ (j : ℕ). j ≡ i)) e
      (set_indices_complete (hex_bytes (trim_0x hex)) n 0 i (omega arith) (omega (arith, l)) s)

-- The bytes that are read are bytes.
digit_bound : (c : ℕ) → is_hex c ≡ true → hex_value c < 16
digit_bound c h = ground arith

scan_byte-bound : (c d b : ℕ) → scan_byte c d ≡ some b → b < 256
scan_byte-bound c d b h = ground arith

scan_bytes-bound : (raw buf : List ℕ) → scan_bytes raw ≡ some buf → All (λ (b : ℕ). b < 256) buf
unfolding scan_bytes
scan_bytes-bound [] buf h = subst (All (λ (b : ℕ). b < 256)) (some_inj h) tt
scan_bytes-bound (c ∷ []) buf h = absurd (none_ne_some h)
scan_bytes-bound (c ∷ d ∷ s) buf h = elim (Option-cases (scan_byte c d)) [
  | inl e ↦ absurd (none_ne_some (rw (e, scan_bytes) at h))
  | inr (b, e) ↦ elim (Option-cases (scan_bytes s)) [
    | inl f ↦ absurd (none_ne_some (rw (e, f, scan_bytes) at h))
    | inr (bs, f) ↦
        subst (All (λ (b : ℕ). b < 256)) (some_inj (rw (e, f, scan_bytes) at h))
          (scan_byte-bound c d b e, scan_bytes-bound s bs f)
  ]
]

-- The highest bit is set: the sentinel that ends a bitlist.
top_bit-set : (b : ℕ) → 0 < b → b < 256 → (b / 2 ^ top_bit b % 2 ≡ 1) × (top_bit b < 8)
top_bit-set b h l = ground arith

highest_bit-IsOne :
    (buf : List ℕ) (n : ℕ) → All (λ (b : ℕ). b < 256) buf → highest_bit buf ≡ some n → IsOne buf n
highest_bit-IsOne [] n s h = absurd (none_ne_some h)
highest_bit-IsOne (b ∷ bs) n (l, s) h = elim (Option-cases (highest_bit bs)) [
  | inl e ↦ elim (Bool-cases (b == 0)) [
    | inl z ↦ absurd (none_ne_some (rw (e, z) at h))
    | inr z ↦
        let top : top_bit b ≡ n = some_inj (rw (e, z) at h) in
        let (odd, low) = top_bit-set b (ground arith) l in
        subst (IsOne (b ∷ bs)) top (IsOne-here (top_bit b) b bs low odd)
  ]
  | inr (m, e) ↦
      let at : m + 8 ≡ n = some_inj (rw e at h) in
      subst (IsOne (b ∷ bs)) at (IsOne-later m b bs (highest_bit-IsOne bs m s e))
]

-- A bitlist has bit i: it is set, and so is a later one, which ends the list.
abbrev pub HasBit : List ℕ → ℕ → Type 0
HasBit hex i =
    (buf : List ℕ) × (scan_bytes (padded (trim_0x hex)) ≡ some buf)
    × IsOne buf i
    × ((j : ℕ) × (i < j) × IsOne buf j)

sentinel :
    (buf : List ℕ) (i : ℕ)
    → All (λ (b : ℕ). b < 256) buf
    → leb (bitlist_length buf) i ≡ false
    → (j : ℕ) × (i < j) × IsOne buf j
unfolding bitlist_length
sentinel buf i s h = elim (Option-cases (highest_bit buf)) [
  | inl f ↦ let z : leb 0 i ≡ false = rw (f, bitlist_length) at h in absurd (ground arith)
  | inr (j, f) ↦
      let l : leb j i ≡ false = rw (f, bitlist_length) at h in
      (j, ground arith, highest_bit-IsOne buf j s f)
]

pub bit_set-HasBit : (hex : List ℕ) (i : ℕ) → bit_set hex i ≡ some true → HasBit hex i
unfolding bit_set
bit_set-HasBit hex i h = elim (Option-cases (scan_bytes (padded (trim_0x hex)))) [
  | inl e ↦ absurd (none_ne_some (rw (e, bit_set) at h))
  | inr (buf, e) ↦ elim (Bool-cases (leb (bitlist_length buf) i)) [
    | inl l ↦ absurd (none_ne_some (rw (e, l, bit_set) at h))
    | inr l ↦ (
      buf,
      e,
      bit_at-IsOne i buf (some_inj (rw (e, l, bit_set) at h)),
      sentinel buf i (scan_bytes-bound (padded (trim_0x hex)) buf e) l,
    )
  ]
]
