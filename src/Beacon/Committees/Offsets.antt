-- ===== src/Beacon/Committees/Offsets.antt =====
-- internal/source/beaconapi/attestation_bits.go: the bit of a validator in an aggregation of several
-- committees.
use whymiss.Prelude.{
  ℕ, zero, suc, ◌+◌, ◌*◌, ◌≤◌, ◌<◌, ◌==◌, ==_iff, List, [], ◌∷◌, none, some, length, ltb, ◌≡◌, ◌⊎◌,
  refl, ap, subst, ◌∙◌, arith, All, All-map, some_inj, sym, Bool-cases, Option-cases, inl, inr,
  none_ne_some, if◌then◌else◌,
}
use whymiss.Beacon.Bitlist.{bit_at, set_indices, bitvector_indices, hex_bytes, trim_0x}
use whymiss.Beacon.Committees.{
  length_of, position, offset_before, max_committees_per_slot, max_validators_per_committee,
}

-- The length of a committee, or 0.
abbrev pub size : List (ℕ × ℕ) → ℕ → ℕ
size lengths i = elim (length_of i lengths) [ none ↦ 0 | some l ↦ l ]

-- The sizes of the committees of a list that stand below a committee.
abbrev pub sum_below : List (ℕ × ℕ) → ℕ → List ℕ → ℕ
sum_below lengths target [] = 0
sum_below lengths target (i ∷ is) =
    (if ltb i target then size lengths i else 0) + sum_below lengths target is

abbrev pub HasSize : List (ℕ × ℕ) → ℕ → Type 0
HasSize lengths i =
    (l : ℕ) × (length_of i lengths ≡ some l) × (0 < l) × (l ≤ max_validators_per_committee)

-- The indices that a bitvector lists ascend.
abbrev pub Ascends : ℕ → List ℕ → Type 0
Ascends low [] = Unit
Ascends low (i ∷ is) = (low ≤ i) × Ascends (suc i) is

Ascends-le : (a b : ℕ) (is : List ℕ) → a ≤ b → Ascends b is → Ascends a is
Ascends-le a b [] h k = tt
Ascends-le a b (i ∷ is) h (k, ks) = (omega arith, ks)

set_indices-Ascends :
    (raw : List ℕ) (left index : ℕ)
    → Ascends index (set_indices raw left index) × (length (set_indices raw left index) ≤ left)
set_indices-Ascends raw zero index = (tt, omega arith)
set_indices-Ascends raw (suc left) index =
    let (up, short) = set_indices-Ascends raw left (suc index) in
    elim (Bool-cases (bit_at index raw)) [
      | inl e ↦ rw e ((omega arith, up), omega (arith, short))
      | inr e ↦ rw e (
        Ascends-le index (suc index) (set_indices raw left (suc index)) (omega arith) up,
        omega (arith, short),
      )
    ]

pub bitvector_indices-Ascends :
    (hex : List ℕ) (n : ℕ) (indices : List ℕ)
    → bitvector_indices hex n ≡ some indices
    → Ascends 0 indices × (length indices ≤ n)
unfolding bitvector_indices
bitvector_indices-Ascends hex n indices h =
    let e : set_indices (hex_bytes (trim_0x hex)) n 0 ≡ indices = ground arith in
    subst (λ (is : List ℕ). Ascends 0 is × (length is ≤ n)) e
      (set_indices-Ascends (hex_bytes (trim_0x hex)) n 0)

-- Nothing stands below a committee that comes first.
none_below :
    (lengths : List (ℕ × ℕ)) (target : ℕ) (is : List ℕ)
    → Ascends target is
    → sum_below lengths target is ≡ 0
none_below lengths target [] h = refl
none_below lengths target (i ∷ is) (h, hs) =
    ground (arith, none_below lengths target is (Ascends-le target (suc i) is (omega arith) hs))

-- The committee stands first, or later in the rest.
pub position-cases :
    (target i n : ℕ) (is : List ℕ)
    → position target (i ∷ is) ≡ some n
    → ((i ≡ target) × (n ≡ 0)) ⊎ ((m : ℕ) × (n ≡ suc m) × (position target is ≡ some m))
position-cases target i n is h = elim (Option-cases (position target is)) [
  | inl e ↦ inl (ground arith, ground arith)
  | inr (m, e) ↦ elim (Bool-cases (i == target)) [
    | inl q ↦ inl ((==_iff i target).0 q, ground arith)
    | inr q ↦ inr (m, ground arith, e)
  ]
]

position-le :
    (target low n : ℕ) (is : List ℕ) → Ascends low is → position target is ≡ some n → low ≤ target
position-le target low n [] a h = absurd (none_ne_some h)
position-le target low n (i ∷ is) (a, up) h = elim (position-cases target i n is h) [
  | inl (q, z) ↦ omega arith
  | inr (m, q, e) ↦ omega (arith, position-le target (suc i) m is up e)
]

-- One committee of a valid size before the target's.
step :
    (lengths : List (ℕ × ℕ)) (i l m offset : ℕ) (is : List ℕ)
    → length_of i lengths ≡ some l
    → 0 < l
    → l ≤ max_validators_per_committee
    → offset ≤ 131072
    → offset_before lengths (suc m) offset (i ∷ is) ≡ offset_before lengths m (offset + l) is
unfolding offset_before
step lengths i l m offset is e some_l max_l b = ground arith

pub found_here :
    (lengths : List (ℕ × ℕ)) (offset : ℕ) (is : List ℕ)
    → offset_before lengths 0 offset is ≡ some offset
unfolding offset_before
found_here lengths offset is = refl

offset_before-sum :
    (lengths : List (ℕ × ℕ)) (target low n offset : ℕ) (is : List ℕ)
    → Ascends low is
    → position target is ≡ some n
    → All (HasSize lengths) is
    → offset + 2048 * length is ≤ 131072
    → offset_before lengths n offset is ≡ some (offset + sum_below lengths target is)
offset_before-sum lengths target low n offset [] a p s b = absurd (none_ne_some p)
offset_before-sum lengths target low n offset (i ∷ is) (a, up) p ((l, e, some_l, max_l), s) b =
    elim (position-cases target i n is p) [
      | inl (q, z) ↦
          let none_later =
            none_below lengths target is (Ascends-le target (suc i) is (omega arith) up) in
          let here : offset ≡ offset + sum_below lengths target (i ∷ is) =
            ground (arith, none_later) in
          rw z (found_here lengths offset (i ∷ is) ∙ ap some here)
      | inr (m, q, f) ↦
          let below = position-le target (suc i) m is up f in
          let sized : size lengths i ≡ l = rw (e, size) refl in
          rw q (
            step lengths i l m offset is e some_l max_l (omega arith)
            ∙ offset_before-sum lengths target (suc i) m (offset + l) is up f s (omega arith)
            ∙ ap some (ground (arith, sized, below)))
    ]

above : (low : ℕ) (is : List ℕ) → Ascends low is → All (λ (i : ℕ). low ≤ i) is
above low [] h = tt
above low (i ∷ is) (h, hs) = (h, above low is (Ascends-le low (suc i) is (omega arith) hs))

-- What the code has checked of a committee before the target's.
stepped :
    (lengths : List (ℕ × ℕ)) (i m offset o : ℕ) (is : List ℕ)
    → offset_before lengths (suc m) offset (i ∷ is) ≡ some o
    → (l : ℕ) × (length_of i lengths ≡ some l)
      × (0 < l)
      × (l ≤ max_validators_per_committee)
      × (offset_before lengths m (offset + l) is ≡ some o)
unfolding offset_before
stepped lengths i m offset o is h = elim (Option-cases (length_of i lengths)) [
  | inl e ↦ absurd (none_ne_some (rw (e, offset_before) at h))
  | inr (l, e) ↦ (l, e, ground arith, ground arith, ground arith)
]

-- Where the code finds an offset, it is the sum of the lengths of the listed committees below the
-- target, which are all known and valid.
pub offset_before_sound :
    (lengths : List (ℕ × ℕ)) (target low n offset o : ℕ) (is : List ℕ)
    → Ascends low is
    → position target is ≡ some n
    → offset_before lengths n offset is ≡ some o
    → (o ≡ offset + sum_below lengths target is)
      × All (λ (i : ℕ). (target ≤ i) ⊎ HasSize lengths i) is
offset_before_sound lengths target low n offset o [] a p h = absurd (none_ne_some p)
offset_before_sound lengths target low n offset o (i ∷ is) (a, up) p h =
    elim (position-cases target i n is p) [
      | inl (q, z) ↦
          let later = Ascends-le target (suc i) is (omega arith) up in
          let none_later = none_below lengths target is later in
          let same : offset ≡ o =
            some_inj (sym (found_here lengths offset (i ∷ is)) ∙ (rw z at h)) in
          (
            ground (arith, none_later, same),
            (
              inl (omega arith),
              All-map (λ (j : ℕ) (g : target ≤ j). inl g) is (above target is later),
            ),
          )
      | inr (m, q, f) ↦
          let below = position-le target (suc i) m is up f in
          let (l, e, some_l, max_l, g) = stepped lengths i m offset o is (rw q at h) in
          let sized : size lengths i ≡ l = rw (e, size) refl in
          let (sum, all) = offset_before_sound lengths target (suc i) m (offset + l) o is up f g in
          (ground (arith, sized, below, sum), (inr (l, e, some_l, max_l), all))
    ]

-- Where the committee bits list a validator's committee and every listed committee has a known length
-- between 1 and 2048, the offset that the code adds up over the list's prefix is the sum of the
-- lengths of the listed committees with a smaller index: the layout of EIP-7549. No check refuses it.
pub offset_before-IsSum :
    (hex : List ℕ) (indices : List ℕ) (lengths : List (ℕ × ℕ)) (target n : ℕ)
    → bitvector_indices hex max_committees_per_slot ≡ some indices
    → position target indices ≡ some n
    → All (HasSize lengths) indices
    → offset_before lengths n 0 indices ≡ some (sum_below lengths target indices)
offset_before-IsSum hex indices lengths target n h p s =
    let (up, short) = bitvector_indices-Ascends hex max_committees_per_slot indices h in
    offset_before-sum lengths target 0 n 0 indices up p s (omega (arith, short))
    ∙ ap some (omega arith)
