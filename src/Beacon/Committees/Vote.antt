-- ===== src/Beacon/Committees/Vote.antt =====
-- internal/source/beaconapi/attestation_bits.go: what an attestation that includes a validator says.
use whymiss.Prelude.{
  ℕ, zero, suc, ◌+◌, ◌%◌, ◌≤◌, ◌<◌, ◌==◌, Bool, true, false, ◌&&◌, List, [], ◌∷◌, Option, none,
  some, length, ltb, leb, ◌≡◌, ◌⊎◌, refl, sym, ap, ◌∙◌, subst, arith, All, Any, Bool-cases,
  Option-cases, inl, inr, none_ne_some,
}
use whymiss.Prelude.Int.{u64_mod}
use whymiss.Prelude.Text.{decimal}
use whymiss.Prelude.Order.{codes_eq, codes_eq_sound}
use whymiss.Beacon.Bitlist.{bitvector_indices, hex_bytes, trim_0x}
use whymiss.Beacon.Bitlist.Bits.{
  IsOne, HasBit, bit_set-HasBit, bitvector_indices-IsOne, bitvector_indices_complete,
}
use whymiss.Beacon.Committees.{
  ApiAttestation, AttesterDuty, Lengths, included, not_included, failed, of_bit, position,
  offset_before, or_no_lengths, at_offset, among, max_committees_per_slot,
  attestation_includes_validator,
}
use whymiss.Beacon.Committees.Offsets.{
  sum_below, HasSize, Ascends, bitvector_indices-Ascends, found_here, position-cases,
  offset_before_sound,
}

-- The vote in an attestation of one committee: the attestation is of the validator's committee, and
-- the validator's bit is set.
pub record IsSingle (att : ApiAttestation) (d : AttesterDuty) : Type 0 where
  pub no_committees : att.committee_bits ≡ []
  pub of_committee : att.data_index ≡ decimal d.duty.committee_index
  pub bit : HasBit att.aggregation_bits d.validator_committee_index

-- The vote in an aggregation of several committees, whose sizes are in the table: the validator's
-- committee is among them, and the bit is set that comes, by the validator's place in it, after the
-- members of the committees with a smaller index. The place is added in uint64.
pub record IsAggregated (table : List (ℕ × ℕ)) (att : ApiAttestation) (d : AttesterDuty)
    : Type 0 where
  -- The text 0.
  pub no_index : att.data_index ≡ 48 ∷ []
  pub indices : List ℕ
  -- The indices are those of the bits that are set, each once.
  pub ascending : Ascends 0 indices
  pub listed : All (IsOne (hex_bytes (trim_0x att.committee_bits))) indices
  pub complete :
      (i : ℕ)
      → i < 64
      → IsOne (hex_bytes (trim_0x att.committee_bits)) i
      → Any (λ (j : ℕ). j ≡ i) indices
  pub committee : IsOne (hex_bytes (trim_0x att.committee_bits)) d.duty.committee_index
  pub sized : All (λ (i : ℕ). (d.duty.committee_index ≤ i) ⊎ HasSize table i) indices
  pub place : (d.committee_length ≡ 0) ⊎ (d.validator_committee_index < d.committee_length)
  pub bit :
      HasBit att.aggregation_bits
        ((sum_below table d.duty.committee_index indices + d.validator_committee_index) % u64_mod)

abbrev pub HasVote : List (ℕ × ℕ) → ApiAttestation → AttesterDuty → Type 0
HasVote table att d = IsSingle att d ⊎ IsAggregated table att d

of_bit-included : (r : Option Bool) → of_bit r ≡ included → r ≡ some true
of_bit-included none h = absurd (ground arith)
of_bit-included (some true) h = refl
of_bit-included (some false) h = absurd (ground arith)

skip_ne : not_included ≡ included → ⊥
skip_ne h = absurd (ground arith)

fail_ne : failed ≡ included → ⊥
fail_ne h = absurd (ground arith)

found-All :
    (P : ℕ → Type 0) (target n : ℕ) (is : List ℕ)
    → position target is ≡ some n
    → All P is
    → P target
found-All P target n [] h a = absurd (none_ne_some h)
found-All P target n (i ∷ is) h (p, ps) = elim (position-cases target i n is h) [
  | inl (q, z) ↦ subst P q p
  | inr (m, q, e) ↦ found-All P target m is e ps
]

empty : (s : List ℕ) → (length s == 0) ≡ true → s ≡ []
empty [] h = refl
empty (c ∷ s) h = absurd (ground arith)

module _ (att : ApiAttestation) (d : AttesterDuty) where
  at_offset-included :
      (r : Option ℕ)
      → at_offset att d r ≡ included
      → (o : ℕ) × (r ≡ some o)
        × ((d.committee_length ≡ 0) ⊎ (d.validator_committee_index < d.committee_length))
        × HasBit att.aggregation_bits ((o + d.validator_committee_index) % u64_mod)
  at_offset-included none h = absurd (ground arith)
  at_offset-included (some o) h =
      elim (Bool-cases
        (ltb 0 d.committee_length && leb d.committee_length d.validator_committee_index)) [
          | inl e ↦ absurd (ground arith)
          | inr e ↦ (o, refl, ground arith, bit_set-HasBit _ _ (of_bit-included _ (rw e at h)))
        ]

  -- The offset comes from the table that was fetched, whether it was read or not.
  among-included :
      (table lengths : Lengths) (indices : List ℕ) (p : Option ℕ)
      → (lengths ≡ none) ⊎ (lengths ≡ table)
      → among att d lengths indices p ≡ included
      → (n : ℕ) × (p ≡ some n)
        × (at_offset att d (offset_before (or_no_lengths table) n 0 indices) ≡ included)
  among-included table lengths indices none l h = absurd (ground arith)
  among-included table none indices (some (suc n)) l h = absurd (ground arith)
  among-included table none indices (some zero) l h = (
    zero,
    refl,
    ap (at_offset att d)
          (found_here (or_no_lengths table) 0 indices ∙ sym (found_here [] 0 indices))
        ∙ h,
  )
  among-included table (some ls) indices (some n) l h = elim l [
    | inl e ↦ absurd (none_ne_some (sym e))
    | inr e ↦ (
      n,
      refl,
      ap (λ (t : Lengths). at_offset att d (offset_before (or_no_lengths t) n 0 indices)) (sym e)
          ∙ h,
    )
  ]

  -- An attestation that includes the validator has its vote.
  pub includes-HasVote :
      (table lengths : Lengths)
      → (lengths ≡ none) ⊎ (lengths ≡ table)
      → attestation_includes_validator att d lengths ≡ included
      → HasVote (or_no_lengths table) att d
  unfolding attestation_includes_validator
  includes-HasVote table lengths l h = elim (Bool-cases (length att.committee_bits == 0)) [
    | inl e ↦ elim (Bool-cases (codes_eq att.data_index (decimal d.duty.committee_index))) [
      | inl f ↦ inl record {
        no_committees = empty att.committee_bits e;
        of_committee = codes_eq_sound _ _ f;
        bit =
            bit_set-HasBit _ _ (of_bit-included _ (rw (e, f, attestation_includes_validator) at h));
      }
      | inr f ↦ absurd (skip_ne (rw (e, f, attestation_includes_validator) at h))
    ]
    | inr e ↦ elim (Bool-cases (codes_eq att.data_index (48 ∷ []))) [
      | inl f ↦ elim (Option-cases (bitvector_indices att.committee_bits max_committees_per_slot)) [
        | inl g ↦ absurd (fail_ne (rw (e, f, g, attestation_includes_validator) at h))
        | inr (indices, g) ↦
            let (n, p, a) =
              among-included table lengths indices (position d.duty.committee_index indices) l
                (rw (e, f, g, attestation_includes_validator) at h) in
            let (o, q, place, bit) = at_offset-included _ a in
            let (up, _) = bitvector_indices-Ascends _ _ indices g in
            let (sum, sized) =
              offset_before_sound (or_no_lengths table) d.duty.committee_index 0 n 0 o indices up p
                q in
            inr record {
              no_index = codes_eq_sound _ _ f;
              indices = indices;
              ascending = up;
              listed = bitvector_indices-IsOne _ _ indices g;
              complete = bitvector_indices_complete _ _ indices g;
              committee =
                  found-All _ d.duty.committee_index n indices p
                    (bitvector_indices-IsOne _ _ indices g);
              sized = sized;
              place = place;
              bit =
                  subst
                    (λ (x : ℕ).
                      HasBit att.aggregation_bits ((x + d.validator_committee_index) % u64_mod))
                    (sum ∙ omega arith) bit;
            }
      ]
      | inr f ↦ absurd (fail_ne (rw (e, f, attestation_includes_validator) at h))
    ]
  ]
