-- ===== src/Beacon/Committees.antt =====
-- internal/source/beaconapi/attestation_bits.go: whether an attestation carries a validator's vote.
pub mod Offsets
pub mod Vote
use Prim.Native.Nat.{◌-◌}
use whymiss.Prelude.{
  ℕ, zero, suc, ◌+◌, ◌%◌, ◌==◌, Bool, true, false, ◌&&◌, ◌||◌, not, List, [], ◌∷◌, Option, none,
  some, length, ltb, leb, String, if◌then◌else◌,
}
use whymiss.Prelude.Int.{u64_mod}
use whymiss.Prelude.Text.{decimal}
use whymiss.Prelude.Order.{codes_eq}
use whymiss.Domain.Slot.{max_uint64}
use whymiss.Domain.Duty.{Duty}
use whymiss.Beacon.Bitlist.{bit_set, bitvector_indices}

abbrev pub max_committees_per_slot : ℕ
max_committees_per_slot = 64

abbrev pub max_validators_per_committee : ℕ
max_validators_per_committee = 2048

-- A text that is decoded byte by byte is the list of its bytes.
pub record ApiAttestation : Type 0 where
  pub aggregation_bits : List ℕ
  pub committee_bits : List ℕ
  pub data_slot : List ℕ
  pub data_index : List ℕ
  pub beacon_block_root : String
  pub target_epoch : String
  pub target_root : String

pub record AttesterDuty : Type 0 where
  pub duty : Duty
  pub validator_committee_index : ℕ
  pub committee_length : ℕ
  pub committees_at_slot : ℕ

-- The lengths of the slot's committees, or a nil map.
abbrev pub Lengths : Type 0
Lengths = Option (List (ℕ × ℕ))

abbrev pub length_of : ℕ → List (ℕ × ℕ) → Option ℕ
length_of index [] = none
length_of index ((k, n) ∷ rest) = if k == index then some n else length_of index rest

-- Whether the attestation includes the validator, whether the committees are needed to tell, or an
-- error.
pub data Inclusion : Type 0 where
  included not_included need_committees failed : Inclusion

abbrev pub of_bit : Option Bool → Inclusion
of_bit none = failed
of_bit (some true) = included
of_bit (some false) = not_included

-- The first position of an index.
abbrev pub position : ℕ → List ℕ → Option ℕ
position index [] = none
position index (i ∷ is) = elim (position index is) [
  | none ↦ if i == index then some 0 else none
  | some n ↦ if i == index then some 0 else some (suc n)
]

-- The bits of the committees before the target's in the aggregation.
unfoldable pub offset_before : List (ℕ × ℕ) → ℕ → ℕ → List ℕ → Option ℕ
offset_before lengths zero offset indices = some offset
offset_before lengths (suc n) offset [] = some offset
offset_before lengths (suc n) offset (i ∷ is) = elim (length_of i lengths) [
  | none ↦ none
  | some l ↦
      let rest = offset_before lengths n (offset + l) is in
      if l == 0 || ltb max_validators_per_committee l
      then none
      else if ltb (max_uint64 - l) offset
      then none
      else rest
]

-- The lengths are read only where committees stand before the target's.
abbrev pub or_no_lengths : Lengths → List (ℕ × ℕ)
or_no_lengths none = []
or_no_lengths (some ls) = ls

abbrev pub at_offset : ApiAttestation → AttesterDuty → Option ℕ → Inclusion
at_offset att d none = failed
at_offset att d (some offset) =
    if ltb 0 d.committee_length && leb d.committee_length d.validator_committee_index
    then failed
    else of_bit (bit_set att.aggregation_bits ((offset + d.validator_committee_index) % u64_mod))

abbrev pub among : ApiAttestation → AttesterDuty → Lengths → List ℕ → Option ℕ → Inclusion
among att d lengths indices none = not_included
among att d none indices (some (suc n)) = need_committees
among att d lengths indices (some n) =
    at_offset att d (offset_before (or_no_lengths lengths) n 0 indices)

unfoldable pub attestation_includes_validator : ApiAttestation → AttesterDuty → Lengths → Inclusion
unfolding offset_before
attestation_includes_validator att d lengths =
    if length att.committee_bits == 0
    then (if not (codes_eq att.data_index (decimal d.duty.committee_index))
        then not_included
        else of_bit (bit_set att.aggregation_bits d.validator_committee_index))
    else if not (codes_eq att.data_index (48 ∷ []))
    then failed
    else elim (bitvector_indices att.committee_bits max_committees_per_slot) [
      | none ↦ failed
      | some indices ↦ among att d lengths indices (position d.duty.committee_index indices)
    ]

-- The attestations of a slot: the first that includes the validator, needs the committees or fails.
unfoldable pub attestations_include_validator :
    List ApiAttestation → ℕ → AttesterDuty → Lengths → Inclusion × Option ApiAttestation
unfolding attestation_includes_validator
attestations_include_validator [] slot d lengths = (not_included, none)
attestations_include_validator (att ∷ rest) slot d lengths =
    let later = attestations_include_validator rest slot d lengths in
    if not (codes_eq att.data_slot (decimal slot))
    then later
    else elim (attestation_includes_validator att d lengths) [
      | not_included ↦ later
      | r ↦ (r, some att)
    ]
