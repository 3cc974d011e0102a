-- ===== src/Beacon/Inclusion.antt =====
-- internal/source/beaconapi/blocks.go: the search of the inclusion window for a duty's attestation.
-- What the node answers for the block of a slot, for the committees of the duty's slot and for the
-- canonical roots are arguments.
pub mod Sound
use Prim.Native.Char.{Char}
use whymiss.Prelude.{
  ℕ, zero, suc, ◌+◌, ◌-◌, ◌==◌, Bool, true, false, not, List, [], ◌∷◌, Option, none, some, String,
  leb, if◌then◌else◌,
}
use whymiss.Prelude.Int.{pos, ℤ}
use whymiss.Prelude.Text.{str_eq, decimal}
use whymiss.Prelude.Time.{Time, zero_time}
use whymiss.Prelude.Float.{FloatOps}
use whymiss.Domain.Errors.{Result, ok, err}
use whymiss.Domain.Slot.{beaconapi}
use whymiss.Domain.Kinds.{attestation_included}
use whymiss.Domain.Attrs.{
  AttrKey, block_root, validator_index, inclusion_delay, head_correct, target_correct,
}
use whymiss.Domain.Observation.{Observation, Attrs, new_observation}
use whymiss.Beacon.Committees.{
  ApiAttestation, AttesterDuty, Lengths, Inclusion, included, not_included, need_committees, failed,
  attestations_include_validator,
}

-- `strconv.FormatUint` as a text, and `strconv.FormatBool`.
abbrev pub digit : ℕ → Char
digit c =
    if c == 49
    then "1"
    else if c == 50
    then "2"
    else if c == 51
    then "3"
    else if c == 52
    then "4"
    else if c == 53
    then "5"
    else if c == 54
    then "6"
    else if c == 55
    then "7"
    else if c == 56
    then "8"
    else if c == 57
    then "9"
    else "0"

abbrev pub text_of : List ℕ → String
text_of [] = String.[]
text_of (c ∷ s) = String.◌∷◌ (digit c) (text_of s)

unfoldable pub format_uint : ℕ → String
unfolding decimal
format_uint n = text_of (decimal n)

abbrev pub format_bool : Bool → String
format_bool true = "true"
format_bool false = "false"

-- The block of a slot: a failed request, a skipped slot, or its attestations.
pub data Block : Type 0 where
  block_failed no_body : Block
  block_body : List ApiAttestation → Block

-- An error, nothing in the window, or the slot of the inclusion with the attestation.
pub data Search : Type 0 where
  search_failed nowhere : Search
  included_at : ℕ → ApiAttestation → Search

-- What one block decides: an end of the search, or the lengths that the next slot starts with.
pub data Round : Type 0 where
  ends : Search → Round
  goes_on : Lengths → Round

-- The second look, at the committee lengths just fetched, which needs no further ones.
abbrev pub look_again : ℕ → Lengths → Inclusion × Option ApiAttestation → Round
look_again s lengths (included, some att) = ends (included_at s att)
look_again s lengths (failed, _) = ends search_failed
look_again s lengths _ = goes_on lengths

module _ (fetched : Lengths) (slot : ℕ) (d : AttesterDuty) where
  abbrev pub with_fetched : ℕ → List ApiAttestation → Lengths → Round
  with_fetched s atts none = ends search_failed
  with_fetched s atts (some ls) =
      look_again s (some ls) (attestations_include_validator atts slot d (some ls))

  abbrev pub look : ℕ → List ApiAttestation → Lengths → Inclusion × Option ApiAttestation → Round
  look s atts lengths (included, some att) = ends (included_at s att)
  look s atts lengths (failed, _) = ends search_failed
  look s atts lengths (need_committees, _) = with_fetched s atts fetched
  look s atts lengths _ = goes_on lengths

  abbrev pub round_at : ℕ → Block → Lengths → Round
  round_at s block_failed lengths = ends search_failed
  round_at s no_body lengths = goes_on lengths
  round_at s (block_body atts) lengths =
      look s atts lengths (attestations_include_validator atts slot d lengths)

  -- The loop over the `left` slots from `s` on.
  unfoldable pub search_window : (ℕ → Block) → ℕ → ℕ → Lengths → Search
  search_window block zero s lengths = nowhere
  search_window block (suc left) s lengths = elim (round_at s (block s) lengths) [
    | ends r ↦ r
    | goes_on next ↦ search_window block left (suc s) next
  ]

-- An error, no inclusion, or the observation of one.
pub data Checked : Type 0 where
  check_failed not_found : Checked
  observed : Observation → Checked

abbrev pub root_attr : ApiAttestation → Attrs
root_attr att =
    if str_eq att.beacon_block_root "" then [] else (block_root, att.beacon_block_root) ∷ []

unfoldable pub inclusion_draft :
    Time → ℕ → AttesterDuty → ℕ → ApiAttestation → Bool → Bool → Observation
unfolding format_uint
inclusion_draft now slot d s att head target = record {
  slot = slot;
  kind = attestation_included;
  at = now;
  clock_offset = pos 0;
  clock_measured = false;
  clock_sample_at = zero_time;
  source = beaconapi;
  attrs =
      (validator_index, format_uint d.duty.validator_index)
      ∷ (inclusion_delay, format_uint (s - slot))
      ∷ (head_correct, format_bool head)
      ∷ (target_correct, format_bool target)
      ∷ root_attr att;
}

module _ {F : Type 0} (fl : FloatOps F) (evidence : ApiAttestation → Option (Bool × Bool)) where
  abbrev pub checked : Result Observation → Checked
  checked (ok o) = observed o
  checked (err e) = check_failed

  abbrev pub conclude : Time → ℕ → AttesterDuty → Search → Checked
  conclude now slot d search_failed = check_failed
  conclude now slot d nowhere = not_found
  conclude now slot d (included_at s att) = elim (evidence att) [
    | none ↦ check_failed
    | some (head, target) ↦
        checked (new_observation fl (inclusion_draft now slot d s att head target))
  ]

  -- `CheckInclusion` once the wait for the head has ended: whether it reached the end of the window.
  unfoldable pub check_inclusion :
      (ℕ → Block) → Lengths → Time → ℕ → AttesterDuty → ℕ → Bool → Checked
  unfolding search_window
  check_inclusion block fetched now slot d until reached =
      if leb until slot
      then check_failed
      else if not reached
      then check_failed
      else conclude now slot d (search_window fetched slot d block (until - slot) (suc slot) none)
