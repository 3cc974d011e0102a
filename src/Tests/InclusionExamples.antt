-- ===== src/Tests/InclusionExamples.antt =====
-- The theorems on the search of the inclusion window and on the Engine counters at concrete values.
use whymiss.Prelude.{
  ℕ, ◌+◌, ◌≤◌, ◌==◌, Bool, true, false, List, [], ◌∷◌, Option, none, some, String, ◌≡◌, refl, arith,
  if◌then◌else◌,
}
use whymiss.Prelude.Int.{ℤ, pos, ◌-ℤ◌}
use whymiss.Prelude.Text.{codes, is_hex_pairs}
use whymiss.Prelude.Time.{Time, zero_time}
use whymiss.Domain.Slot.{beaconapi}
use whymiss.Domain.Duty.{attester}
use whymiss.Domain.Kinds.{attestation_included}
use whymiss.Domain.Attrs.{validator_index, inclusion_delay, head_correct, target_correct}
use whymiss.Domain.Observation.{Observation}
use whymiss.Beacon.Bitlist.{bit_set}
use whymiss.Beacon.Committees.{
  ApiAttestation, AttesterDuty, Lengths, attestations_include_validator,
}
use whymiss.Beacon.Inclusion.{Block, no_body, block_body, observed, check_inclusion}
use whymiss.Beacon.Inclusion.Sound.{IsReported, check_inclusion-IsReported}
use whymiss.Scrape.{EngineCounters}
use whymiss.App.EngineWindows.{
  EngineWindowTracker, Advance, windows, warm_up, attributed, counted, advance_all,
  advance_all-attributed,
}
use whymiss.Clock.{Reading}
use whymiss.App.ClockStamp.{stamp_clock, IsStamp, stamp_clock-IsStamp}
use whymiss.Tests.Values.{milli}

-- An aggregation of the committees 1 and 3, of 4 and 3 validators, in which the second validator of
-- committee 3 votes; the slot after the duty's is skipped.
abbrev vote : ApiAttestation
vote = record {
  aggregation_bits = codes "0xa0";
  committee_bits = codes "0x0a00000000000000";
  data_slot = codes "100";
  data_index = codes "0";
  beacon_block_root = "";
  target_epoch = "3";
  target_root = "";
}

abbrev duty : AttesterDuty
duty = record {
  duty = record { kind = attester; slot = 100; validator_index = 7; committee_index = 3 };
  validator_committee_index = 1;
  committee_length = 3;
  committees_at_slot = 4;
}

abbrev block : ℕ → Block
block slot = if slot == 102 then block_body (vote ∷ []) else no_body

abbrev sizes : Lengths
sizes = some ((1, 4) ∷ (3, 3) ∷ [])

abbrev judged : ApiAttestation → Option (Bool × Bool)
judged att = some (false, true)

abbrev now : Time
now = record { ns = pos 1000; utc = true }

abbrev inclusion : Observation
inclusion = record {
  slot = 100;
  kind = attestation_included;
  at = now;
  clock_offset = pos 0;
  clock_measured = false;
  clock_sample_at = zero_time;
  source = beaconapi;
  attrs =
      (validator_index, "7")
      ∷ (inclusion_delay, "2")
      ∷ (head_correct, "false")
      ∷ (target_correct, "true")
      ∷ [];
}

check-inclusion :
    check_inclusion milli judged block sizes now 100 duty 127 true ≡ observed inclusion
unfolding check_inclusion attestations_include_validator whymiss.Prelude.Text.decimal bit_set
    whymiss.Domain.Observation.new_observation whymiss.Domain.Observation.validate
    whymiss.Domain.Kinds.kind_valid whymiss.Beacon.Inclusion.inclusion_draft
    whymiss.Domain.Slot.source_valid whymiss.Domain.Attrs.source_permitted_for
    whymiss.Domain.Observation.clock_fault whymiss.Domain.Observation.attrs_fault
    whymiss.Domain.Observation.attr_fault whymiss.Domain.Attrs.permitted_for
    whymiss.Domain.Attrs.validate_observation_attr whymiss.Prelude.Text.parse_uint
    whymiss.Domain.Observation.lower_root whymiss.Beacon.Bitlist.bitvector_indices is_hex_pairs
check-inclusion = refl

check_inclusion-IsReported_example :
    (true ≡ true) × IsReported milli judged block sizes now 100 duty 127 inclusion
check_inclusion-IsReported_example =
    check_inclusion-IsReported milli judged block sizes now 100 duty 127 true inclusion
      check-inclusion

-- Snapshots after the heads of slots 8, 9, 11 and 12: the gap is no evidence.
abbrev snapshot : ℕ → ℕ → EngineCounters ℤ
snapshot n f = record {
  sampled_at = record { ns = pos n; utc = true };
  new_payload = record { count = n; sum_ms = pos (n + n) };
  forkchoice_updated = record { count = f; sum_ms = pos f };
}

abbrev unready : EngineWindowTracker ℤ
unready = record { ready = false; slot = 0; counters = snapshot 0 0 }

abbrev run : List (ℕ × EngineCounters ℤ)
run = (8, snapshot 10 20) ∷ (9, snapshot 11 22) ∷ (11, snapshot 14 26) ∷ (12, snapshot 15 27) ∷ []

abbrev minus : ℤ → ℤ → ℤ
minus a b = a -ℤ b

run-attributed : attributed (advance_all milli minus run unready).1 ≡ 5
unfolding whymiss.App.EngineWindows.advance ◌-ℤ◌ whymiss.Prelude.Int.◌*ℤ◌
run-attributed = refl

advance_all-attributed_example :
    attributed (advance_all milli minus run unready).1 + counted (snapshot 0 0)
    ≤ counted (advance_all milli minus run unready).0.counters
advance_all-attributed_example = advance_all-attributed milli minus run unready (
  omega arith,
  omega arith,
  (omega arith, omega arith, (omega arith, omega arith, (omega arith, omega arith, tt))),
)

-- A reading 20 ns before the inclusion, 5 ns behind.
abbrev reading : Reading
reading = record {
  server = "pool.ntp.org:123";
  at = record { ns = pos 980; utc = true };
  offset = pos 5;
  round_trip = pos 2;
}

stamp_clock-IsStamp_example :
    IsStamp (pos 60) reading inclusion (stamp_clock (some reading) (pos 60) inclusion)
    × (stamp_clock none (pos 1) (stamp_clock (some reading) (pos 60) inclusion)
        ≡ stamp_clock (some reading) (pos 60) inclusion)
unfolding whymiss.Domain.Kinds.kind_eq whymiss.Domain.Timeline.abs_duration
    whymiss.Prelude.Time.sub_time whymiss.Prelude.Int.clamp64 ◌-ℤ◌
stamp_clock-IsStamp_example =
    stamp_clock-IsStamp reading (pos 60) inclusion none (pos 1) refl refl (omega arith)
      (omega arith)
