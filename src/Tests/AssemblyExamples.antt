-- ===== src/Tests/AssemblyExamples.antt =====
-- The theorems on internal/timeline at concrete slots.
use whymiss.Prelude.{
  ℕ, Bool, true, false, List, [], ◌∷◌, ◌++◌, Option, none, some, ◌≡◌, ◌≢◌, ◌↔◌, refl, arith,
}
use whymiss.Prelude.Int.{ℤ, pos_part}
use whymiss.Domain.Errors.{ok}
use whymiss.Domain.Schedule.{mainnet_pre_epbs}
use whymiss.Domain.Duty.{Duty, attester}
use whymiss.Domain.Slot.{derived, beaconapi}
use whymiss.Domain.Kinds.{slot_start, duty_assigned, reorg, attestation_included}
use whymiss.Domain.Attrs.{validator_index}
use whymiss.Domain.Observation.{Observation}
use whymiss.Domain.Timeline.{Timeline}
use whymiss.Assembly.{Assembler, draft, build}
use whymiss.Assembly.Independence.{SameFacts, SameView, draft-SameView}
use whymiss.Assembly.Build.{IsBuildable, build-ok_iff}
use whymiss.Assembly.Replay.{replay_with_samples}
use whymiss.Assembly.Conserved.{replay-perm}
use whymiss.Tests.Values.{milli}
use whymiss.Tests.Slots.{at_ms, observed, included_in, skipped, p99_sample}
use mathlib.Core.List.{Perm}
use mathlib.Core.List.Perm

abbrev reorged : Observation
reorged = record (observed reorg 20000 beaconapi []) { slot = 101 }

abbrev holding : List (ℕ × List Observation) → Assembler ℤ
holding entries = record {
  schedule = mainnet_pre_epbs;
  duties = [];
  observations = entries;
  samples = [];
  networks = [];
}

-- The same facts in another order of arrival, with the slots met in another order.
abbrev early : Assembler ℤ
early = holding ((100, skipped ∷ included_in "1" "true" ∷ []) ∷ (101, reorged ∷ []) ∷ [])

abbrev late : Assembler ℤ
late = holding ((101, reorged ∷ []) ∷ (100, included_in "1" "true" ∷ skipped ∷ []) ∷ [])

same : SameFacts early late
same = record {
  same_schedule = refl;
  same_duties = λ slot. refl;
  same_networks = λ slot. refl;
  same_samples = Perm.rfl;
  same_observations = Perm.trans (Perm.swap (included_in "1" "true") skipped (reorged ∷ [])) (
      Perm.trans (Perm.cons (included_in "1" "true") (Perm.swap reorged skipped []))
        (Perm.swap reorged (included_in "1" "true") (skipped ∷ [])));
  filed = ((refl, (refl, tt)), (λ q. omega arith, tt), ((refl, tt), tt, tt));
  filed_too = ((refl, tt), (λ q. omega arith, tt), ((refl, (refl, tt)), tt, tt));
}

draft-SameView_example :
    SameView (draft milli pos_part early 100 (at_ms 0)) (draft milli pos_part late 100 (at_ms 0))
draft-SameView_example = draft-SameView milli pos_part early late 100 (at_ms 0) same

build-ok_iff_example :
    (build milli pos_part late 100 (at_ms 0) ≡ ok (draft milli pos_part late 100 (at_ms 0)))
    ↔ IsBuildable milli pos_part late 100 (at_ms 0)
build-ok_iff_example =
    build-ok_iff milli pos_part late 100 (at_ms 0) (omega arith)
      ((refl, tt), (λ q. omega arith, tt), ((refl, (refl, tt)), tt, tt))

abbrev begun : Observation
begun = observed slot_start 0 derived []

abbrev assigned : Observation
assigned = observed duty_assigned 1 beaconapi ((validator_index, "7") ∷ [])

abbrev recorded : List Observation
recorded = reorged ∷ skipped ∷ begun ∷ assigned ∷ []

abbrev replayed_slot : Timeline ℤ
replayed_slot = record {
  slot = 100;
  slot_start = at_ms 0;
  schedule = mainnet_pre_epbs;
  duty = some (record { kind = attester; slot = 100; validator_index = 7; committee_index = 0 });
  observations = begun ∷ assigned ∷ skipped ∷ [];
  reorgs = reorged ∷ [];
  samples = p99_sample ∷ [];
  network = none;
  collection_complete = false;
}

replay-recorded :
    replay_with_samples milli pos_part recorded (p99_sample ∷ []) mainnet_pre_epbs
    ≡ ok replayed_slot
unfolding replay_with_samples whymiss.Domain.Kinds.kind_eq
    whymiss.Domain.Slot.last_attestation_inclusion_slot whymiss.Assembly.Replay.replay_one
    whymiss.Domain.Observation.lookup_attr whymiss.Domain.Attrs.attr_eq
    whymiss.Prelude.Text.parse_uint build whymiss.Domain.Timeline.new_timeline
    whymiss.Domain.Timeline.validate whymiss.Domain.Schedule.validate whymiss.Assembly.set_duty
    whymiss.Assembly.add_observation whymiss.Assembly.add_sample whymiss.Assembly.new_assembler
    whymiss.Domain.Timeline.duty_fault whymiss.Domain.Duty.validate whymiss.Domain.Timeline.scan
    whymiss.Assembly.Compare.sort_observations whymiss.Assembly.Compare.observation_less
    whymiss.Domain.Timeline.observation_fault whymiss.Domain.Observation.validate
    whymiss.Domain.Kinds.kind_valid whymiss.Domain.Slot.source_valid
    whymiss.Domain.Attrs.source_permitted_for whymiss.Domain.Observation.clock_fault
    whymiss.Domain.Observation.attrs_fault whymiss.Domain.Observation.attr_fault
    whymiss.Domain.Attrs.permitted_for whymiss.Domain.Attrs.validate_observation_attr
    whymiss.Domain.Timeline.completion_fault whymiss.Domain.Timeline.samples_fault
    whymiss.Assembly.Compare.sort_samples whymiss.Domain.Sample.validate
    whymiss.Domain.Sample.component_valid whymiss.Domain.Sample.sample_source_permitted_for
    whymiss.Domain.Timeline.reorgs_fault whymiss.Domain.Timeline.reorg_fault
    whymiss.Domain.Timeline.network_fault
replay-recorded = refl

replay-perm_example :
    Perm (replayed_slot.observations ++ replayed_slot.reorgs) recorded
    × Perm replayed_slot.samples (p99_sample ∷ [])
replay-perm_example =
    replay-perm milli pos_part recorded (p99_sample ∷ []) mainnet_pre_epbs replayed_slot
      replay-recorded

-- Reorgs of two slots that differ in nothing else keep the order in which the slots are met.
abbrev reorged_later : Observation
reorged_later = record reorged { slot = 102 }

reorg_tie :
    ((draft milli pos_part
        (holding ((101, reorged ∷ []) ∷ (102, reorged_later ∷ []) ∷ []))
        100
        (at_ms 0)).reorgs
      ≡ reorged ∷ reorged_later ∷ [])
    × ((draft milli pos_part
          (holding ((102, reorged_later ∷ []) ∷ (101, reorged ∷ []) ∷ []))
          100
          (at_ms 0)).reorgs
        ≡ reorged_later ∷ reorged ∷ [])
unfolding draft whymiss.Assembly.Compare.sort_observations
    whymiss.Domain.Slot.last_attestation_inclusion_slot whymiss.Domain.Kinds.kind_eq
    whymiss.Assembly.Compare.observation_less whymiss.Assembly.Texts.kind_text
    whymiss.Assembly.Texts.source_text whymiss.Assembly.Compare.encode_attrs
reorg_tie = (refl, refl)
