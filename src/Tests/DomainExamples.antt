-- ===== src/Tests/DomainExamples.antt =====
-- The theorems on internal/domain at concrete values.
use whymiss.Prelude.{
  Any, ℕ, ◌≤◌, ◌<◌, ◌+◌, ◌-◌, ◌*◌, ◌/◌, Bool, true, false, not, ◌||◌, is_some, List, [], ◌∷◌,
  Option, none, some, String, ◌≡◌, refl, ◌↔◌, ◌⊎◌, inl, inr, arith, All, ltb,
}
use whymiss.Prelude.Int.{ℤ, pos}
use whymiss.Prelude.Time.{add_time}
use whymiss.Prelude.Text.{parse_nonneg_int}
use whymiss.Domain.Errors.{ok}
use whymiss.Domain.Slot.{
  max_uint64, epoch, slots_per_epoch, last_attestation_inclusion_slot, collection_window_end,
  source_valid,
}
use whymiss.Domain.Slot.Window.{last_inclusion_window, collection_window_end_exact}
use whymiss.Domain.Kinds.{
  block_seen, block_skipped, attestation_included, payload_attested, collection_completed,
  observation_kinds, kind_valid, network_baseline_sampled,
}
use whymiss.Domain.Attrs.{
  payload_present, ptc_votes, attr_keys, attr_eq, permitted_for, source_permitted_for, head_correct,
  block_arrival_p50_ms, block_arrival_p90_ms, sample_count,
}
use whymiss.Domain.Attrs.Vocabulary.{attr_keys_incomplete, mem_key}
use whymiss.Domain.Observation.{attr}
use whymiss.Domain.Observation
use whymiss.Domain.Observation.WellFormed as ObservationWellFormed
use whymiss.Domain.Observation.WellFormed.{observation_validate-none_iff}
use whymiss.Domain.Sample.{
  validate_baseline, network_baseline_from_observation, baseline_duration_attr,
}
use whymiss.Domain.Sample
use whymiss.Domain.Sample.WellFormed.{IsUsable, network_baseline_from_observation-IsUsable}
use whymiss.Domain.Timeline.{first, last, has, count}
use whymiss.Domain.Timeline
use whymiss.Domain.Timeline.Loops.{IsSorted}
use whymiss.Domain.Timeline.WellFormed as TimelineWellFormed
use whymiss.Domain.Timeline.WellFormed.{timeline_validate-none_iff}
use whymiss.Domain.Observation.{Observation}
use whymiss.Domain.Timeline.Queries.{IsBetween, first-last-IsBetween}
use whymiss.Domain.Verdict.{Verdict, Outcome, high, txt, taxonomy_version}
use whymiss.Domain.Verdict
use whymiss.Domain.Verdict.WellFormed.{MayBeEmitted, verdict_validate-none_iff}
use whymiss.Domain.Timeline.Extremes.{
  IsAtMost, Attains, max_abs_clock_offset-IsAtMost, IsNotNewer, IsReading, sample_value-IsReading,
}
use whymiss.Domain.Sample.{el}
use whymiss.Prelude.Time.{Time}
use whymiss.Tests.Values.{milli}
use whymiss.Tests.Slots.{
  at_ms, included_in, skipped_slot, baseline_record, baseline, sample_verdict, sampled_slot,
}

observation_validate-none_iff_example :
    (Observation.validate milli (included_in "2" "true") ≡ none)
    ↔ ObservationWellFormed.IsWellFormed milli (included_in "2" "true")
observation_validate-none_iff_example = observation_validate-none_iff milli (included_in "2" "true")

timeline_validate-none_iff_example :
    (Timeline.validate milli skipped_slot ≡ none)
    ↔ TimelineWellFormed.IsWellFormed milli skipped_slot
timeline_validate-none_iff_example = timeline_validate-none_iff milli skipped_slot (omega arith)

verdict_validate-none_iff_example :
    (Verdict.validate milli sample_verdict ≡ none) ↔ MayBeEmitted milli sample_verdict
verdict_validate-none_iff_example = verdict_validate-none_iff milli sample_verdict

last_inclusion_window_example :
    (100 ≤ last_attestation_inclusion_slot 100)
    × (last_attestation_inclusion_slot 100 ≤ max_uint64)
    × (last_attestation_inclusion_slot 100 ≤ 163)
    × ((max_uint64 / slots_per_epoch ≤ epoch 100 + 1)
        ⊎ (last_attestation_inclusion_slot 100 ≡ (epoch 100 + 1) * slots_per_epoch + 31))
last_inclusion_window_example = last_inclusion_window 100 (omega arith)

collection_window_end_exact_example :
    collection_window_end 100 (at_ms 0) (pos 12000000000)
    ≡ add_time (at_ms 0) (pos ((last_attestation_inclusion_slot 100 - 100 + 1) * 12000000000))
collection_window_end_exact_example =
    collection_window_end_exact 100 (at_ms 0) 12000000000 (omega arith) (omega arith) (omega arith)

attr_keys_incomplete_example :
    mem_key payload_present attr_keys
    ≡ not (attr_eq payload_present payload_present || attr_eq payload_present ptc_votes)
unfolding permitted_for
attr_keys_incomplete_example = attr_keys_incomplete payload_present payload_attested refl

skipped_slot-IsSorted : IsSorted skipped_slot.observations
skipped_slot-IsSorted = ((omega arith, (omega arith, tt)), ((omega arith, tt), (tt, tt)))

first-last-IsBetween_example :
    ((attestation_included ≡ attestation_included)
      × Any (λ (o : Observation). o ≡ included_in "2" "true") skipped_slot.observations)
    × ((attestation_included ≡ attestation_included)
        × Any (λ (o : Observation). o ≡ included_in "2" "true") skipped_slot.observations)
    × All (IsBetween attestation_included (at_ms 24000) (at_ms 24000)) skipped_slot.observations
unfolding first last whymiss.Domain.Kinds.kind_eq
first-last-IsBetween_example =
    first-last-IsBetween skipped_slot attestation_included (included_in "2" "true")
      (included_in "2" "true") skipped_slot-IsSorted refl refl

network_baseline_from_observation-IsUsable_example :
    IsUsable baseline
    × (baseline_record.kind ≡ network_baseline_sampled)
    × (baseline.slot ≡ baseline_record.slot)
    × (baseline.source ≡ baseline_record.source)
    × (baseline_duration_attr milli baseline_record block_arrival_p50_ms
        ≡ ok baseline.block_arrival_p50)
    × (baseline_duration_attr milli baseline_record block_arrival_p90_ms
        ≡ ok baseline.block_arrival_p90)
    × (c : String) × (attr baseline_record sample_count ≡ some c)
    × (k : ℕ) × (parse_nonneg_int 32 c ≡ some k)
    × (baseline.samples ≡ pos k)
unfolding network_baseline_from_observation baseline_duration_attr validate_baseline
    whymiss.Domain.Kinds.kind_eq Observation.lookup_attr attr_eq whymiss.Prelude.Text.parse_uint
    whymiss.Prelude.Int.◌*ℤ◌ parse_nonneg_int source_valid whymiss.Domain.Attrs.is_source
network_baseline_from_observation-IsUsable_example =
    network_baseline_from_observation-IsUsable milli baseline_record refl

max_abs_clock_offset-IsAtMost_example :
    All (IsAtMost (pos 2000000)) skipped_slot.observations
    × Any (Attains (pos 2000000)) skipped_slot.observations
unfolding Timeline.max_abs_clock_offset Timeline.abs_duration
max_abs_clock_offset-IsAtMost_example =
    max_abs_clock_offset-IsAtMost skipped_slot (pos 2000000) refl

sample_value-IsReading_example :
    (u : Time) × All (IsNotNewer el "el_engine_calls_p99_ms" u) sampled_slot.samples
    × Any (IsReading el "el_engine_calls_p99_ms" u (pos 120000)) sampled_slot.samples
unfolding Timeline.sample_value Sample.component_eq
sample_value-IsReading_example =
    sample_value-IsReading el "el_engine_calls_p99_ms" sampled_slot (pos 120000) refl
