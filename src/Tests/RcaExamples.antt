-- ===== src/Tests/RcaExamples.antt =====
-- The theorems on internal/rca at concrete slots.
use whymiss.Prelude.{
  ℕ, ◌≤◌, Bool, true, false, not, ◌||◌, is_some, List, [], ◌∷◌, Option, none, some, String, ◌≡◌,
  ◌≢◌, refl, ◌↔◌, ◌⊎◌, inl, inr, arith, All,
}
use whymiss.Prelude.Int.{ℤ, pos, max_int64}
use whymiss.Domain.Slot.{validation}
use whymiss.Domain.Cause.{
  CauseId, no_cause, no_rule_matched, insufficient_data, host_clock_drift, proposer_missed,
}
use whymiss.Domain.Observation.{Observation}
use whymiss.Domain.Sample.{MetricSample}
use whymiss.Domain.Verdict.{Verdict, is_ok, is_no_duty, validate}
use whymiss.Rca.Facts.{duty_has_observable_loss}
use whymiss.Rca.Outcome.{derive_outcome}
use whymiss.Rca.Outcome.Agreement.{loss-outcome}
use whymiss.Rca.Engine.Stamps.{IsStamped, analyze_with-IsStamped}
use whymiss.Rca.Outcome.{reward_flags}
use whymiss.Domain.Verdict.{all_earned}
use whymiss.Rca.Stages.{Stages, compute_stages, total, dominant, known_stages}
use whymiss.Rca.Stages.Durations.{IsMeasured, compute_stages-IsMeasured}
use whymiss.Rca.Stages.Total.{at_most, known_sum, parts_of, total-compute_stages}
use whymiss.Rca.Stages.Dominance.{HasShare, dominant-greatest}
use whymiss.Rca.Rules.ClockTrust
use whymiss.Rca.Rules.ClockTrust.{latest_samples}
use whymiss.Rca.Rules.ClockTrust.Trusted.{
  HasInstant, IsTrustedObservation, IsBacked, evaluate-IsTrusted,
}
use whymiss.Rca.Rules.ProposerMissed.{exonerated}
use whymiss.Rca.Engine.{order, first_match, analyze_with, analyze}
use whymiss.Rca.Engine.Verdicts.{AllLost}
use whymiss.Rca.Engine.Validity.{
  analyze_with-valid_iff, analyze_with-derive_outcome, analyze_with-lost,
}
use whymiss.Rca.Engine.Order.{Decides, first_match_iff, first_match-order}
use whymiss.Rca.Engine.Trust.{IsComplete, IsAttribution, analyze-trusted}
use whymiss.Rca.Engine.Soundness.{Supported, analyze-Supported}
use whymiss.Prelude.Int.{int_laws}
use whymiss.Prelude.Time.{sub_time}
use whymiss.Rca.Stages.Span.{total-sub_time}
use whymiss.Rca.Facts.{engine_calls}
use whymiss.Rca.Facts.Calls.{IsPair, IsCall, complete_engine_calls-IsPair}
use whymiss.Tests.Values.{milli, milli-FloatOrder}
use whymiss.Tests.Slots.{
  config, skipped_slot, trusted_slot, lost_slot, staged_slot, called_slot, published, skipped,
  included_in,
}

analyze-Supported_example :
    Supported milli skipped_slot config (analyze milli skipped_slot config).cause
analyze-Supported_example = analyze-Supported milli skipped_slot config

analyze_with-valid_iff_example :
    (validate milli (analyze_with milli skipped_slot config (order milli)) ≡ none)
    ↔ (¬ AllLost skipped_slot)
analyze_with-valid_iff_example =
    analyze_with-valid_iff milli skipped_slot config (order milli) refl refl

analyze_with-derive_outcome_example :
    ((analyze_with milli lost_slot config (order milli)).outcome ≡ (derive_outcome lost_slot).0)
    × ((analyze_with milli lost_slot config (order milli)).flags ≡ (derive_outcome lost_slot).1)
analyze_with-derive_outcome_example =
    analyze_with-derive_outcome milli lost_slot config (order milli)

lost_slot-AllLost : AllLost lost_slot
unfolding whymiss.Domain.Timeline.last whymiss.Domain.Kinds.kind_eq
    whymiss.Domain.Verdict.any_earned whymiss.Rca.Outcome.reward_flags
    whymiss.Domain.Observation.lookup_attr whymiss.Domain.Attrs.attr_eq
    whymiss.Prelude.Text.parse_uint
lost_slot-AllLost = (_, _, refl, refl, refl, refl)

analyze_with-lost_example :
    ((analyze_with milli lost_slot config (order milli)).cause ≡ no_rule_matched)
    × (validate milli (analyze_with milli lost_slot config (order milli)) ≢ none)
analyze_with-lost_example = analyze_with-lost milli lost_slot config (order milli) lost_slot-AllLost

skipped_slot_timed :
    All
      (λ (o : Observation). HasInstant o.clock_measured o.clock_sample_at)
      skipped_slot.observations
skipped_slot_timed = (inr refl, (inr refl, (inr refl, tt)))

trusted_slot_timed :
    All (λ (m : MetricSample ℤ). HasInstant m.clock_measured m.clock_sample_at) trusted_slot.samples
trusted_slot_timed = (inl refl, (inr refl, (inl refl, tt)))

-- The verdict of the slot with the trusted clock.
trusted_slot_cause : (analyze milli trusted_slot config).cause ≡ proposer_missed
unfolding analyze derive_outcome whymiss.Domain.Timeline.last whymiss.Domain.Kinds.kind_eq
    whymiss.Domain.Verdict.all_earned whymiss.Rca.Outcome.reward_flags
    whymiss.Domain.Observation.lookup_attr whymiss.Domain.Attrs.attr_eq
    whymiss.Prelude.Text.parse_uint first_match order whymiss.Rca.Rules.DataCompleteness.evaluate
    whymiss.Domain.Timeline.has ClockTrust.evaluate ClockTrust.check_observations
    ClockTrust.check_observation whymiss.Rca.Rules.ClockTrust.requires_clock_trust
    ClockTrust.is_stale whymiss.Domain.Timeline.abs_duration whymiss.Prelude.Time.sub_time
    whymiss.Prelude.Int.clamp64 whymiss.Prelude.Int.◌-ℤ◌ ClockTrust.check_samples latest_samples
    ClockTrust.worsen whymiss.Rca.Rules.ProposerMissed.evaluate whymiss.Rca.Engine.finish
    whymiss.Domain.Verdict.new_verdict validate whymiss.Domain.Verdict.outcome_valid exonerated
    whymiss.Domain.Verdict.cause_fault whymiss.Domain.Cause.cause_valid
    whymiss.Domain.Cause.cause_eq whymiss.Domain.Verdict.flags_fault
    whymiss.Domain.Verdict.any_earned whymiss.Domain.Verdict.confidence_valid
    whymiss.Domain.Verdict.all_evidence_fault whymiss.Domain.Verdict.evidence_fault
    whymiss.Domain.Verdict.statement_blank whymiss.Prelude.Text.is_blank
    whymiss.Domain.Slot.source_valid whymiss.Domain.Attrs.is_source ClockTrust.check_sample
trusted_slot_cause = refl

proposer_missed-IsAttribution : IsAttribution milli trusted_slot config proposer_missed
proposer_missed-IsAttribution = record {
  named = λ p. cc;
  matched = λ p. cc;
  sufficient = λ p. cc;
  in_time = λ p. cc;
}

analyze-trusted_example :
    IsComplete milli trusted_slot config
    × All (IsTrustedObservation config) trusted_slot.observations
    × All (IsBacked config trusted_slot.samples) trusted_slot.samples
analyze-trusted_example =
    analyze-trusted milli trusted_slot config proposer_missed skipped_slot_timed trusted_slot_timed
      trusted_slot_cause proposer_missed-IsAttribution

evaluate-IsTrusted_example :
    All (IsTrustedObservation config) trusted_slot.observations
    × All (IsBacked config trusted_slot.samples) trusted_slot.samples
unfolding ClockTrust.evaluate ClockTrust.check_observations ClockTrust.check_observation
    ClockTrust.requires_clock_trust whymiss.Domain.Kinds.kind_eq ClockTrust.is_stale
    whymiss.Domain.Timeline.abs_duration whymiss.Prelude.Time.sub_time whymiss.Prelude.Int.clamp64
    whymiss.Prelude.Int.◌-ℤ◌ ClockTrust.check_samples latest_samples ClockTrust.worsen
    whymiss.Domain.Attrs.is_source ClockTrust.check_sample whymiss.Rca.Rules.ClockTrust.put_latest
evaluate-IsTrusted_example =
    evaluate-IsTrusted milli trusted_slot config skipped_slot_timed trusted_slot_timed refl

first_match_iff_example :
    (first_match milli skipped_slot config (order milli)
      ≡ some (exonerated milli skipped (included_in "2" "true")))
    ↔ Decides skipped_slot config (order milli) (exonerated milli skipped (included_in "2" "true"))
first_match_iff_example =
    first_match_iff milli skipped_slot config (order milli)
      (exonerated milli skipped (included_in "2" "true"))

first_match-order_example : first_match milli skipped_slot config (order milli) ≢ none
first_match-order_example = first_match-order milli skipped_slot config

loss-outcome_example :
    duty_has_observable_loss skipped_slot
    ≡ not (is_ok (derive_outcome skipped_slot).0 || is_no_duty (derive_outcome skipped_slot).0)
loss-outcome_example = loss-outcome skipped_slot

compute_stages-IsMeasured_example : IsMeasured (compute_stages staged_slot)
compute_stages-IsMeasured_example = compute_stages-IsMeasured staged_slot

total-compute_stages_example :
    total (compute_stages staged_slot)
    ≡ at_most max_int64 (known_sum (parts_of (compute_stages staged_slot)))
total-compute_stages_example = total-compute_stages staged_slot

dominant-greatest_example :
    (2 ≤ known_stages (compute_stages staged_slot))
    × ((x : ℤ) × HasShare milli (compute_stages staged_slot) validation x
        × (milli.lt x config.dominance ≡ false))
unfolding dominant compute_stages whymiss.Domain.Kinds.kind_eq whymiss.Domain.Attrs.is_source
    whymiss.Domain.Timeline.first whymiss.Rca.Stages.greatest whymiss.Rca.Stages.share total
    whymiss.Prelude.Time.sub_time whymiss.Prelude.Int.clamp64 whymiss.Prelude.Int.◌-ℤ◌
    whymiss.Prelude.Int.wrap64 whymiss.Prelude.Int.◌+ℤ◌ whymiss.Prelude.Int.◌*ℤ◌
dominant-greatest_example =
    dominant-greatest milli milli-FloatOrder (compute_stages staged_slot) config validation refl

total-sub_time_example :
    total (compute_stages staged_slot) ≡ sub_time published.at staged_slot.slot_start
unfolding whymiss.Domain.Timeline.first whymiss.Domain.Kinds.kind_eq compute_stages
    whymiss.Domain.Attrs.is_source
total-sub_time_example = total-sub_time staged_slot published refl refl (omega int_laws)

complete_engine_calls-IsPair_example :
    IsPair milli (engine_calls milli called_slot)
    × All (IsCall milli) (engine_calls milli called_slot)
unfolding whymiss.Rca.Facts.complete_engine_calls whymiss.Rca.Facts.parse_call
    whymiss.Domain.Kinds.kind_eq whymiss.Domain.Attrs.is_source
    whymiss.Domain.Observation.lookup_attr whymiss.Domain.Attrs.attr_eq
    whymiss.Prelude.Text.parse_uint whymiss.Prelude.Int.◌*ℤ◌
complete_engine_calls-IsPair_example = complete_engine_calls-IsPair milli called_slot refl

analyze_with-IsStamped_example :
    IsStamped milli skipped_slot (analyze_with milli skipped_slot config (order milli))
analyze_with-IsStamped_example = analyze_with-IsStamped milli skipped_slot config (order milli)
