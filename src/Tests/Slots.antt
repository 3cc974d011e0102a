-- ===== src/Tests/Slots.antt =====
-- Concrete slots for the examples.
use whymiss.Prelude.{ℕ, false, true, List, [], ◌∷◌, none, some, String, ◌+◌, ◌*◌}
use whymiss.Prelude.Int.{ℤ, pos, negsuc}
use whymiss.Prelude.Time.{Time}
use whymiss.Domain.Slot.{SourceId, beaconapi, promscrape, derived, xatu}
use whymiss.Domain.Schedule.{mainnet_pre_epbs}
use whymiss.Domain.Duty.{attester}
use whymiss.Domain.Kinds.{
  ObservationKind, block_skipped, block_seen, head_updated, attestation_published,
  attestation_included, collection_completed, network_baseline_sampled, engine_call,
}
use whymiss.Domain.Attrs.{
  inclusion_delay, head_correct, target_correct, block_arrival_p50_ms, block_arrival_p90_ms,
  sample_count, engine_method, duration_ms,
}
use whymiss.Domain.Observation.{Observation, Attrs}
use whymiss.Domain.Sample.{MetricSample, NetworkBaseline, el}
use whymiss.Domain.Timeline.{Timeline}
use whymiss.Domain.Cause.{vc_disconnected, no_cause}
use whymiss.Domain.Verdict.{Verdict, Outcome, medium, txt}
use whymiss.Rca.Config.{Config}

-- So many milliseconds after the start of the slot.
abbrev pub at_ms : ℕ → Time
at_ms ms = record { ns = pos (1700000000000000000 + ms * 1000000); utc = true }

abbrev pub observed : ObservationKind → ℕ → SourceId → Attrs → Observation
observed kind ms source attrs = record {
  slot = 100;
  kind = kind;
  at = at_ms ms;
  clock_offset = pos 2000000;
  clock_measured = true;
  clock_sample_at = at_ms ms;
  source = source;
  attrs = attrs;
}

abbrev pub included_in : String → String → Observation
included_in delay target =
    observed attestation_included 24000 beaconapi
      ((inclusion_delay, delay) ∷ (head_correct, "true") ∷ (target_correct, target) ∷ [])

abbrev pub skipped : Observation
skipped = observed block_skipped 12500 beaconapi []

abbrev pub completed : Observation
completed = observed collection_completed 800000 derived []

abbrev pub config : Config ℤ
config = record {
  dominance = pos 500;
  clock_offset_max = pos 100000000;
  clock_sample_max_age = pos 120000000000;
  network_deviation = pos 750000000;
  engine_spike_multiplier = pos 3000;
  peer_count_min = pos 40000;
  io_wait_pct = pos 20000;
  cpu_steal_pct = pos 5000;
  psi_mem_avg10 = pos 10000;
}

abbrev pub slot_with : List Observation → Timeline ℤ
slot_with observations = record {
  slot = 100;
  slot_start = at_ms 0;
  schedule = mainnet_pre_epbs;
  duty = some (record { kind = attester; slot = 100; validator_index = 7; committee_index = 3 });
  observations = observations;
  reorgs = [];
  samples = [];
  network = none;
  collection_complete = true;
}

-- The canonical chain skipped the slot, and the attestation was included a slot late.
abbrev pub skipped_slot : Timeline ℤ
skipped_slot = slot_with (skipped ∷ included_in "2" "true" ∷ completed ∷ [])

-- The attestation was included too late for the source flag, with the wrong target.
abbrev pub lost_slot : Timeline ℤ
lost_slot = slot_with (included_in "6" "false" ∷ completed ∷ [])

-- Block at 1 s, head at 4.5 s, publication at 5 s.
abbrev pub staged_slot : Timeline ℤ
staged_slot = slot_with (
    observed block_seen 1000 promscrape []
    ∷ observed head_updated 4500 beaconapi []
    ∷ observed attestation_published 5000 beaconapi []
    ∷ completed
    ∷ [])

abbrev pub baseline_record : Observation
baseline_record =
    observed network_baseline_sampled 13000 xatu
      ((block_arrival_p50_ms, "1500") ∷ (block_arrival_p90_ms, "2500") ∷ (sample_count, "40") ∷ [])

abbrev pub baseline : NetworkBaseline
baseline = record {
  slot = 100;
  block_arrival_p50 = pos 1500000000;
  block_arrival_p90 = pos 2500000000;
  samples = pos 40;
  source = xatu;
}

abbrev pub p99_sample : MetricSample ℤ
p99_sample = record {
  at = at_ms 3000;
  component = el;
  name = "el_engine_calls_p99_ms";
  value = pos 120000;
  clock_offset = negsuc 1999999;
  clock_measured = true;
  clock_sample_at = at_ms 3000;
  source = promscrape;
}

abbrev pub sample_verdict : Verdict ℤ
sample_verdict = record {
  slot = 100;
  outcome = Outcome.missed;
  flags = none;
  cause = vc_disconnected;
  sub_cause = no_cause;
  confidence = medium;
  evidence =
      record {
        at = at_ms 800000;
        offset = pos 800000000000;
        statement = txt "no attestation was published" ∷ [];
        source = derived;
        comparison = none;
      }
      ∷ [];
  remediation = [];
  engine_version = "0.15.0";
  taxonomy = "4.0.0";
}

-- A slot with two samples of the execution client.
abbrev pub sampled_slot : Timeline ℤ
sampled_slot = record skipped_slot { samples = p99_sample ∷ p99_sample ∷ [] }

abbrev pub published : Observation
published = observed attestation_published 5000 beaconapi []

abbrev called : ℕ → String → String → Observation
called ms method duration =
    observed engine_call ms promscrape
      ((engine_method, method) ∷ (duration_ms, duration) ∷ (sample_count, "1") ∷ [])

-- Both Engine API calls were sampled.
abbrev pub called_slot : Timeline ℤ
called_slot =
    slot_with
      (called 4400 "newPayload" "900" ∷ called 4500 "forkchoiceUpdated" "40" ∷ completed ∷ [])

-- The skipped slot with an older sample whose clock was not measured, a newer one whose clock is
-- trusted, and a derived one.
abbrev pub trusted_slot : Timeline ℤ
trusted_slot = record skipped_slot {
  samples =
      record p99_sample { at = at_ms 2000; clock_measured = false }
      ∷ p99_sample
      ∷ record p99_sample { clock_measured = false; source = derived }
      ∷ [];
}
