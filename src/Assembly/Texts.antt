-- ===== src/Assembly/Texts.antt =====
-- internal/domain/observation.go, sample.go and slot.go: the texts that the constants of the
-- vocabulary stand for.
use whymiss.Prelude.{String}
use whymiss.Domain.Kinds.{
  ObservationKind, slot_start, duty_assigned, block_seen, block_skipped, head_updated,
  attestation_published, attestation_included, block_proposed, reorg, peer_count_sampled,
  engine_call, host_sampled, clock_sampled, collection_completed, network_baseline_sampled,
  payload_attested, other_kind,
}
use whymiss.Domain.Attrs.{
  AttrKey, block_root, proposer_index, validator_index, engine_method, duration_ms, peer_count,
  metric, value, inclusion_delay, head_correct, target_correct, block_arrival_p50_ms,
  block_arrival_p90_ms, sample_count, payload_present, ptc_votes, other_attr,
}
use whymiss.Domain.Slot.{
  SourceId, beaconapi, promscrape, hostmetrics, clock, xatu, derived, no_source, other_source,
}
use whymiss.Domain.Sample.{Component, el, cl, vc, host, other_component}

unfoldable pub kind_text : ObservationKind → String
kind_text slot_start = "slot_start"
kind_text duty_assigned = "duty_assigned"
kind_text block_seen = "block_seen"
kind_text block_skipped = "block_skipped"
kind_text head_updated = "head_updated"
kind_text attestation_published = "attestation_published"
kind_text attestation_included = "attestation_included"
kind_text block_proposed = "block_proposed"
kind_text reorg = "reorg"
kind_text peer_count_sampled = "peer_count_sampled"
kind_text engine_call = "engine_call"
kind_text host_sampled = "host_sampled"
kind_text clock_sampled = "clock_sampled"
kind_text collection_completed = "collection_completed"
kind_text network_baseline_sampled = "network_baseline_sampled"
kind_text payload_attested = "payload_attested"
kind_text (other_kind s) = s

unfoldable pub attr_text : AttrKey → String
attr_text block_root = "block_root"
attr_text proposer_index = "proposer_index"
attr_text validator_index = "validator_index"
attr_text engine_method = "engine_method"
attr_text duration_ms = "duration_ms"
attr_text peer_count = "peer_count"
attr_text metric = "metric"
attr_text value = "value"
attr_text inclusion_delay = "inclusion_delay"
attr_text head_correct = "head_correct"
attr_text target_correct = "target_correct"
attr_text block_arrival_p50_ms = "block_arrival_p50_ms"
attr_text block_arrival_p90_ms = "block_arrival_p90_ms"
attr_text sample_count = "sample_count"
attr_text payload_present = "payload_present"
attr_text ptc_votes = "ptc_votes"
attr_text (other_attr s) = s

unfoldable pub source_text : SourceId → String
source_text beaconapi = "beaconapi"
source_text promscrape = "promscrape"
source_text hostmetrics = "hostmetrics"
source_text clock = "clock"
source_text xatu = "xatu"
source_text derived = "derived"
source_text no_source = ""
source_text (other_source s) = s

unfoldable pub component_text : Component → String
component_text el = "el"
component_text cl = "cl"
component_text vc = "vc"
component_text host = "host"
component_text (other_component s) = s
