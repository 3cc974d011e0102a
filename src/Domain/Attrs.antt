-- ===== src/Domain/Attrs.antt =====
-- internal/domain/observation.go: attribute keys, the kinds that each may stand on, the values that
-- each may take, and the sources that may produce a kind.
pub mod Vocabulary
use whymiss.Prelude.{
  ℕ, zero, suc, ◌==◌, Bool, true, false, ◌&&◌, ◌||◌, not, is_some, List, [], ◌∷◌, Option, none,
  some, String, if◌then◌else◌,
}
use whymiss.Prelude.Int.{pos}
use whymiss.Prelude.Text.{str_eq, has_prefix, byte_len, codes, parse_uint, is_hex_pairs, drop_two}
use whymiss.Prelude.Float.{FloatOps, not_finite, max_millis}
use whymiss.Domain.Slot.{SourceId, beaconapi, promscrape, hostmetrics, clock, xatu, derived}
use whymiss.Domain.Kinds.{
  ObservationKind, slot_start, duty_assigned, block_seen, block_skipped, head_updated,
  attestation_published, attestation_included, block_proposed, reorg, peer_count_sampled,
  engine_call, host_sampled, clock_sampled, collection_completed, network_baseline_sampled,
  payload_attested, other_kind,
}

pub data AttrKey : Type 0 where
  block_root proposer_index validator_index engine_method duration_ms peer_count : AttrKey
  metric value inclusion_delay head_correct target_correct : AttrKey
  block_arrival_p50_ms block_arrival_p90_ms sample_count payload_present ptc_votes : AttrKey
  other_attr : String → AttrKey

abbrev pub engine_method_new_payload : String
engine_method_new_payload = "newPayload"

abbrev pub engine_method_forkchoice_updated : String
engine_method_forkchoice_updated = "forkchoiceUpdated"

unfoldable pub attr_keys : List AttrKey
attr_keys =
    block_arrival_p50_ms ∷ block_arrival_p90_ms ∷ block_root ∷ duration_ms ∷ engine_method
    ∷ head_correct ∷ inclusion_delay ∷ metric ∷ peer_count ∷ proposer_index ∷ sample_count
    ∷ target_correct ∷ validator_index ∷ value ∷ []

abbrev tag : AttrKey → ℕ
tag block_root = 0
tag proposer_index = 1
tag validator_index = 2
tag engine_method = 3
tag duration_ms = 4
tag peer_count = 5
tag metric = 6
tag value = 7
tag inclusion_delay = 8
tag head_correct = 9
tag target_correct = 10
tag block_arrival_p50_ms = 11
tag block_arrival_p90_ms = 12
tag sample_count = 13
tag payload_present = 14
tag ptc_votes = 15
tag (other_attr _) = 16

unfoldable pub attr_eq : AttrKey → AttrKey → Bool
attr_eq (other_attr s) (other_attr t) = str_eq s t
attr_eq a b = tag a == tag b

unfoldable pub permitted_for : AttrKey → ObservationKind → Bool
unfolding attr_eq
permitted_for a duty_assigned = attr_eq a validator_index
permitted_for a collection_completed = attr_eq a validator_index
permitted_for a block_seen = attr_eq a block_root || attr_eq a proposer_index
permitted_for a head_updated = attr_eq a block_root
permitted_for a attestation_published = attr_eq a validator_index || attr_eq a block_root
permitted_for a block_proposed = attr_eq a validator_index || attr_eq a block_root
permitted_for a attestation_included =
    attr_eq a validator_index
    || attr_eq a inclusion_delay
    || attr_eq a block_root
    || attr_eq a head_correct
    || attr_eq a target_correct
permitted_for a peer_count_sampled = attr_eq a peer_count
permitted_for a engine_call =
    attr_eq a engine_method || attr_eq a duration_ms || attr_eq a sample_count
permitted_for a host_sampled = attr_eq a metric || attr_eq a value
permitted_for a clock_sampled = attr_eq a value
permitted_for a network_baseline_sampled =
    attr_eq a block_arrival_p50_ms || attr_eq a block_arrival_p90_ms || attr_eq a sample_count
permitted_for a payload_attested = attr_eq a payload_present || attr_eq a ptc_votes
permitted_for a slot_start = false
permitted_for a block_skipped = false
permitted_for a reorg = false
permitted_for a (other_kind _) = false

-- Sources have no unknown member here that a kind permits, so a number for each is enough.
abbrev source_tag : SourceId → ℕ
source_tag beaconapi = 1
source_tag promscrape = 2
source_tag hostmetrics = 3
source_tag clock = 4
source_tag xatu = 5
source_tag derived = 6
source_tag _ = 0

-- Equality with one of the six known sources.
unfoldable pub is_source : SourceId → SourceId → Bool
is_source known s = source_tag s == source_tag known

unfoldable pub source_permitted_for : SourceId → ObservationKind → Bool
unfolding is_source
source_permitted_for s slot_start = is_source derived s
source_permitted_for s collection_completed = is_source derived s
source_permitted_for s duty_assigned = is_source beaconapi s
source_permitted_for s block_skipped = is_source beaconapi s
source_permitted_for s head_updated = is_source beaconapi s
source_permitted_for s attestation_published = is_source beaconapi s
source_permitted_for s attestation_included = is_source beaconapi s
source_permitted_for s block_proposed = is_source beaconapi s
source_permitted_for s reorg = is_source beaconapi s
source_permitted_for s payload_attested = is_source beaconapi s
source_permitted_for s block_seen = is_source beaconapi s || is_source promscrape s
source_permitted_for s peer_count_sampled = is_source beaconapi s || is_source promscrape s
source_permitted_for s engine_call = is_source promscrape s
source_permitted_for s host_sampled = is_source hostmetrics s
source_permitted_for s clock_sampled = is_source clock s
source_permitted_for s network_baseline_sampled =
    is_source xatu s || is_source promscrape s || is_source beaconapi s
source_permitted_for s (other_kind _) = false

abbrev is_positive : Option ℕ → Bool
is_positive none = false
is_positive (some zero) = false
is_positive (some (suc _)) = true

module _ {F : Type 0} (fl : FloatOps F) where
  abbrev finite_and : (F → Bool) → Option F → Bool
  finite_and bad none = false
  finite_and bad (some x) = not (not_finite fl x || bad x)

  -- `validateObservationAttr`: true is nil.
  unfoldable pub validate_observation_attr : AttrKey → String → Bool
  validate_observation_attr proposer_index v = is_some (parse_uint 64 v)
  validate_observation_attr validator_index v = is_some (parse_uint 64 v)
  validate_observation_attr inclusion_delay v = is_positive (parse_uint 64 v)
  validate_observation_attr sample_count v = is_positive (parse_uint 64 v)
  validate_observation_attr ptc_votes v = is_positive (parse_uint 64 v)
  validate_observation_attr duration_ms v =
      finite_and (λ x. fl.lt x (fl.lit (pos 0) 0) || fl.lt (max_millis fl) x) (fl.parse v)
  validate_observation_attr block_arrival_p50_ms v =
      finite_and (λ x. fl.lt x (fl.lit (pos 0) 0) || fl.lt (max_millis fl) x) (fl.parse v)
  validate_observation_attr block_arrival_p90_ms v =
      finite_and (λ x. fl.lt x (fl.lit (pos 0) 0) || fl.lt (max_millis fl) x) (fl.parse v)
  validate_observation_attr peer_count v = finite_and (λ x. fl.lt x (fl.lit (pos 0) 0)) (fl.parse v)
  validate_observation_attr value v = finite_and (λ x. false) (fl.parse v)
  validate_observation_attr engine_method v =
      str_eq v engine_method_new_payload || str_eq v engine_method_forkchoice_updated
  validate_observation_attr block_root v =
      byte_len v == 66 && has_prefix v "0x" && is_hex_pairs (drop_two (codes v))
  validate_observation_attr _ v = true
