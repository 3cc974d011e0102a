-- ===== src/Domain/Sample.antt =====
-- internal/domain/sample.go: metric samples and the network baseline.
pub mod WellFormed
use whymiss.Prelude.{
  ℕ, ◌==◌, ◌^◌, Bool, true, false, ◌&&◌, ◌||◌, not, Option, none, some, String, ltb, if◌then◌else◌,
}
use whymiss.Prelude.Int.{ℤ, pos, ltb_ℤ, leb_ℤ, eqb_ℤ}
use whymiss.Prelude.Text.{str_eq, byte_len, parse_nonneg_int}
use whymiss.Prelude.Time.{Time, Duration, is_zero}
use whymiss.Prelude.Float.{FloatOps, not_finite}
use whymiss.Domain.Errors.{
  Err, Result, ok, err, invalid_kind, missing_timestamp, not_utc, missing_source, invalid_source,
  invalid,
}
use whymiss.Domain.Slot.{SourceId, source_valid, beaconapi, promscrape, hostmetrics, xatu, derived}
use whymiss.Domain.Kinds.{ObservationKind, network_baseline_sampled, kind_eq}
use whymiss.Domain.Attrs.{
  AttrKey, block_arrival_p50_ms, block_arrival_p90_ms, sample_count, is_source,
}
use whymiss.Domain.Observation.{Observation, attr, clock_fault}

pub data Component : Type 0 where
  el cl vc host : Component
  other_component : String → Component

unfoldable pub component_valid : Component → Bool
component_valid (other_component _) = false
component_valid _ = true

unfoldable pub component_eq : Component → Component → Bool
component_eq el el = true
component_eq cl cl = true
component_eq vc vc = true
component_eq host host = true
component_eq (other_component s) (other_component t) = str_eq s t
component_eq _ _ = false

abbrev pub max_metric_name_bytes : ℕ
max_metric_name_bytes = 128

pub record MetricSample (F : Type 0) : Type 0 where
  pub at : Time
  pub component : Component
  pub name : String
  pub value : F
  pub clock_offset : Duration
  pub clock_measured : Bool
  pub clock_sample_at : Time
  pub source : SourceId

unfoldable pub sample_source_permitted_for : SourceId → Component → Bool
unfolding component_eq
sample_source_permitted_for promscrape c =
    component_eq c el || component_eq c cl || component_eq c vc
sample_source_permitted_for hostmetrics c = component_eq c host
sample_source_permitted_for beaconapi c = component_eq c cl
sample_source_permitted_for derived c = true
sample_source_permitted_for _ c = false

module _ {F : Type 0} (fl : FloatOps F) where
  unfoldable pub validate : MetricSample F → Option Err
  validate m =
      if str_eq m.name ""
      then some invalid_kind
      else if ltb max_metric_name_bytes (byte_len m.name)
      then some invalid
      else if not (component_valid m.component)
      then some invalid
      else if is_zero m.at
      then some missing_timestamp
      else if not m.at.utc
      then some not_utc
      else if not (source_valid m.source)
      then some missing_source
      else if not (sample_source_permitted_for m.source m.component)
      then some invalid_source
      else if not_finite fl m.value
      then some invalid
      else clock_fault m.clock_measured m.clock_offset m.clock_sample_at

-- `SampleCount` is an int, which holds a parsed 32-bit count.
pub record NetworkBaseline : Type 0 where
  pub slot : ℕ
  pub block_arrival_p50 : Duration
  pub block_arrival_p90 : Duration
  pub samples : ℤ
  pub source : SourceId

unfoldable pub validate_baseline : NetworkBaseline → Option Err
validate_baseline n =
    if leb_ℤ n.samples (pos 0)
    then some invalid
    else if ltb_ℤ n.block_arrival_p50 (pos 0) || ltb_ℤ n.block_arrival_p90 (pos 0)
    then some invalid
    else if ltb_ℤ n.block_arrival_p90 n.block_arrival_p50
    then some invalid
    else if not (source_valid n.source)
    then some missing_source
    else if not (is_source xatu n.source)
        && (not (is_source promscrape n.source) && not (is_source beaconapi n.source))
    then some invalid_source
    else none

module _ {F : Type 0} (fl : FloatOps F) where
  abbrev millis_duration : Option F → Result Duration
  millis_duration none = err invalid
  millis_duration (some v) =
      if fl.lt v (fl.lit (pos 0) 0) || not_finite fl v
      then err invalid
      else if fl.lt (fl.div (fl.of_int (pos 9223372036854775807)) (fl.of_int (pos 1000000))) v
      then err invalid
      else ok (fl.to_int (fl.mul v (fl.of_int (pos 1000000))))

  unfoldable pub baseline_duration_attr : Observation → AttrKey → Result Duration
  baseline_duration_attr obs key = elim (attr obs key) [
    | none ↦ err invalid
    | some text ↦ millis_duration (fl.parse text)
  ]

  abbrev checked : NetworkBaseline → Result NetworkBaseline
  checked n = elim (validate_baseline n) [ some e ↦ err e | none ↦ ok n ]

  abbrev with_count : Observation → Duration → Duration → Option ℕ → Result NetworkBaseline
  with_count obs p50 p90 none = err invalid
  with_count obs p50 p90 (some n) =
      if n == 0
      then err invalid
      else checked (record {
        slot = obs.slot;
        block_arrival_p50 = p50;
        block_arrival_p90 = p90;
        samples = pos n;
        source = obs.source;
      })

  unfoldable pub network_baseline_from_observation : Observation → Result NetworkBaseline
  network_baseline_from_observation obs =
      if not (kind_eq obs.kind network_baseline_sampled)
      then err invalid
      else elim (baseline_duration_attr obs block_arrival_p50_ms) [
        | err e ↦ err e
        | ok p50 ↦ elim (baseline_duration_attr obs block_arrival_p90_ms) [
          | err e ↦ err e
          | ok p90 ↦ elim (attr obs sample_count) [
            | none ↦ err invalid
            | some text ↦ with_count obs p50 p90 (parse_nonneg_int 32 text)
          ]
        ]
      ]
