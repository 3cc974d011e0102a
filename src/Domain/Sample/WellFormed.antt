-- ===== src/Domain/Sample/WellFormed.antt =====
-- What internal/domain/sample.go accepts, and what decoding a baseline gives.
use whymiss.Prelude.{
  ℕ, true, false, ◌≡◌, ◌≢◌, refl, ap, ◌↔◌, ◌⊎◌, inl, inr, Option, none, some, ◌≤◌, arith, String,
  Option-cases,
}
use whymiss.Prelude.Int.{ℤ, pos, ◌≤ℤ◌, ◌<ℤ◌}
use whymiss.Prelude.Text.{str_eq_iff, byte_len, parse_nonneg_int}
use whymiss.Prelude.Time.{is_zero}
use whymiss.Prelude.Float.{FloatOps, not_finite}
use whymiss.Domain.Slot.{source_valid, beaconapi, promscrape, xatu}
use whymiss.Domain.Kinds.{kind_eq, kind_eq_iff, network_baseline_sampled}
use whymiss.Domain.Attrs.{is_source, sample_count, block_arrival_p50_ms, block_arrival_p90_ms}
use whymiss.Domain.Errors.{ok, Result-cases}
use whymiss.Domain.Observation.{Observation, attr}
use whymiss.Domain.Observation.WellFormed.{ClockConsistent, clock_fault-none_iff}
use whymiss.Domain.Sample.{
  with_count, MetricSample, validate, component_valid, sample_source_permitted_for, NetworkBaseline,
  validate_baseline, network_baseline_from_observation, baseline_duration_attr,
}

module _ {F : Type 0} (fl : FloatOps F) where
  pub record IsWellFormed (m : MetricSample F) : Type 0 where
    pub named : m.name ≢ ""
    pub name_short : byte_len m.name ≤ 128
    pub component_known : component_valid m.component ≡ true
    pub timed : is_zero m.at ≡ false
    pub at_utc : m.at.utc ≡ true
    pub attributed : sample_source_permitted_for m.source m.component ≡ true
    pub finite : not_finite fl m.value ≡ false
    pub clock_consistent : ClockConsistent m.clock_measured m.clock_offset m.clock_sample_at

  permitted-source_valid :
      (m : MetricSample F)
      → sample_source_permitted_for m.source m.component ≡ true
      → source_valid m.source ≡ true
  unfolding sample_source_permitted_for source_valid
  permitted-source_valid m h = ground arith

  validate-IsWellFormed : (m : MetricSample F) → validate fl m ≡ none → IsWellFormed m
  unfolding validate
  validate-IsWellFormed m h = record {
    named = ground (arith, str_eq_iff m.name "");
    name_short = ground arith;
    component_known = ground arith;
    timed = ground arith;
    at_utc = ground arith;
    attributed = ground arith;
    finite = ground arith;
    clock_consistent = (clock_fault-none_iff _ _ _).0 (ground arith);
  }

  IsWellFormed-validate : (m : MetricSample F) → IsWellFormed m → validate fl m ≡ none
  unfolding validate
  IsWellFormed-validate m w = ground (
    arith,
    str_eq_iff m.name "",
    permitted-source_valid m w.attributed,
    (clock_fault-none_iff _ _ _).1 w.clock_consistent,
  )

  -- `Validate` returns nil exactly for a named sample of a known component at a non-zero UTC
  -- instant, with a finite value, from a source that may measure the component, and with
  -- consistent clock metadata.
  sample_validate-none_iff : (m : MetricSample F) → (validate fl m ≡ none) ↔ IsWellFormed m
  sample_validate-none_iff m = (validate-IsWellFormed m, IsWellFormed-validate m)

pub record IsUsable (n : NetworkBaseline) : Type 0 where
  pub counted : pos 0 <ℤ n.samples
  pub p50_nonneg : pos 0 ≤ℤ n.block_arrival_p50
  pub ordered : n.block_arrival_p50 ≤ℤ n.block_arrival_p90
  pub attributed : (n.source ≡ xatu) ⊎ ((n.source ≡ promscrape) ⊎ (n.source ≡ beaconapi))

validate_baseline-IsUsable : (n : NetworkBaseline) → validate_baseline n ≡ none → IsUsable n
unfolding validate_baseline is_source
validate_baseline-IsUsable n h = ground arith

IsUsable-validate_baseline : (n : NetworkBaseline) → IsUsable n → validate_baseline n ≡ none
unfolding validate_baseline is_source source_valid
IsUsable-validate_baseline n u = ground arith

-- `Validate` returns nil exactly for a baseline with a positive count, a median that is not negative
-- and not above the 90th percentile, and one of the three sources that supply one.
validate_baseline-none_iff : (n : NetworkBaseline) → (validate_baseline n ≡ none) ↔ IsUsable n
validate_baseline-none_iff n = (validate_baseline-IsUsable n, IsUsable-validate_baseline n)

abbrev decoded : Observation → ℤ → ℤ → ℕ → NetworkBaseline
decoded o p50 p90 k = record {
  slot = o.slot;
  block_arrival_p50 = p50;
  block_arrival_p90 = p90;
  samples = pos k;
  source = o.source;
}

module _ {F : Type 0} (fl : FloatOps F) where
  with_count-ok :
      (o : Observation) (p50 p90 : ℤ) (c : Option ℕ) (n : NetworkBaseline)
      → with_count fl o p50 p90 c ≡ ok n
      → (k : ℕ) × (c ≡ some k) × (n ≡ decoded o p50 p90 k) × (validate_baseline n ≡ none)
  with_count-ok o p50 p90 none n h = cc
  with_count-ok o p50 p90 (some k) n h = (k, refl, ground arith, ground arith)

module _ {F : Type 0} (fl : FloatOps F) (o : Observation) {n : NetworkBaseline} where
  from_observation_parts :
      network_baseline_from_observation fl o ≡ ok n
      → (p50 p90 : ℤ) × (c : String) × (kind_eq o.kind network_baseline_sampled ≡ true)
        × (baseline_duration_attr fl o block_arrival_p50_ms ≡ ok p50)
        × (baseline_duration_attr fl o block_arrival_p90_ms ≡ ok p90)
        × (attr o sample_count ≡ some c)
        × (with_count fl o p50 p90 (parse_nonneg_int 32 c) ≡ ok n)
  unfolding network_baseline_from_observation
  from_observation_parts h =
      elim (Result-cases (baseline_duration_attr fl o block_arrival_p50_ms)) [
        | inl (e, e50) ↦ absurd (ground arith)
        | inr (p50, e50) ↦ elim (Result-cases (baseline_duration_attr fl o block_arrival_p90_ms)) [
          | inl (e, e90) ↦ absurd (ground arith)
          | inr (p90, e90) ↦ elim (Option-cases (attr o sample_count)) [
            | inl ec ↦ absurd (ground arith)
            | inr (c, ec) ↦ (p50, p90, c, ground arith, e50, e90, ec, ground arith)
          ]
        ]
      ]

  -- A baseline that is decoded from an observation is usable (a positive count, ordered percentiles
  -- that are not negative, a source that may supply one), and keeps the observation's slot, source,
  -- both percentile attributes and the count attribute.
  pub network_baseline_from_observation-IsUsable :
      network_baseline_from_observation fl o ≡ ok n
      → IsUsable n
        × (o.kind ≡ network_baseline_sampled)
        × (n.slot ≡ o.slot)
        × (n.source ≡ o.source)
        × (baseline_duration_attr fl o block_arrival_p50_ms ≡ ok n.block_arrival_p50)
        × (baseline_duration_attr fl o block_arrival_p90_ms ≡ ok n.block_arrival_p90)
        × (c : String) × (attr o sample_count ≡ some c)
        × (k : ℕ) × (parse_nonneg_int 32 c ≡ some k)
        × (n.samples ≡ pos k)
  unfolding network_baseline_from_observation
  network_baseline_from_observation-IsUsable h =
      let (p50, p90, c, kind, e50, e90, ec, counted) = from_observation_parts h in
      let (k, ek, en, valid) = with_count-ok fl o p50 p90 (parse_nonneg_int 32 c) n counted in
      (
        validate_baseline-IsUsable n valid,
        (kind_eq_iff _ _).0 kind,
        ap (λ (m : NetworkBaseline). m.slot) en,
        ap (λ (m : NetworkBaseline). m.source) en,
        rw en e50,
        rw en e90,
        c,
        ec,
        k,
        ek,
        ap (λ (m : NetworkBaseline). m.samples) en,
      )
