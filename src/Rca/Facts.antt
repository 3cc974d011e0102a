-- ===== src/Rca/Facts.antt =====
-- internal/rca/rules/helpers.go: facts that the rules read off a timeline.
pub mod Calls
use whymiss.Prelude.{
  ℕ, ◌==◌, Bool, true, false, ◌&&◌, ◌||◌, not, List, [], ◌∷◌, Option, none, some, String,
  if◌then◌else◌, find_last, or_else, length, count_of,
}
use whymiss.Prelude.Int.{pos, leb_ℤ, max_int64}
use whymiss.Prelude.Text.{str_eq, parse_uint}
use whymiss.Prelude.Time.{Time, Duration, sub_time}
use whymiss.Prelude.Float.{FloatOps, not_finite, le_f, max_millis}
use whymiss.Domain.Slot.{SourceId, Stage, propagation, validation, promscrape}
use whymiss.Domain.Duty.{is_proposer}
use whymiss.Domain.Kinds.{
  block_proposed, attestation_included, engine_call, host_sampled, peer_count_sampled, kind_eq,
}
use whymiss.Domain.Attrs.{
  engine_method, duration_ms, sample_count, inclusion_delay, head_correct, target_correct, metric,
  value, peer_count, engine_method_new_payload, engine_method_forkchoice_updated, is_source,
}
use whymiss.Domain.Observation.{Observation, attr}
use whymiss.Domain.Sample.{MetricSample, Component, host, cl, component_eq}
use whymiss.Domain.Timeline.{Timeline, has, last, attestation_deadline}
use whymiss.Rca.Config.{Config}
use whymiss.Rca.Stages.{compute_stages, dominant}

abbrev pub is_stage : Stage → Option Stage → Bool
is_stage propagation (some propagation) = true
is_stage validation (some validation) = true
is_stage Stage.signing (some Stage.signing) = true
is_stage _ _ = false

module _ {F : Type 0} (fl : FloatOps F) where
  unfoldable pub post_propagation_dominant : Timeline F → Config F → Bool
  post_propagation_dominant tl cfg = is_stage validation (dominant fl (compute_stages tl) cfg)

  -- tl.AttestationDeadline().Sub(tl.SlotStart)
  unfoldable pub budget : Timeline F → Duration
  budget tl = sub_time (attestation_deadline tl) tl.slot_start

  -- The flag of `propagationOverspent`; its stages are `compute_stages tl`.
  unfoldable pub propagation_overspent : Timeline F → Config F → Bool
  unfolding budget
  propagation_overspent tl cfg =
      let s = compute_stages tl in
      if not s.has_propagation || leb_ℤ s.propagation_time (budget tl)
      then false
      else if s.has_validation || s.has_signing
      then is_stage propagation (dominant fl s cfg)
      else true

pub record EngineCall (F : Type 0) : Type 0 where
  pub at : Time
  pub method : String
  pub calls : ℕ
  pub duration : F

module _ {F : Type 0} (fl : FloatOps F) where
  abbrev checked_call : Time → String → Option F → Option ℕ → Option (EngineCall F)
  checked_call at method none n = none
  checked_call at method (some d) none = none
  checked_call at method (some d) (some n) =
      if fl.lt d (fl.lit (pos 0) 0) || not_finite fl d
      then none
      else if not (str_eq method engine_method_new_payload)
          && not (str_eq method engine_method_forkchoice_updated)
      then none
      else if n == 0
      then none
      else some (record { at = at; method = method; calls = n; duration = d })

  abbrev bind_text {ℓ} : {A : Type ℓ} → Option String → (String → Option A) → Option A
  bind_text none f = none
  bind_text (some s) f = f s

  -- One round of the loop of `engineCalls`.
  unfoldable pub parse_call : Observation → Option (EngineCall F)
  parse_call o =
      if not (kind_eq o.kind engine_call) || not (is_source promscrape o.source)
      then none
      else bind_text (attr o engine_method) λ method. bind_text (attr o duration_ms) λ duration.
        bind_text (attr o sample_count)
          λ count. checked_call o.at method (fl.parse duration) (parse_uint 64 count)

  unfoldable pub calls_of : List Observation → List (EngineCall F)
  calls_of [] = []
  calls_of (o ∷ rest) =
      let later = calls_of rest in elim (parse_call o) [ none ↦ later | some c ↦ c ∷ later ]

  unfoldable pub engine_calls : Timeline F → List (EngineCall F)
  unfolding calls_of
  engine_calls tl = calls_of tl.observations

  abbrev calls_method : String → EngineCall F → Bool
  calls_method m c = str_eq c.method m

  unfoldable pub complete_engine_calls : Timeline F → Bool
  unfolding engine_calls
  complete_engine_calls tl =
      length (engine_calls tl) == 2
      && (count_of (calls_method engine_method_new_payload) (engine_calls tl) == 1
          && count_of (calls_method engine_method_forkchoice_updated) (engine_calls tl) == 1)

  unfoldable pub sum_durations : F → List (EngineCall F) → F
  sum_durations acc [] = acc
  sum_durations acc (c ∷ rest) = sum_durations (fl.add acc c.duration) rest

  unfoldable pub engine_call_total : List (EngineCall F) → Duration
  unfolding sum_durations
  engine_call_total calls =
      let ms = sum_durations (fl.lit (pos 0) 0) calls in
      if fl.is_inf ms || le_f fl (max_millis fl) ms
      then max_int64
      else fl.to_int (fl.mul ms (fl.of_int (pos 1000000)))

-- Whether a text attribute is present and reads `true`.
abbrev pub reads_true : Option String → Bool
reads_true none = false
reads_true (some v) = str_eq v "true"

abbrev delay_of : Observation → Option ℕ
delay_of o = elim (attr o inclusion_delay) [ none ↦ none | some text ↦ parse_uint 64 text ]

abbrev not_one : Option ℕ → Bool
not_one none = true
not_one (some n) = not (n == 1)

-- The loss of an attester, by its last inclusion.
abbrev inclusion_loss : Option Observation → Bool
inclusion_loss none = true
inclusion_loss (some o) =
    not_one (delay_of o)
    || (not (reads_true (attr o head_correct)) || not (reads_true (attr o target_correct)))

module _ {F : Type 0} where
  unfoldable pub duty_has_observable_loss : Timeline F → Bool
  duty_has_observable_loss tl = elim tl.duty [
    | none ↦ false
    | some d ↦
        if is_proposer d.kind
        then not (has block_proposed tl)
        else inclusion_loss (last attestation_included tl)
  ]

-- A measurement with its time and its source.
pub record Fact (F : Type 0) : Type 0 where
  pub reading : F
  pub at : Time
  pub source : SourceId

module _ {F : Type 0} (fl : FloatOps F) where
  abbrev parsed : Option String → Option F
  parsed none = none
  parsed (some text) = fl.parse text

  abbrev metric_is : String → Option String → Bool
  metric_is name none = false
  metric_is name (some m) = str_eq m name

  unfoldable pub host_reading : String → Observation → Option F
  host_reading name o =
      if not (kind_eq o.kind host_sampled) || not (metric_is name (attr o metric))
      then none
      else parsed (attr o value)

  unfoldable pub peer_reading : Observation → Option F
  peer_reading o =
      if not (kind_eq o.kind peer_count_sampled) then none else parsed (attr o peer_count)

module _ {F : Type 0} where
  abbrev fact_at : Observation → Option F → Option (Fact F)
  fact_at o none = none
  fact_at o (some x) = some (record { reading = x; at = o.at; source = o.source })

  -- The newest observation that yields a reading.
  unfoldable pub last_reading : (Observation → Option F) → List Observation → Option (Fact F)
  last_reading f [] = none
  last_reading f (o ∷ rest) = or_else (last_reading f rest) (fact_at o (f o))

  abbrev sample_fact : Option (MetricSample F) → Option (Fact F)
  sample_fact none = none
  sample_fact (some m) = some (record { reading = m.value; at = m.at; source = m.source })

  unfoldable pub last_sample : Component → String → List (MetricSample F) → Option (Fact F)
  last_sample c name ms =
      sample_fact (find_last (λ m. component_eq m.component c && str_eq m.name name) ms)

abbrev pub metric_cl_peer_count : String
metric_cl_peer_count = "cl_peer_count"

module _ {F : Type 0} (fl : FloatOps F) where
  unfoldable pub host_sample_fact : Timeline F → String → String → Option (Fact F)
  host_sample_fact tl obs_metric sample_metric =
      or_else (last_reading (host_reading fl obs_metric) tl.observations)
        (last_sample host sample_metric tl.samples)

  unfoldable pub peer_count_fact : Timeline F → Option (Fact F)
  peer_count_fact tl =
      or_else (last_reading (peer_reading fl) tl.observations)
        (last_sample cl metric_cl_peer_count tl.samples)
