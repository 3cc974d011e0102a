-- ===== src/Rca/Evidence.antt =====
-- What must stand on a timeline for a rule of internal/rca/rules to name its cause.
pub mod External
pub mod Local
use whymiss.Prelude.{
  ℕ, Bool, true, false, ◌&&◌, ◌||◌, not, List, [], ◌∷◌, Option, none, some, String, ◌≡◌, ◌≢◌, ◌<◌,
  ◌⊎◌,
}
use whymiss.Prelude.Int.{ℤ, ◌<ℤ◌, ◌≤ℤ◌, quot}
use whymiss.Prelude.Text.{parse_nonneg_int, str_eq}
use whymiss.Prelude.Time.{Time, Duration}
use whymiss.Prelude.Float.{FloatOps, le_f, millis}
use whymiss.Domain.Slot.{propagation, validation, signing}
use whymiss.Domain.Schedule.{payload_reveal_deadline_at}
use whymiss.Domain.Duty.{Duty, is_attester}
use whymiss.Domain.Kinds.{
  block_skipped, block_seen, head_updated, block_proposed, attestation_included,
  attestation_published, payload_attested, collection_completed,
}
use whymiss.Domain.Attrs.{payload_present, ptc_votes, block_root}
use whymiss.Domain.Observation.{Observation, attr}
use whymiss.Domain.Sample.{NetworkBaseline, el}
use whymiss.Domain.Timeline.{Timeline, first, last, has, attestation_deadline, sample_value}
use whymiss.Rca.Config.{Config}
use whymiss.Rca.Stages.{compute_stages, dominant, timed_block_seen}
use whymiss.Rca.Facts.{
  budget, Fact, peer_count_fact, host_sample_fact, duty_has_observable_loss, complete_engine_calls,
  engine_calls, engine_call_total,
}
use whymiss.Rca.Rules.NetworkLateBlock.{deviation}
use whymiss.Rca.Rules.PayloadLate.{or_empty}
use whymiss.Rca.Rules.ElSlow.{metric_el_engine_calls_p99_ms}

-- A value that is there and has the property.
abbrev pub Of {ℓ} : {A : Type ℓ} → Option A → (A → Type 0) → Type 0
Of none P = ⊥
Of (some x) P = P x

-- The instant of an observation against the deadline.
abbrev pub IsBefore : Time → Time → Type 0
IsBefore a b = a.ns <ℤ b.ns

module _ {F : Type 0} (tl : Timeline F) where
  -- An attester whose own attestation was included, for a slot that the canonical chain skipped and
  -- of which no block was seen.
  pub record IsSkippedSlot : Type 0 where
    pub owes_attestation : Of tl.duty λ d. is_attester d.kind ≡ true
    pub skipped : first block_skipped tl ≢ none
    pub included : last attestation_included tl ≢ none
    pub unseen : has block_seen tl ≡ false
    pub headless : has head_updated tl ≡ false
    pub unproposed : has block_proposed tl ≡ false

  -- A lost duty of a slot that was not skipped, with a payload deadline, where the newest report of
  -- the committee counts votes and says that the payload was absent.
  pub record IsPayloadLate : Type 0 where
    pub due : payload_reveal_deadline_at tl.schedule tl.slot_start ≢ none
    pub not_skipped : has block_skipped tl ≡ false
    pub lost : duty_has_observable_loss tl ≡ true
    pub reported : Of (last payload_attested tl) λ o.
        (str_eq (or_empty (attr o payload_present)) "false" ≡ true)
        × Of (parse_nonneg_int 64 (or_empty (attr o ptc_votes))) λ votes. 0 < votes

  -- The validator client produced nothing although block and head stood before the deadline.
  pub record IsDisconnected : Type 0 where
    pub unpublished : has attestation_published tl ≡ false
    pub unincluded : has attestation_included tl ≡ false
    pub block_in_time : Of (timed_block_seen tl) λ o. IsBefore o.at (attestation_deadline tl)
    pub head_in_time : Of (first head_updated tl) λ h. IsBefore h.at (attestation_deadline tl)
    pub completed : first collection_completed tl ≢ none

  -- Published in time for the head that turned out canonical, but never included.
  pub record IsLeftOut : Type 0 where
    pub published : Of (first attestation_published tl) λ o.
        IsBefore o.at (attestation_deadline tl)
        × Of (first head_updated tl) λ h.
          Of
            (attr o block_root)
            λ root. Of (attr h block_root) λ head_root. str_eq root head_root ≡ true
    pub not_included : has attestation_included tl ≡ false
    pub closed : first collection_completed tl ≢ none

module _ {F : Type 0} (fl : FloatOps F) (tl : Timeline F) (cfg : Config F) where
  -- The block arrived here after the attestation deadline.
  pub record ArrivedLate : Type 0 where
    pub measured : (compute_stages tl).has_propagation ≡ true
    pub overspent : budget fl tl <ℤ (compute_stages tl).propagation_time
    pub charged :
        ((compute_stages tl).has_validation ≡ false) × ((compute_stages tl).has_signing ≡ false)
        ⊎ (dominant fl (compute_stages tl) cfg ≡ some propagation)

  -- So it did across the network, by about as much.
  pub record IsLateEverywhere : Type 0 where
    pub arrived : ArrivedLate
    pub network : Of tl.network λ n.
        (budget fl tl <ℤ n.block_arrival_p50)
        × (deviation (compute_stages tl).propagation_time n.block_arrival_p50
            <ℤ cfg.network_deviation)

  -- The network had it in time, and the peers here were too few.
  pub record IsLateHere : Type 0 where
    pub arrived : ArrivedLate
    pub network_timely : Of tl.network λ n. n.block_arrival_p50 ≤ℤ budget fl tl
    pub few_peers :
        Of (peer_count_fact fl tl) λ peers. le_f fl cfg.peer_count_min peers.reading ≡ false

  -- The head came after the deadline, validation dominates, and both Engine API calls were sampled.
  pub record IsValidationLate : Type 0 where
    pub head_late : Of (first head_updated tl) λ h. IsBefore (attestation_deadline tl) h.at
    pub measured : (compute_stages tl).has_validation ≡ true
    pub dominates : dominant fl (compute_stages tl) cfg ≡ some validation
    pub sampled : complete_engine_calls fl tl ≡ true

  abbrev pub engine_time : Duration
  engine_time = engine_call_total fl (engine_calls fl tl)

  abbrev pub half_of_validation : Duration
  half_of_validation = quot (compute_stages tl).validation_time 2

  -- The execution client took at least half of it, and more than the multiple of its own p99.
  pub record IsEngineSlow : Type 0 where
    pub late : IsValidationLate
    pub engine_share : half_of_validation ≤ℤ engine_time
    pub spiked :
        Of
          (sample_value tl el metric_el_engine_calls_p99_ms)
          λ p99. le_f fl (millis fl engine_time) (fl.mul cfg.engine_spike_multiplier p99) ≡ false

  -- The execution client took less than half of it.
  pub record IsConsensusSlow : Type 0 where
    pub late : IsValidationLate
    pub engine_share : engine_time <ℤ half_of_validation

  -- Block and head stood before the deadline, the publication came after it, and signing dominates.
  pub record IsSignedLate : Type 0 where
    pub block_in_time : Of (timed_block_seen tl) λ o. IsBefore o.at (attestation_deadline tl)
    pub head_in_time : Of (first head_updated tl) λ h. IsBefore h.at (attestation_deadline tl)
    pub published_late :
        Of (first attestation_published tl) λ p. IsBefore (attestation_deadline tl) p.at
    pub dominates : dominant fl (compute_stages tl) cfg ≡ some signing

  -- A lost duty, and a reading of the host beyond its threshold.
  pub record IsHostBusy (threshold : F) (observed sampled : String) : Type 0 where
    pub lost : duty_has_observable_loss tl ≡ true
    pub beyond :
        Of (host_sample_fact fl tl observed sampled) λ fact. fl.lt threshold fact.reading ≡ true
