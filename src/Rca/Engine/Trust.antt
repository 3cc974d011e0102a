-- ===== src/Rca/Engine/Trust.antt =====
-- What the verdict of internal/rca/engine.go rests on: the draft of a rule, complete data and a
-- trusted clock.
use whymiss.Prelude.{
  true, ◌&&◌, List, ◌∷◌, Option, none, some, ◌≡◌, ◌≢◌, refl, sym, ap, ◌∙◌, ◌⊎◌, inl, inr, arith,
  All, Bool-cases, is_some,
}
use whymiss.Prelude.Float.{FloatOps}
use whymiss.Domain.Errors.{Result-cases}
use whymiss.Domain.Kinds.{collection_completed, attestation_included}
use whymiss.Domain.Attrs.{head_correct, target_correct}
use whymiss.Domain.Observation.{Observation, attr}
use whymiss.Domain.Sample.{MetricSample}
use whymiss.Domain.Timeline.{Timeline, has, last}
use whymiss.Domain.Cause.{
  CauseId, cause_eq, no_cause, no_rule_matched, insufficient_data, host_clock_drift,
}
use whymiss.Domain.Verdict.{Outcome, RewardFlags, Verdict, is_no_duty, is_ok, new_verdict, stamped}
use whymiss.Domain.Verdict.WellFormed.{new_verdict-ok}
use whymiss.Rca.Config.{Config}
use whymiss.Rca.Outcome.{derive_outcome}
use whymiss.Rca.Rules
use whymiss.Rca.Rules.ClockTrust.{
  Step, Worst, check_observation, check_observations, check_sample, check_samples, latest_samples,
  insufficient_clock, drift,
}
use whymiss.Rca.Rules.ClockTrust.Trusted.{
  IsTrustedObservation, IsBacked, HasInstant, evaluate-IsTrusted,
}
use whymiss.Rca.Rules.ClockTrust.Causes.{evaluate_cause}
use whymiss.Rca.Engine.{
  Rule, first_match, order, analyze_with, analyze, finish, safe_fallback, stamp, settle, clean_pass,
  nothing_owed, engine_bug,
}
use whymiss.Rca.Evidence.{Of}
use whymiss.Rca.Engine.Order.{first_match-peel}

module _ {F : Type 0} (fl : FloatOps F) (tl : Timeline F) (cfg : Config F) where
  stamped_cause : (v : Verdict F) → (stamped fl v).cause ≡ v.cause
  stamped_cause v = ground arith

  -- What `finish` emits has the draft's cause, or one of the two that name no rule.
  finish_cause :
      (v : Verdict F) (outcome : Outcome) (flags : Option RewardFlags) (c : CauseId)
      → (finish fl tl v outcome flags).cause ≡ c
      → c ≢ no_cause
      → c ≢ no_rule_matched
      → v.cause ≡ c
  unfolding finish safe_fallback
  finish_cause v outcome flags c h n m =
      elim (Result-cases (new_verdict fl (stamp fl tl v outcome flags))) [
        | inl (e, p) ↦ elim (Bool-cases (is_no_duty outcome)) [
          | inl o ↦ absurd (n (sym (rw (p, finish, safe_fallback, o) at h)))
          | inr o ↦ absurd (m (sym (rw (p, finish, safe_fallback, o) at h)))
        ]
        | inr (w, p) ↦
            let (_, q) = new_verdict-ok fl _ w p in
            let r : w.cause ≡ c = rw (p, finish) at h in
            sym (stamped_cause (stamp fl tl v outcome flags))
            ∙ sym (ap (λ (x : Verdict F). x.cause) q)
            ∙ r
      ]

  settle_cause :
      (outcome : Outcome) (flags : Option RewardFlags) (d : Option (Verdict F)) (c : CauseId)
      → (settle fl tl outcome flags d).cause ≡ c
      → c ≢ no_cause
      → c ≢ no_rule_matched
      → (v : Verdict F) × (d ≡ some v) × (v.cause ≡ c)
  settle_cause outcome flags none c h n m =
      absurd (m (sym (finish_cause (engine_bug fl tl) outcome flags c h n m)))
  settle_cause outcome flags (some v) c h n m =
      elim (Bool-cases (is_ok outcome && cause_eq v.cause no_rule_matched)) [
        | inl e ↦ absurd (n (sym (finish_cause (clean_pass fl tl) outcome flags c (rw e at h) n m)))
        | inr e ↦ (v, refl, finish_cause v outcome flags c (rw e at h) n m)
      ]

  -- A cause that is emitted, other than those of the engine itself, is the cause of the first rule
  -- that matched.
  pub analyze_with-drafted :
      (rules : List (Rule F)) (c : CauseId)
      → (analyze_with fl tl cfg rules).cause ≡ c
      → c ≢ no_cause
      → c ≢ no_rule_matched
      → (v : Verdict F) × (first_match fl tl cfg rules ≡ some v) × (v.cause ≡ c)
  unfolding analyze_with
  analyze_with-drafted rules c h n m = elim (Bool-cases (is_no_duty (derive_outcome tl).0)) [
    | inl e ↦
        absurd
          (n (sym (finish_cause (nothing_owed fl tl) _ none c (rw (e, analyze_with) at h) n m)))
    | inr e ↦ settle_cause _ _ (first_match fl tl cfg rules) c (rw (e, analyze_with) at h) n m
  ]

  pub data_completeness_cause :
      (v : Verdict F)
      → Rules.DataCompleteness.evaluate tl cfg ≡ some v
      → v.cause ≡ insufficient_data
  unfolding Rules.DataCompleteness.evaluate Rules.DataCompleteness.collection_open
      Rules.DataCompleteness.rewards_unverified
  data_completeness_cause v h = ground arith

  -- Collection ended and was recorded, and an included attestation was checked against the chain.
  pub record IsComplete : Type 0 where
    pub collected :
        (tl.duty ≡ none) ⊎ ((tl.collection_complete ≡ true) × (has collection_completed tl ≡ true))
    pub verified :
        (last attestation_included tl ≡ none)
        ⊎ (Of
            (last attestation_included tl)
            λ o. (is_some (attr o head_correct) ≡ true) × (is_some (attr o target_correct) ≡ true))

  data_completeness-IsComplete : Rules.DataCompleteness.evaluate tl cfg ≡ none → IsComplete
  unfolding Rules.DataCompleteness.evaluate
  data_completeness-IsComplete h = record { collected = ground arith; verified = ground arith }

  -- The causes that rest on timing and on complete data: all but the engine's own and those that
  -- say that the data or the clock would not do.
  pub record IsAttribution (c : CauseId) : Type 0 where
    pub named : c ≢ no_cause
    pub matched : c ≢ no_rule_matched
    pub sufficient : c ≢ insufficient_data
    pub in_time : c ≢ host_clock_drift

  -- What the rules after the first two draft.
  guards_decline :
      (rest : List (Rule F)) (v : Verdict F)
      → first_match fl tl cfg (
          record { id = "R-010"; evaluate = Rules.DataCompleteness.evaluate }
          ∷ record { id = "R-011"; evaluate = Rules.ClockTrust.evaluate fl }
          ∷ rest)
        ≡ some v
      → v.cause ≢ insufficient_data
      → v.cause ≢ host_clock_drift
      → (Rules.DataCompleteness.evaluate tl cfg ≡ none)
        × (Rules.ClockTrust.evaluate fl tl cfg ≡ none)
        × (first_match fl tl cfg rest ≡ some v)
  guards_decline rest v h s t = elim (first_match-peel fl tl cfg _ _ v h) [
    | inl e ↦ absurd (s (data_completeness_cause v e))
    | inr (e, h') ↦ elim (first_match-peel fl tl cfg _ _ v h') [
      | inl e' ↦ elim (evaluate_cause fl tl cfg v e') [
        | inl i ↦ absurd (s i)
        | inr d ↦ absurd (t d)
      ]
      | inr (e', h'') ↦ (e, e', h'')
    ]
  ]

  -- For a timeline whose measured offsets have the instant of their clock sample: a verdict of
  -- `Analyze` that names a cause, other than that the data or the clock would not do, rests on
  -- complete data and a trusted clock. Collection was complete if there was a duty, and an included
  -- attestation was checked against the chain; the clock of every observation of a kind whose timing
  -- counts was measured, at most the permitted age before or after it, and stands within the
  -- configured offset; and so was, for every sample that is not derived, the clock of some sample of
  -- its metric that is not derived and not older.
  pub analyze-trusted :
      (c : CauseId)
      → All (λ (o : Observation). HasInstant o.clock_measured o.clock_sample_at) tl.observations
      → All (λ (m : MetricSample F). HasInstant m.clock_measured m.clock_sample_at) tl.samples
      → (analyze fl tl cfg).cause ≡ c
      → IsAttribution c
      → IsComplete
        × All (IsTrustedObservation cfg) tl.observations
        × All (IsBacked cfg tl.samples) tl.samples
  unfolding analyze order
  analyze-trusted c obs samples h a =
      let (v, m, p) = analyze_with-drafted (order fl) c h a.named a.matched in
      let (d, t, _) =
        guards_decline _ v m (λ e. a.sufficient (sym p ∙ e)) (λ e. a.in_time (sym p ∙ e)) in
      let (os, ms) = evaluate-IsTrusted fl tl cfg obs samples t in
      (data_completeness-IsComplete d, os, ms)
