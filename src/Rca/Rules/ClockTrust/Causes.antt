-- ===== src/Rca/Rules/ClockTrust/Causes.antt =====
-- What R-011 of internal/rca/rules/r011_clock_trust.go says when it matches.
use whymiss.Prelude.{some_inj, sym, List, [], ◌∷◌, some, ◌≡◌, ap, ◌∙◌, ◌⊎◌, inl, inr, arith}
use whymiss.Prelude.Float.{FloatOps}
use whymiss.Domain.Observation.{Observation}
use whymiss.Domain.Sample.{MetricSample}
use whymiss.Domain.Timeline.{Timeline}
use whymiss.Domain.Cause.{insufficient_data, host_clock_drift}
use whymiss.Domain.Verdict.{Verdict}
use whymiss.Rca.Config.{Config}
use whymiss.Rca.Rules.ClockTrust.{
  Worst, no_worst, stop, go, check_observation, check_observations, latest_samples, check_sample,
  check_samples, conclude, evaluate, insufficient_clock, drift,
}
use whymiss.Rca.Rules.ClockTrust.Trusted.{Step-cases, stop_ne}

module _ {F : Type 0} (fl : FloatOps F) (tl : Timeline F) (cfg : Config F) where
  check_observation-stop :
      (w : Worst) (o : Observation) (v : Verdict F)
      → check_observation tl cfg w o ≡ stop v
      → v.cause ≡ insufficient_data
  unfolding check_observation insufficient_clock
  check_observation-stop w o v h = ground arith

  check_sample-stop :
      (w : Worst) (m : MetricSample F) (v : Verdict F)
      → check_sample tl cfg w m ≡ stop v
      → v.cause ≡ insufficient_data
  unfolding check_sample insufficient_clock
  check_sample-stop w m v h = ground arith

  check_observations-stop :
      (w : Worst) (os : List Observation) (v : Verdict F)
      → check_observations tl cfg w os ≡ stop v
      → v.cause ≡ insufficient_data
  unfolding check_observations
  check_observations-stop w [] v h = absurd (stop_ne (sym h))
  check_observations-stop w (o ∷ os) v h = elim (Step-cases (check_observation tl cfg w o)) [
    | inl (u, e) ↦ check_observation-stop w o v (e ∙ rw (e, check_observations) at h)
    | inr (u, e) ↦ check_observations-stop u os v (rw (e, check_observations) at h)
  ]

  check_samples-stop :
      (w : Worst) (ms : List (MetricSample F)) (v : Verdict F)
      → check_samples tl cfg w ms ≡ stop v
      → v.cause ≡ insufficient_data
  unfolding check_samples
  check_samples-stop w [] v h = absurd (stop_ne (sym h))
  check_samples-stop w (m ∷ ms) v h = elim (Step-cases (check_sample tl cfg w m)) [
    | inl (u, e) ↦ check_sample-stop w m v (e ∙ rw (e, check_samples) at h)
    | inr (u, e) ↦ check_samples-stop u ms v (rw (e, check_samples) at h)
  ]

  conclude_cause :
      (w : Worst) (v : Verdict F) → conclude fl cfg (go w) ≡ some v → v.cause ≡ host_clock_drift
  unfolding drift
  conclude_cause w v h = ground arith

  -- A verdict of R-011 says that the clock drifted or that the data was not enough.
  pub evaluate_cause :
      (v : Verdict F)
      → evaluate fl tl cfg ≡ some v
      → (v.cause ≡ insufficient_data) ⊎ (v.cause ≡ host_clock_drift)
  unfolding evaluate
  evaluate_cause v h = elim (Step-cases (check_observations tl cfg no_worst tl.observations)) [
    | inl (u, e) ↦
        let p : u ≡ v = some_inj (rw (e, evaluate) at h) in
        inl (
          check_observations-stop no_worst tl.observations v (e ∙ ap (λ (x : Verdict F). stop x) p))
    | inr (w, e) ↦ elim (Step-cases (check_samples tl cfg w (latest_samples [] tl.samples))) [
      | inl (u, e') ↦
          let p : u ≡ v = some_inj (rw (e, e', evaluate) at h) in
          inl (
            check_samples-stop w (latest_samples [] tl.samples) v
              (e' ∙ ap (λ (x : Verdict F). stop x) p))
      | inr (w', e') ↦ inr (conclude_cause w' v (rw (e, e', evaluate) at h))
    ]
  ]
