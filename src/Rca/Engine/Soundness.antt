-- ===== src/Rca/Engine/Soundness.antt =====
-- What stands on the timeline when internal/rca/engine.go names a cause.
use whymiss.Prelude.{
  ◌∙◌, true_ne_false, none_ne_some, sym, List, [], ◌∷◌, some, ◌≡◌, refl, subst, ◌⊎◌, inl, inr,
  arith, All, Bool-cases,
}
use whymiss.Prelude.Float.{FloatOps}
use whymiss.Domain.Timeline.{Timeline}
use whymiss.Domain.Cause.{
  CauseId, cause_eq, no_cause, no_rule_matched, insufficient_data, host_clock_drift,
  proposer_missed, late_block, payload_late, p2p_degraded, el_slow, cl_slow, vc_disconnected,
  vc_slow, inclusion_failure, host_disk_io, host_cpu_steal, host_memory_pressure,
}
use whymiss.Domain.Cause.Hierarchy.{cause_eq_iff}
use whymiss.Domain.Verdict.{Verdict}
use whymiss.Rca.Config.{Config}
use whymiss.Rca.Rules
use whymiss.Rca.Rules.ClockTrust.Causes.{evaluate_cause}
use whymiss.Rca.Evidence.{
  IsSkippedSlot, IsPayloadLate, IsDisconnected, IsLeftOut, IsLateEverywhere, IsLateHere,
  IsEngineSlow, IsConsensusSlow, IsSignedLate, IsHostBusy,
}
use whymiss.Rca.Evidence.External.{
  Names, proposer_missed-evidence, late_block-evidence, p2p_degraded-evidence,
  payload_late-evidence,
}
use whymiss.Rca.Evidence.Local.{
  vc_disconnected-evidence, vc_slow-evidence, inclusion_failure-evidence, el_slow-evidence,
  cl_slow-evidence, host_fallback-evidence,
}
use whymiss.Rca.Engine.{Rule, first_match, order, analyze}
use whymiss.Rca.Engine.Order.{first_match-peel}
use whymiss.Rca.Engine.Trust.{analyze_with-drafted, data_completeness_cause}

module _ {F : Type 0} (fl : FloatOps F) (tl : Timeline F) (cfg : Config F) where
  -- The evidence that each cause needs. None is asked for where no cause is named, and for those
  -- that say that the data or the clock would not do. The other causes have none.
  abbrev pub Supported : CauseId → Type 0
  Supported proposer_missed = IsSkippedSlot tl
  Supported late_block = IsLateEverywhere fl tl cfg
  Supported payload_late = IsPayloadLate tl
  Supported p2p_degraded = IsLateHere fl tl cfg
  Supported el_slow = IsEngineSlow fl tl cfg
  Supported cl_slow = IsConsensusSlow fl tl cfg
  Supported vc_disconnected = IsDisconnected tl
  Supported vc_slow = IsSignedLate fl tl cfg
  Supported inclusion_failure = IsLeftOut tl
  Supported host_disk_io = IsHostBusy fl tl cfg cfg.io_wait_pct "iowait_pct" "host_iowait_pct"
  Supported host_cpu_steal =
      IsHostBusy fl tl cfg cfg.cpu_steal_pct "cpu_steal_pct" "host_cpu_steal_pct"
  Supported host_memory_pressure =
      IsHostBusy fl tl cfg cfg.psi_mem_avg10 "mem_pressure_pct" "host_mem_pressure_pct"
  Supported no_cause = Unit
  Supported no_rule_matched = Unit
  Supported insufficient_data = Unit
  Supported host_clock_drift = Unit
  Supported _ = ⊥

  abbrev Sound : Rule F → Type 0
  Sound r = (v : Verdict F) → r.evaluate tl cfg ≡ some v → Supported v.cause

  Supported-as : (got c : CauseId) → got ≡ c → Supported c → Supported got
  Supported-as got c e h = subst Supported (sym e) h

  names-Supported : (got c : CauseId) → Names got c (Supported c) → Supported got
  names-Supported got c (inl e) = Supported-as got insufficient_data e tt
  names-Supported got c (inr (e, h)) = Supported-as got c e h

  first_match-Sound :
      (rules : List (Rule F)) (v : Verdict F)
      → All Sound rules
      → first_match fl tl cfg rules ≡ some v
      → Supported v.cause
  unfolding first_match
  first_match-Sound [] v h e = absurd (none_ne_some e)
  first_match-Sound (r ∷ rest) v (s, ss) e = elim (first_match-peel fl tl cfg r rest v e) [
    | inl p ↦ s v p
    | inr (_, p) ↦ first_match-Sound rest v ss p
  ]

  clock_trust-Sound :
      (v : Verdict F) → Rules.ClockTrust.evaluate fl tl cfg ≡ some v → Supported v.cause
  clock_trust-Sound v h = elim (evaluate_cause fl tl cfg v h) [
    | inl e ↦ Supported-as v.cause insufficient_data e tt
    | inr e ↦ Supported-as v.cause host_clock_drift e tt
  ]

  host_fallback-Sound :
      (v : Verdict F) → Rules.HostFallback.evaluate fl tl cfg ≡ some v → Supported v.cause
  host_fallback-Sound v h = elim (host_fallback-evidence fl tl cfg v h) [
    | inl (e, p) ↦ Supported-as v.cause host_disk_io e p
    | inr (inl (e, p)) ↦ Supported-as v.cause host_cpu_steal e p
    | inr (inr (e, p)) ↦ Supported-as v.cause host_memory_pressure e p
  ]

  catch_all_cause :
      (v : Verdict F)
      → Rules.CatchAll.evaluate fl tl cfg ≡ some v
      → (v.cause ≡ insufficient_data) ⊎ (v.cause ≡ no_rule_matched)
  unfolding Rules.CatchAll.evaluate Rules.CatchAll.untimed Rules.CatchAll.unmatched
  catch_all_cause v h = ground arith

  catch_all-Sound : (v : Verdict F) → Rules.CatchAll.evaluate fl tl cfg ≡ some v → Supported v.cause
  catch_all-Sound v h = elim (catch_all_cause v h) [
    | inl e ↦ Supported-as v.cause insufficient_data e tt
    | inr e ↦ Supported-as v.cause no_rule_matched e tt
  ]

  order-Sound : All Sound (order fl)
  unfolding order
  order-Sound = (
    λ v h. Supported-as v.cause insufficient_data (data_completeness_cause fl tl cfg v h) tt,
    (
      clock_trust-Sound,
      (
        λ v h. names-Supported v.cause proposer_missed (proposer_missed-evidence fl tl cfg v h),
        (
          λ v h. names-Supported v.cause payload_late (payload_late-evidence fl tl cfg v h),
          (
            λ v h. names-Supported v.cause late_block (late_block-evidence fl tl cfg v h),
            (
              λ v h. names-Supported v.cause p2p_degraded (p2p_degraded-evidence fl tl cfg v h),
              (
                λ v h. names-Supported v.cause el_slow (el_slow-evidence fl tl cfg v h),
                (
                  λ v h. names-Supported v.cause cl_slow (cl_slow-evidence fl tl cfg v h),
                  (
                    λ v h.
                        names-Supported v.cause vc_disconnected
                          (vc_disconnected-evidence fl tl cfg v h),
                    (
                      λ v h. names-Supported v.cause vc_slow (vc_slow-evidence fl tl cfg v h),
                      (
                        λ v h.
                            names-Supported v.cause inclusion_failure
                              (inclusion_failure-evidence fl tl cfg v h),
                        (host_fallback-Sound, (catch_all-Sound, tt)),
                      ),
                    ),
                  ),
                ),
              ),
            ),
          ),
        ),
      ),
    ),
  )

  -- For every timeline and configuration, the cause that `Analyze` emits has its evidence on the
  -- timeline, and it is none of the refinements of `local.el_slow` and no text outside the taxonomy.
  pub analyze-Supported : Supported (analyze fl tl cfg).cause
  unfolding analyze
  analyze-Supported =
      let c = (analyze fl tl cfg).cause in
      elim (Bool-cases (cause_eq c no_cause)) [
        | inl e ↦ Supported-as c no_cause ((cause_eq_iff c no_cause).0 e) tt
        | inr n ↦ elim (Bool-cases (cause_eq c no_rule_matched)) [
          | inl e ↦ Supported-as c no_rule_matched ((cause_eq_iff c no_rule_matched).0 e) tt
          | inr m ↦
              let (v, d, p) =
                analyze_with-drafted fl tl cfg (order fl) c refl
                  (λ e. true_ne_false (sym ((cause_eq_iff c no_cause).1 e) ∙ n))
                  (λ e. true_ne_false (sym ((cause_eq_iff c no_rule_matched).1 e) ∙ m)) in
              Supported-as c v.cause (sym p) (first_match-Sound (order fl) v order-Sound d)
        ]
      ]
