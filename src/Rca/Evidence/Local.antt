-- ===== src/Rca/Evidence/Local.antt =====
-- What the rules of internal/rca/rules that blame the operator have checked.
use whymiss.Prelude.{some, ◌≡◌, ◌⊎◌, arith}
use whymiss.Prelude.Float.{FloatOps}
use whymiss.Domain.Timeline.{Timeline}
use whymiss.Domain.Verdict.{Verdict}
use whymiss.Domain.Cause.{
  el_slow, cl_slow, vc_slow, vc_disconnected, inclusion_failure, host_disk_io, host_cpu_steal,
  host_memory_pressure,
}
use whymiss.Rca.Config.{Config}
use whymiss.Rca.Facts.{post_propagation_dominant}
use whymiss.Rca.Rules
use whymiss.Rca.Rules.ElSlow.{metric_el_engine_calls_p99_ms}
use whymiss.Rca.Evidence.{
  IsDisconnected, IsLeftOut, IsEngineSlow, IsConsensusSlow, IsSignedLate, IsHostBusy,
}
use whymiss.Rca.Evidence.External.{Names}

module _ {F : Type 0} (fl : FloatOps F) (tl : Timeline F) (cfg : Config F) where
  pub vc_disconnected-evidence :
      (v : Verdict F)
      → Rules.VcDisconnected.evaluate tl cfg ≡ some v
      → Names v.cause vc_disconnected (IsDisconnected tl)
  unfolding Rules.VcDisconnected.evaluate Rules.VcDisconnected.disconnected
  vc_disconnected-evidence v h = ground arith

  pub vc_slow-evidence :
      (v : Verdict F)
      → Rules.VcSlow.evaluate fl tl cfg ≡ some v
      → Names v.cause vc_slow (IsSignedLate fl tl cfg)
  unfolding Rules.VcSlow.evaluate Rules.VcSlow.slow
  vc_slow-evidence v h = ground arith

  pub inclusion_failure-evidence :
      (v : Verdict F)
      → Rules.InclusionFailure.evaluate tl cfg ≡ some v
      → Names v.cause inclusion_failure (IsLeftOut tl)
  unfolding Rules.InclusionFailure.evaluate Rules.InclusionFailure.roots_unknown
      Rules.InclusionFailure.not_included
  inclusion_failure-evidence v h = ground arith

  pub el_slow-evidence :
      (v : Verdict F)
      → Rules.ElSlow.evaluate fl tl cfg ≡ some v
      → Names v.cause el_slow (IsEngineSlow fl tl cfg)
  unfolding Rules.ElSlow.evaluate Rules.ElSlow.slow Rules.ElSlow.head_late
  el_slow-evidence v h = ground arith

  pub cl_slow-evidence :
      (v : Verdict F)
      → Rules.ClSlow.evaluate fl tl cfg ≡ some v
      → Names v.cause cl_slow (IsConsensusSlow fl tl cfg)
  unfolding Rules.ClSlow.evaluate Rules.ClSlow.slow Rules.ElSlow.head_late post_propagation_dominant
  cl_slow-evidence v h = ground arith

  pub host_fallback-evidence :
      (v : Verdict F)
      → Rules.HostFallback.evaluate fl tl cfg ≡ some v
      → ((v.cause ≡ host_disk_io)
          × IsHostBusy fl tl cfg cfg.io_wait_pct "iowait_pct" "host_iowait_pct")
        ⊎ (((v.cause ≡ host_cpu_steal)
              × IsHostBusy fl tl cfg cfg.cpu_steal_pct "cpu_steal_pct" "host_cpu_steal_pct")
            ⊎ ((v.cause ≡ host_memory_pressure)
                × IsHostBusy fl tl cfg cfg.psi_mem_avg10 "mem_pressure_pct"
                    "host_mem_pressure_pct"))
  unfolding Rules.HostFallback.evaluate Rules.HostFallback.disk Rules.HostFallback.steal
      Rules.HostFallback.memory
  host_fallback-evidence v h = ground arith
