-- ===== src/Rca/Rules/HostFallback.antt =====
-- internal/rca/rules/r600_host_fallback.go: R-600.
use whymiss.Prelude.{not, List, [], ◌∷◌, Option, none, some, String, if◌then◌else◌}
use whymiss.Prelude.Float.{FloatOps}
use whymiss.Domain.Timeline.{Timeline}
use whymiss.Domain.Cause.{CauseId, host_disk_io, host_cpu_steal, host_memory_pressure, cause_name}
use whymiss.Domain.Verdict.{Verdict, Statement, medium, txt, num, percent}
use whymiss.Rca.Config.{Config}
use whymiss.Rca.Facts.{Fact, host_sample_fact, duty_has_observable_loss}
use whymiss.Rca.Draft.{draft, compared}

module _ {F : Type 0} (fl : FloatOps F) where
  unfoldable pub host_verdict : CauseId → Statement F → Fact F → F → List String → Verdict F
  host_verdict cause statement fact expected remediation =
      draft cause medium
        (compared fact.at fact.source statement (cause_name cause) fact.reading expected percent
          ∷ [])
        remediation

  unfoldable pub disk : Config F → Fact F → Verdict F
  unfolding host_verdict
  disk cfg fact =
      host_verdict host_disk_io
        (txt "host I/O pressure (PSI some avg10 "
          ∷ num fact.reading
          ∷ txt "%) exceeded the "
          ∷ num cfg.io_wait_pct
          ∷ txt "% threshold"
          ∷ [])
        fact cfg.io_wait_pct
        ("identify the process generating the I/O; if it is the execution client, this is really local.el_slow.disk_saturation and the taxonomy should be reviewed"
          ∷ "if it is something else, move that workload off the staking box" ∷ [])

  unfoldable pub steal : Config F → Fact F → Verdict F
  unfolding host_verdict
  steal cfg fact =
      host_verdict host_cpu_steal
        (txt "CPU steal time ("
          ∷ num fact.reading
          ∷ txt "% over the latest sampling interval) exceeded the "
          ∷ num cfg.cpu_steal_pct
          ∷ txt "% threshold"
          ∷ [])
        fact cfg.cpu_steal_pct
        ("this is a noisy-neighbour problem and is not fixable in software — move to dedicated hardware or a provider with committed CPU"
          ∷ [])

  unfoldable pub memory : Config F → Fact F → Verdict F
  unfolding host_verdict
  memory cfg fact =
      host_verdict host_memory_pressure
        (txt "memory pressure (PSI some avg10 "
          ∷ num fact.reading
          ∷ txt "%) exceeded the "
          ∷ num cfg.psi_mem_avg10
          ∷ txt "% threshold"
          ∷ [])
        fact cfg.psi_mem_avg10
        ("add RAM or reduce the client cache settings" ∷ "never run a validator on a box that swaps"
          ∷ [])

  -- `ok && value > threshold`
  abbrev pub exceeds : F → Option (Fact F) → Option (Fact F)
  exceeds threshold none = none
  exceeds threshold (some fact) = if fl.lt threshold fact.reading then some fact else none

  unfoldable pub evaluate : Timeline F → Config F → Option (Verdict F)
  evaluate tl cfg =
      if not (duty_has_observable_loss tl)
      then none
      else elim (exceeds cfg.io_wait_pct (host_sample_fact fl tl "iowait_pct" "host_iowait_pct")) [
        | some fact ↦ some (disk cfg fact)
        | none ↦
            elim (exceeds cfg.cpu_steal_pct
              (host_sample_fact fl tl "cpu_steal_pct" "host_cpu_steal_pct")) [
                | some fact ↦ some (steal cfg fact)
                | none ↦
                    elim (exceeds cfg.psi_mem_avg10
                      (host_sample_fact fl tl "mem_pressure_pct" "host_mem_pressure_pct")) [
                        | some fact ↦ some (memory cfg fact)
                        | none ↦ none
                      ]
              ]
      ]
