-- ===== src/Rca/Rules/NetworkLateBlock.antt =====
-- internal/rca/rules/r110_network_late_block.go: R-110.
use whymiss.Prelude.{◌||◌, not, [], ◌∷◌, Option, none, some, if◌then◌else◌}
use whymiss.Prelude.Int.{pos, ◌-ℤ◌, ltb_ℤ, leb_ℤ, wrap64}
use whymiss.Prelude.Time.{Duration, add_time}
use whymiss.Prelude.Float.{FloatOps, millis}
use whymiss.Domain.Slot.{promscrape, derived}
use whymiss.Domain.Sample.{NetworkBaseline}
use whymiss.Domain.Timeline.{Timeline}
use whymiss.Domain.Cause.{insufficient_data, late_block}
use whymiss.Domain.Verdict.{Verdict, Confidence, high, medium, low, txt, dur, milliseconds}
use whymiss.Rca.Config.{Config}
use whymiss.Rca.Stages.{compute_stages}
use whymiss.Rca.Facts.{budget, propagation_overspent}
use whymiss.Rca.Draft.{draft, stated, compared}

-- The distance of the local arrival from the network's median.
unfoldable pub deviation : Duration → Duration → Duration
deviation local p50 =
    let d = wrap64 (local -ℤ p50) in if ltb_ℤ d (pos 0) then wrap64 (pos 0 -ℤ d) else d

-- A thin sample caps the confidence.
abbrev pub baseline_confidence : NetworkBaseline → Confidence
baseline_confidence n = if ltb_ℤ n.samples (pos 10) then medium else high

module _ {F : Type 0} (fl : FloatOps F) where
  unfoldable pub no_baseline : Timeline F → Verdict F
  no_baseline tl =
      draft insufficient_data low
        (stated tl.slot_start promscrape (
            txt "local block arrival at +"
            ∷ dur (compute_stages tl).propagation_time
            ∷ txt
                " exhausted the attestation budget, but no network baseline exists to distinguish network-wide lateness from local propagation"
            ∷ [])
          ∷ [])
        ("enable the opt-in network baseline to distinguish network-wide lateness from local propagation"
          ∷ [])

  unfoldable pub network_wide : Timeline F → NetworkBaseline → Duration → Verdict F
  network_wide tl n local =
      draft late_block (baseline_confidence n)
        (compared (add_time tl.slot_start local) derived
            (txt "local block arrival at +"
              ∷ dur local
              ∷ txt " exceeded the +"
              ∷ dur (budget fl tl)
              ∷ txt " attestation deadline"
              ∷ [])
            "local block arrival vs attestation deadline" (millis fl local)
            (millis fl (budget fl tl)) milliseconds
          ∷ compared tl.slot_start n.source
              (txt "network p50 was +"
                ∷ dur n.block_arrival_p50
                ∷ txt " (p90 +"
                ∷ dur n.block_arrival_p90
                ∷ txt "), within "
                ∷ dur (deviation local n.block_arrival_p50)
                ∷ txt " of local arrival"
                ∷ [])
              "local block arrival vs network p50" (millis fl local) (millis fl n.block_arrival_p50)
              milliseconds
          ∷ [])
        []

  abbrev by_baseline : Timeline F → Config F → Option NetworkBaseline → Option (Verdict F)
  by_baseline tl cfg none = some (no_baseline tl)
  by_baseline tl cfg (some n) =
      let local = (compute_stages tl).propagation_time in
      if leb_ℤ local (budget fl tl) || leb_ℤ n.block_arrival_p50 (budget fl tl)
      then none
      else if leb_ℤ cfg.network_deviation (deviation local n.block_arrival_p50)
      then none
      else some (network_wide tl n local)

  unfoldable pub evaluate : Timeline F → Config F → Option (Verdict F)
  evaluate tl cfg =
      if not (propagation_overspent fl tl cfg) then none else by_baseline tl cfg tl.network
