-- ===== src/Rca/Rules/P2pDegraded.antt =====
-- internal/rca/rules/r200_p2p_degraded.go: R-200.
use whymiss.Prelude.{not, [], ◌∷◌, Option, none, some, if◌then◌else◌}
use whymiss.Prelude.Int.{ltb_ℤ}
use whymiss.Prelude.Time.{add_time}
use whymiss.Prelude.Float.{FloatOps, millis, le_f}
use whymiss.Domain.Slot.{promscrape}
use whymiss.Domain.Sample.{NetworkBaseline}
use whymiss.Domain.Timeline.{Timeline}
use whymiss.Domain.Cause.{p2p_degraded}
use whymiss.Domain.Verdict.{Verdict, txt, dur, num, milliseconds, count}
use whymiss.Rca.Config.{Config}
use whymiss.Rca.Stages.{compute_stages}
use whymiss.Rca.Facts.{budget, propagation_overspent, Fact, peer_count_fact}
use whymiss.Rca.Draft.{draft, compared}
use whymiss.Rca.Rules.NetworkLateBlock.{baseline_confidence}

module _ {F : Type 0} (fl : FloatOps F) where
  unfoldable pub degraded : Timeline F → Config F → NetworkBaseline → Fact F → Verdict F
  degraded tl cfg n peers =
      let local = (compute_stages tl).propagation_time in
      draft p2p_degraded (baseline_confidence n)
        (compared (add_time tl.slot_start local) promscrape
            (txt "local block propagation consumed "
              ∷ dur local
              ∷ txt ", exceeding the "
              ∷ dur (budget fl tl)
              ∷ txt " attestation budget"
              ∷ [])
            "local block arrival vs attestation deadline" (millis fl local)
            (millis fl (budget fl tl)) milliseconds
          ∷ compared tl.slot_start n.source
              (txt "the independent network p50 was timely at +"
                ∷ dur n.block_arrival_p50
                ∷ txt " (p90 +"
                ∷ dur n.block_arrival_p90
                ∷ txt ")"
                ∷ [])
              "network p50 vs attestation deadline" (millis fl n.block_arrival_p50)
              (millis fl (budget fl tl)) milliseconds
          ∷ compared peers.at peers.source
              (txt "connected peer count "
                ∷ num peers.reading
                ∷ txt " was below the configured minimum "
                ∷ num cfg.peer_count_min
                ∷ [])
              "connected peers" peers.reading cfg.peer_count_min count
          ∷ [])
        ("confirm inbound TCP/UDP ports are open and forwarded (typically 30303 EL / 9000 CL — verify against your own config)"
          ∷ "raise the target peer count in your consensus client configuration" ∷ [])

  abbrev by_peers : Timeline F → Config F → NetworkBaseline → Option (Fact F) → Option (Verdict F)
  by_peers tl cfg n none = none
  by_peers tl cfg n (some peers) =
      if le_f fl cfg.peer_count_min peers.reading then none else some (degraded tl cfg n peers)

  abbrev by_baseline : Timeline F → Config F → Option NetworkBaseline → Option (Verdict F)
  by_baseline tl cfg none = none
  by_baseline tl cfg (some n) =
      if ltb_ℤ (budget fl tl) n.block_arrival_p50
      then none
      else by_peers tl cfg n (peer_count_fact fl tl)

  unfoldable pub evaluate : Timeline F → Config F → Option (Verdict F)
  evaluate tl cfg =
      if not (propagation_overspent fl tl cfg) then none else by_baseline tl cfg tl.network
