-- ===== src/Rca/Rules/VcSlow.antt =====
-- internal/rca/rules/r410_vc_slow.go: R-410.
use whymiss.Prelude.{◌||◌, not, [], ◌∷◌, Option, none, some, if◌then◌else◌}
use whymiss.Prelude.Time.{before, after, sub_time}
use whymiss.Prelude.Float.{FloatOps}
use whymiss.Domain.Slot.{beaconapi, signing}
use whymiss.Domain.Kinds.{attestation_published, head_updated}
use whymiss.Domain.Observation.{Observation}
use whymiss.Domain.Timeline.{Timeline, first, attestation_deadline}
use whymiss.Domain.Cause.{vc_slow}
use whymiss.Domain.Verdict.{Verdict, medium, txt, dur}
use whymiss.Rca.Config.{Config}
use whymiss.Rca.Stages.{timed_block_seen, compute_stages, dominant}
use whymiss.Rca.Facts.{is_stage}
use whymiss.Rca.Draft.{draft, stated}

module _ {F : Type 0} (fl : FloatOps F) where
  unfoldable pub slow : Timeline F → Observation → Observation → Verdict F
  slow tl head published =
      draft vc_slow medium
        (stated published.at beaconapi (
            txt "the canonical head updated at +"
            ∷ dur (sub_time head.at tl.slot_start)
            ∷ txt ", before the attestation deadline (+"
            ∷ dur tl.schedule.attestation_deadline
            ∷ txt "), but the attestation was not published until +"
            ∷ dur (sub_time published.at tl.slot_start)
            ∷ txt ", after it"
            ∷ [])
          ∷ [])
        ("if using a remote signer (Web3Signer or similar), measure its latency — it is frequently the culprit and rarely monitored"
          ∷ "check for CPU contention on the validator client host"
          ∷ "confirm validator client and beacon node clocks agree" ∷ [])

  abbrev by_times :
      Timeline F
      → Config F
      → Option Observation
      → Option Observation
      → Option Observation
      → Option (Verdict F)
  by_times tl cfg (some block) (some head) (some published) =
      if not (before block.at (attestation_deadline tl))
        || not (before head.at (attestation_deadline tl))
        || not (after published.at (attestation_deadline tl))
      then none
      else if not (is_stage signing (dominant fl (compute_stages tl) cfg))
      then none
      else some (slow tl head published)
  by_times tl cfg _ _ _ = none

  unfoldable pub evaluate : Timeline F → Config F → Option (Verdict F)
  evaluate tl cfg =
      by_times tl cfg (timed_block_seen tl) (first head_updated tl) (first attestation_published tl)
