-- ===== src/Rca/Rules/VcDisconnected.antt =====
-- internal/rca/rules/r400_vc_disconnected.go: R-400.
use whymiss.Prelude.{Bool, false, ◌||◌, not, [], ◌∷◌, Option, none, some, if◌then◌else◌}
use whymiss.Prelude.Time.{Time, before}
use whymiss.Domain.Slot.{derived}
use whymiss.Domain.Kinds.{
  attestation_published, attestation_included, head_updated, collection_completed,
}
use whymiss.Domain.Observation.{Observation}
use whymiss.Domain.Timeline.{Timeline, first, has, attestation_deadline}
use whymiss.Domain.Cause.{vc_disconnected}
use whymiss.Domain.Verdict.{Verdict, medium, txt}
use whymiss.Rca.Config.{Config}
use whymiss.Rca.Stages.{timed_block_seen}
use whymiss.Rca.Draft.{draft, stated}

-- `!ok || !obs.At.Before(deadline)`, negated.
abbrev pub stands_before : Time → Option Observation → Bool
stands_before deadline none = false
stands_before deadline (some o) = before o.at deadline

module _ {F : Type 0} where
  unfoldable pub disconnected : Observation → Verdict F
  disconnected completed =
      draft vc_disconnected medium
        (stated completed.at derived (
            txt
              "the beacon node updated head before the deadline, but no attestation_published or attestation_included observation exists — the validator client never produced an attestation"
            ∷ [])
          ∷ [])
        ("check the validator client process is running and its beacon-node endpoint is correct"
          ∷ "if using multiple beacon nodes, verify fallback ordering behaved as intended" ∷ [])

  abbrev by_completion : Option Observation → Option (Verdict F)
  by_completion none = none
  by_completion (some completed) = some (disconnected completed)

  unfoldable pub evaluate : Timeline F → Config F → Option (Verdict F)
  evaluate tl cfg =
      if has attestation_published tl || has attestation_included tl
      then none
      else if not (stands_before (attestation_deadline tl) (timed_block_seen tl))
      then none
      else if not (stands_before (attestation_deadline tl) (first head_updated tl))
      then none
      else by_completion (first collection_completed tl)
