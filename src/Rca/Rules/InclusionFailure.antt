-- ===== src/Rca/Rules/InclusionFailure.antt =====
-- internal/rca/rules/r500_inclusion_failure.go: R-500.
use whymiss.Prelude.{not, List, [], ◌∷◌, ◌++◌, map, Option, none, some, String, if◌then◌else◌}
use whymiss.Prelude.Text.{str_eq}
use whymiss.Prelude.Time.{before, sub_time}
use whymiss.Domain.Slot.{beaconapi, derived}
use whymiss.Domain.Kinds.{
  attestation_published, attestation_included, head_updated, collection_completed, reorg,
}
use whymiss.Domain.Attrs.{block_root}
use whymiss.Domain.Observation.{Observation, attr}
use whymiss.Domain.Timeline.{Timeline, first, has, attestation_deadline, is_kind}
use whymiss.Domain.Cause.{inclusion_failure, insufficient_data}
use whymiss.Domain.Verdict.{Verdict, Evidence, medium, low, txt, dur, nat}
use whymiss.Rca.Config.{Config}
use whymiss.Rca.Draft.{draft, stated}

module _ {F : Type 0} where
  abbrev reorg_context_evidence : Observation → Evidence F
  reorg_context_evidence o = stated o.at o.source (
      txt "a chain reorganisation was observed at slot "
      ∷ nat o.slot
      ∷ txt
          " within the inclusion window; it is context, not proof that this attestation was removed"
      ∷ [])

  unfoldable pub reorg_evidence : List Observation → List (Evidence F)
  reorg_evidence [] = []
  reorg_evidence (o ∷ rest) =
      let later = reorg_evidence rest in
      if is_kind reorg o then reorg_context_evidence o ∷ later else later

  unfoldable pub roots_unknown : Observation → Verdict F
  roots_unknown published =
      draft insufficient_data low
        (stated published.at derived (
            txt
              "the attestation was published on time but its voted head could not be compared with a canonical head observation"
            ∷ [])
          ∷ [])
        ("inspect collector errors and recollect with canonical head-root evidence before attributing non-inclusion"
          ∷ [])

  unfoldable pub not_included :
      Timeline F → Observation → Observation → Observation → String → Verdict F
  not_included tl published completed head root =
      draft inclusion_failure medium
        (stated published.at beaconapi (
            txt "attestation_published exists at +"
            ∷ dur (sub_time published.at tl.slot_start)
            ∷ txt ", before the attestation deadline"
            ∷ [])
          ∷ stated completed.at derived (
              txt "the complete inclusion window closed with no attestation_included observation"
              ∷ [])
          ∷ stated head.at beaconapi
              (txt "the attestation voted for canonical head root " ∷ txt root ∷ [])
          ∷ (reorg_evidence tl.observations ++ map reorg_context_evidence tl.reorgs))
        ("verify inbound P2P ports are reachable, since poor connectivity reduces the chance an aggregator sees your attestation"
          ∷ "if recurring, correlate with local.p2p_degraded frequency" ∷ [])

  abbrev by_roots :
      Timeline F
      → Observation
      → Observation
      → Observation
      → Option String
      → Option String
      → Option (Verdict F)
  by_roots tl published completed head (some root) (some head_root) =
      if not (str_eq root head_root)
      then none
      else some (not_included tl published completed head root)
  by_roots tl published completed head _ _ = some (roots_unknown published)

  abbrev by_head : Timeline F → Observation → Observation → Option Observation → Option (Verdict F)
  by_head tl published completed none = some (roots_unknown published)
  by_head tl published completed (some head) =
      by_roots tl published completed head (attr published block_root) (attr head block_root)

  abbrev by_completion : Timeline F → Observation → Option Observation → Option (Verdict F)
  by_completion tl published none = none
  by_completion tl published (some completed) =
      by_head tl published completed (first head_updated tl)

  abbrev by_publication : Timeline F → Option Observation → Option (Verdict F)
  by_publication tl none = none
  by_publication tl (some published) =
      if has attestation_included tl
      then none
      else if not (before published.at (attestation_deadline tl))
      then none
      else by_completion tl published (first collection_completed tl)

  unfoldable pub evaluate : Timeline F → Config F → Option (Verdict F)
  evaluate tl cfg = by_publication tl (first attestation_published tl)
