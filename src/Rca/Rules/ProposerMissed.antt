-- ===== src/Rca/Rules/ProposerMissed.antt =====
-- internal/rca/rules/r100_proposer_missed.go: R-100.
use whymiss.Prelude.{Bool, false, ◌||◌, not, [], ◌∷◌, Option, none, some, if◌then◌else◌}
use whymiss.Prelude.Float.{FloatOps}
use whymiss.Domain.Slot.{beaconapi, derived}
use whymiss.Domain.Duty.{Duty, is_attester}
use whymiss.Domain.Kinds.{
  block_skipped, block_seen, head_updated, block_proposed, attestation_included,
  attestation_published,
}
use whymiss.Domain.Observation.{Observation}
use whymiss.Domain.Timeline.{Timeline, first, last, has}
use whymiss.Domain.Cause.{proposer_missed, insufficient_data}
use whymiss.Domain.Verdict.{Verdict, Evidence, high, low, txt, dur}
use whymiss.Rca.Config.{Config}
use whymiss.Rca.Facts.{budget}
use whymiss.Rca.Draft.{draft, stated}

abbrev pub owes_attestation : Option Duty → Bool
owes_attestation none = false
owes_attestation (some d) = is_attester d.kind

module _ {F : Type 0} (fl : FloatOps F) where
  abbrev skip_evidence : Observation → Evidence F
  skip_evidence skipped =
      stated skipped.at beaconapi
        (txt "a fully synced beacon node confirmed that the canonical chain skipped this slot" ∷ [])

  unfoldable pub exonerated : Observation → Observation → Verdict F
  exonerated skipped included =
      draft proposer_missed high
        (skip_evidence skipped
          ∷ stated included.at beaconapi (
              txt
                "the attester's own attestation for this duty was included on chain, so the local attestation path was working while the slot was skipped"
              ∷ [])
          ∷ [])
        []

  unfoldable pub ambiguous : Timeline F → Observation → Verdict F
  ambiguous tl skipped =
      draft insufficient_data low
        (skip_evidence skipped
          ∷ stated tl.slot_start derived (
              txt
                "no attestation_published and no attestation_included observation exists for this duty, so the skip cannot be shown to be the whole reason the duty was lost — an attester publishes and is included normally on a skipped slot"
              ∷ [])
          ∷ stated tl.slot_start derived (
              txt "attributing this slot needs evidence the local path was alive at the "
              ∷ dur (budget fl tl)
              ∷ txt
                  " deadline, which a skipped slot cannot supply: with no block there is no block_seen or head_updated to measure the beacon node against"
              ∷ [])
          ∷ [])
        ("check whether the validator client was running and connected at this slot; a canonical skip does not explain a missing attestation"
          ∷ "confirm the validator client logs show an attestation attempt for this slot, which is the one fact this timeline cannot supply"
          ∷ [])

  abbrev by_inclusion : Timeline F → Observation → Option Observation → Option (Verdict F)
  by_inclusion tl skipped (some included) = some (exonerated skipped included)
  by_inclusion tl skipped none =
      if has attestation_published tl then none else some (ambiguous tl skipped)

  abbrev by_skip : Timeline F → Option Observation → Option (Verdict F)
  by_skip tl none = none
  by_skip tl (some skipped) =
      if has block_seen tl || has head_updated tl || has block_proposed tl
      then none
      else by_inclusion tl skipped (last attestation_included tl)

  unfoldable pub evaluate : Timeline F → Config F → Option (Verdict F)
  evaluate tl cfg =
      if not (owes_attestation tl.duty) then none else by_skip tl (first block_skipped tl)
