-- ===== src/Rca/Rules/DataCompleteness.antt =====
-- internal/rca/rules/r010_data_completeness.go: R-010.
use whymiss.Prelude.{◌&&◌, ◌||◌, not, is_some, [], ◌∷◌, Option, none, some, if◌then◌else◌}
use whymiss.Domain.Slot.{derived}
use whymiss.Domain.Kinds.{collection_completed, attestation_included}
use whymiss.Domain.Attrs.{head_correct, target_correct}
use whymiss.Domain.Observation.{Observation, attr}
use whymiss.Domain.Timeline.{Timeline, has, last}
use whymiss.Domain.Cause.{insufficient_data}
use whymiss.Domain.Verdict.{Verdict, low, txt}
use whymiss.Rca.Config.{Config}
use whymiss.Rca.Draft.{draft, stated}

module _ {F : Type 0} where
  unfoldable pub collection_open : Timeline F → Verdict F
  collection_open tl =
      draft insufficient_data low
        (stated tl.slot_start derived (
            txt
              "the collector did not record successful completion of the full observation and inclusion window, so missing evidence cannot be interpreted"
            ∷ [])
          ∷ [])
        ("wait for collection to finish; if the window already elapsed, inspect collector errors and recollect rather than interpreting missing observations"
          ∷ [])

  unfoldable pub rewards_unverified : Observation → Verdict F
  rewards_unverified included =
      draft insufficient_data low
        (stated included.at derived (
            txt
              "the included attestation lacks canonical head/target verification, so its reward flags cannot be determined"
            ∷ [])
          ∷ [])
        ("regenerate or recollect the slot with a collector that records head_correct and target_correct"
          ∷ [])

  abbrev unverified : Option Observation → Option (Verdict F)
  unverified none = none
  unverified (some o) =
      if not (is_some (attr o head_correct)) || not (is_some (attr o target_correct))
      then some (rewards_unverified o)
      else none

  unfoldable pub evaluate : Timeline F → Config F → Option (Verdict F)
  evaluate tl cfg =
      if is_some tl.duty && (not tl.collection_complete || not (has collection_completed tl))
      then some (collection_open tl)
      else unverified (last attestation_included tl)
