-- ===== src/Rca/Rules/CatchAll.antt =====
-- internal/rca/rules/r999_catch_all.go: R-999.
use Prim.Native.String.{◌++◌ as append_text}
use whymiss.Prelude.{
  Bool, true, false, ◌&&◌, not, List, [], ◌∷◌, ◌++◌, Option, none, some, String, if◌then◌else◌,
}
use whymiss.Prelude.Int.{pos}
use whymiss.Prelude.Time.{Time, Duration}
use whymiss.Prelude.Float.{FloatOps, millis}
use whymiss.Domain.Slot.{derived, Stage, propagation, validation, signing, other_stage}
use whymiss.Domain.Kinds.{collection_completed}
use whymiss.Domain.Observation.{Observation}
use whymiss.Domain.Timeline.{Timeline, first}
use whymiss.Domain.Cause.{insufficient_data, no_rule_matched}
use whymiss.Domain.Verdict.{Verdict, Evidence, low, txt, dur, num, milliseconds, ratio}
use whymiss.Rca.Config.{Config}
use whymiss.Rca.Stages.{compute_stages, share, total}
use whymiss.Rca.Facts.{duty_has_observable_loss}
use whymiss.Rca.Draft.{draft, stated, compared}
use whymiss.Rca.Rules.ClSlow.{share_or_zero}

abbrev pub stage_name : Stage → String
stage_name propagation = "propagation"
stage_name validation = "validation"
stage_name signing = "signing"
stage_name (other_stage s) = s

abbrev pub at_or : Time → Option Observation → Time
at_or t none = t
at_or t (some o) = o.at

module _ {F : Type 0} (fl : FloatOps F) where
  unfoldable pub untimed : Timeline F → Verdict F
  untimed tl =
      draft insufficient_data low
        (stated (at_or tl.slot_start (first collection_completed tl)) derived (
            txt
              "no stage of this duty was timed: block arrival was never measured, so propagation, validation, and signing durations are all unknown and no timing rule could be evaluated"
            ∷ [])
          ∷ stated tl.slot_start derived (
              txt
                "the Beacon API's polled block_seen records when the collector noticed the block, not when it arrived, and is deliberately not used as a stage boundary"
              ∷ [])
          ∷ [])
        ("set --cl-metrics-api to the consensus client's Prometheus endpoint so block arrival is measured rather than polled; without it no timing-based cause can be attributed"
          ∷ "set --baseline-beacon-api as well if you need network-wide lateness told apart from local lateness — any independent node you can reach will do, and --baseline-metrics-api on top of it is optional (ADR-0025)"
          ∷ [])

  -- One round of the loop over the stages.
  unfoldable pub stage_evidence : Timeline F → Stage → Duration → Bool → List (Evidence F)
  stage_evidence tl stage value false =
      stated tl.slot_start derived (
        txt (stage_name stage)
        ∷ txt
            " stage duration and share were unavailable because its timing boundary was not observed"
        ∷ [])
      ∷ []
  stage_evidence tl stage value true =
      let s = compute_stages tl in
      let part = share_or_zero fl (share fl s stage) in
      compared tl.slot_start derived
        (txt (stage_name stage) ∷ txt " stage duration was " ∷ dur value ∷ [])
        (append_text (stage_name stage) " duration") (millis fl value) (millis fl (total s))
        milliseconds
      ∷ compared tl.slot_start derived
          (txt (stage_name stage)
            ∷ txt " stage accounted for "
            ∷ num (fl.mul part (fl.lit (pos 100) 0))
            ∷ txt "% of known stage time"
            ∷ [])
          (append_text (stage_name stage) " share") part (fl.lit (pos 1) 0) ratio
      ∷ []

  unfoldable pub unmatched : Timeline F → Verdict F
  unmatched tl =
      let s = compute_stages tl in
      draft no_rule_matched low
        (stated (at_or tl.slot_start (first collection_completed tl)) derived (
            txt
              "data was complete and trustworthy, yet no rule in the ordered sequence matched — this is a taxonomy gap, not an operator problem"
            ∷ [])
          ∷ (stage_evidence tl propagation s.propagation_time s.has_propagation
              ++ (stage_evidence tl validation s.validation_time s.has_validation
                  ++ stage_evidence tl signing s.signing_time s.has_signing)))
        ("this is a taxonomy gap and a project bug, not an operator problem — file an issue with this timeline attached; every occurrence should become a corpus scenario"
          ∷ [])

  unfoldable pub evaluate : Timeline F → Config F → Option (Verdict F)
  evaluate tl cfg =
      let s = compute_stages tl in
      if duty_has_observable_loss tl
        && (not s.has_propagation && (not s.has_validation && not s.has_signing))
      then some (untimed tl)
      else some (unmatched tl)
