-- ===== src/Rca/Engine.antt =====
-- internal/rca/engine.go and internal/rca/rules/order.go: the ordered rules, the first of which that
-- matches decides, and the verdict that is stamped and validated.
pub mod Verdicts
pub mod Validity
pub mod Order
pub mod Trust
pub mod Soundness
pub mod Stamps
use whymiss.Prelude.{
  Bool, true, false, ◌&&◌, List, [], ◌∷◌, map, Option, none, some, String, if◌then◌else◌,
}
use whymiss.Prelude.Time.{Time, sub_time}
use whymiss.Prelude.Float.{FloatOps}
use whymiss.Domain.Errors.{Err, Result}
use whymiss.Domain.Slot.{derived}
use whymiss.Domain.Kinds.{collection_completed}
use whymiss.Domain.Timeline.{Timeline, first}
use whymiss.Domain.Cause.{no_cause, no_rule_matched, cause_eq}
use whymiss.Domain.Verdict.{
  Outcome, RewardFlags, Verdict, Evidence, high, low, txt, fault, is_no_duty, is_ok, new_verdict,
  taxonomy_version,
}
use whymiss.Rca.Config.{Config}
use whymiss.Rca.Outcome.{derive_outcome}
use whymiss.Rca.Draft.{draft, stated}
use whymiss.Rca.Rules
use whymiss.Rca.Rules.CatchAll.{at_or}

abbrev pub engine_version : String
engine_version = "0.15.0"

abbrev taxonomy_gap : String
taxonomy_gap =
    "this is a taxonomy gap and a project bug, not an operator problem — file an issue with this timeline attached"

pub record Rule (F : Type 0) : Type 0 where
  pub id : String
  pub evaluate : Timeline F → Config F → Option (Verdict F)

module _ {F : Type 0} (fl : FloatOps F) where
  unfoldable pub order : List (Rule F)
  order =
      record { id = "R-010"; evaluate = Rules.DataCompleteness.evaluate }
      ∷ record { id = "R-011"; evaluate = Rules.ClockTrust.evaluate fl }
      ∷ record { id = "R-100"; evaluate = Rules.ProposerMissed.evaluate fl }
      ∷ record { id = "R-120"; evaluate = Rules.PayloadLate.evaluate fl }
      ∷ record { id = "R-110"; evaluate = Rules.NetworkLateBlock.evaluate fl }
      ∷ record { id = "R-200"; evaluate = Rules.P2pDegraded.evaluate fl }
      ∷ record { id = "R-300"; evaluate = Rules.ElSlow.evaluate fl }
      ∷ record { id = "R-310"; evaluate = Rules.ClSlow.evaluate fl }
      ∷ record { id = "R-400"; evaluate = Rules.VcDisconnected.evaluate }
      ∷ record { id = "R-410"; evaluate = Rules.VcSlow.evaluate fl }
      ∷ record { id = "R-500"; evaluate = Rules.InclusionFailure.evaluate }
      ∷ record { id = "R-600"; evaluate = Rules.HostFallback.evaluate fl }
      ∷ record { id = "R-999"; evaluate = Rules.CatchAll.evaluate fl }
      ∷ []

  abbrev pub with_offset : Time → Evidence F → Evidence F
  with_offset slot_start e = record e { offset = sub_time e.at slot_start }

  -- The fields that only `Analyze` can fill in.
  abbrev pub stamp : Timeline F → Verdict F → Outcome → Option RewardFlags → Verdict F
  stamp tl v outcome flags = record {
    slot = tl.slot;
    outcome = outcome;
    flags = flags;
    cause = v.cause;
    sub_cause = v.sub_cause;
    confidence = v.confidence;
    evidence = map (with_offset tl.slot_start) v.evidence;
    remediation = v.remediation;
    engine_version = engine_version;
    taxonomy = v.taxonomy;
  }

  unfoldable pub safe_fallback : Timeline F → Outcome → Option RewardFlags → Err → Verdict F
  safe_fallback tl outcome flags cause = record {
    slot = tl.slot;
    outcome = outcome;
    flags = if is_no_duty outcome then none else flags;
    cause = if is_no_duty outcome then no_cause else no_rule_matched;
    sub_cause = no_cause;
    confidence = low;
    evidence =
        stated tl.slot_start derived (
          txt "a matching rule produced an invalid verdict ("
          ∷ fault cause
          ∷ txt ") — this is an engine bug, not an attribution"
          ∷ [])
        ∷ [];
    remediation = taxonomy_gap ∷ [];
    engine_version = engine_version;
    taxonomy = taxonomy_version;
  }

  unfoldable pub finish : Timeline F → Verdict F → Outcome → Option RewardFlags → Verdict F
  finish tl v outcome flags = elim (new_verdict fl (stamp tl v outcome flags)) [
    | Result.err e ↦ safe_fallback tl outcome flags e
    | Result.ok w ↦ w
  ]

  abbrev pub nothing_owed : Timeline F → Verdict F
  nothing_owed tl =
      draft no_cause high
        (stated tl.slot_start derived
            (txt "no attester or proposer duty was assigned for this slot" ∷ [])
          ∷ [])
        []

  abbrev pub clean_pass : Timeline F → Verdict F
  clean_pass tl =
      draft no_cause high
        (stated (at_or tl.slot_start (first collection_completed tl)) derived
            (txt "duty fulfilled with every reward flag earned, and no rule found a problem" ∷ [])
          ∷ [])
        []

  abbrev pub engine_bug : Timeline F → Verdict F
  engine_bug tl =
      draft no_rule_matched low
        (stated tl.slot_start derived (
            txt
              "no rule in the ordered sequence matched, including the unconditional catch-all — this is an engine bug"
            ∷ [])
          ∷ [])
        (taxonomy_gap ∷ [])

  -- The loop over the rules: the draft of the first one that matches.
  unfoldable pub first_match : Timeline F → Config F → List (Rule F) → Option (Verdict F)
  first_match tl cfg [] = none
  first_match tl cfg (r ∷ rest) = elim (r.evaluate tl cfg) [
    | some v ↦ some v
    | none ↦ first_match tl cfg rest
  ]

  -- What is emitted for the draft that the loop found.
  abbrev pub settle : Timeline F → Outcome → Option RewardFlags → Option (Verdict F) → Verdict F
  settle tl outcome flags none = finish tl (engine_bug tl) outcome flags
  settle tl outcome flags (some v) =
      if is_ok outcome && cause_eq v.cause no_rule_matched
      then finish tl (clean_pass tl) outcome flags
      else finish tl v outcome flags

  unfoldable pub analyze_with : Timeline F → Config F → List (Rule F) → Verdict F
  analyze_with tl cfg ordered =
      let (outcome, flags) = derive_outcome tl in
      if is_no_duty outcome
      then finish tl (nothing_owed tl) outcome none
      else settle tl outcome flags (first_match tl cfg ordered)

  unfoldable pub analyze : Timeline F → Config F → Verdict F
  unfolding analyze_with
  analyze tl cfg = analyze_with tl cfg order
