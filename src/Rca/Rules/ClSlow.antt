-- ===== src/Rca/Rules/ClSlow.antt =====
-- internal/rca/rules/r310_cl_slow.go: R-310.
use whymiss.Prelude.{◌&&◌, not, [], ◌∷◌, ◌++◌, map, Option, none, some, if◌then◌else◌}
use whymiss.Prelude.Int.{pos, ltb_ℤ, quot}
use whymiss.Prelude.Float.{FloatOps, millis}
use whymiss.Domain.Slot.{derived, validation}
use whymiss.Domain.Timeline.{Timeline}
use whymiss.Domain.Cause.{cl_slow}
use whymiss.Domain.Verdict.{Verdict, medium, txt, dur, num, milliseconds, ratio}
use whymiss.Rca.Config.{Config}
use whymiss.Rca.Stages.{compute_stages, share}
use whymiss.Rca.Facts.{
  engine_calls, complete_engine_calls, engine_call_total, post_propagation_dominant,
}
use whymiss.Rca.Draft.{draft, compared}
use whymiss.Rca.Rules.ElSlow.{head_late, last_call_at, call_evidence}

module _ {F : Type 0} (fl : FloatOps F) where
  -- The first value of a share, which is 0 where the share is not known.
  abbrev pub share_or_zero : Option F → F
  share_or_zero none = fl.lit (pos 0) 0
  share_or_zero (some x) = x

  unfoldable pub slow : Timeline F → Config F → Verdict F
  slow tl cfg =
      let s = compute_stages tl in
      let calls = engine_calls fl tl in
      let part = share_or_zero (share fl s validation) in
      draft cl_slow medium
        (compared tl.slot_start derived
            (txt "consensus validation consumed "
              ∷ dur s.validation_time
              ∷ txt " and "
              ∷ num (fl.mul part (fl.lit (pos 100) 0))
              ∷ txt "% of known stage time"
              ∷ [])
            "validation stage share" part cfg.dominance ratio
          ∷ (map (call_evidence fl) calls
              ++ (compared (last_call_at calls) derived
                    (txt "sampled Engine API time ("
                      ∷ dur (engine_call_total fl calls)
                      ∷ txt ") accounted for less than half of the "
                      ∷ dur s.validation_time
                      ∷ txt " validation span"
                      ∷ [])
                    "Engine API total vs half of validation"
                    (millis fl (engine_call_total fl calls)) (millis fl (quot s.validation_time 2))
                    milliseconds
                  ∷ [])))
        ("check the consensus client version against the latest release"
          ∷ "review consensus client logs for the slot window" ∷ [])

  unfoldable pub evaluate : Timeline F → Config F → Option (Verdict F)
  evaluate tl cfg =
      let s = compute_stages tl in
      if not (head_late tl)
      then none
      else if not (complete_engine_calls fl tl)
      then none
      else if s.has_validation
          && (post_propagation_dominant fl tl cfg
              && ltb_ℤ (engine_call_total fl (engine_calls fl tl)) (quot s.validation_time 2))
      then some (slow tl cfg)
      else none
