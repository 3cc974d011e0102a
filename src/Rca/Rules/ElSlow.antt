-- ===== src/Rca/Rules/ElSlow.antt =====
-- internal/rca/rules/r300_el_slow.go: R-300.
use Prim.Native.String.{◌++◌ as append_text}
use whymiss.Prelude.{
  Bool, false, ◌||◌, not, List, [], ◌∷◌, ◌++◌, map, Option, none, some, String, if◌then◌else◌,
}
use whymiss.Prelude.Int.{pos, ltb_ℤ, quot}
use whymiss.Prelude.Time.{Time, zero_time, after}
use whymiss.Prelude.Float.{FloatOps, millis, le_f}
use whymiss.Domain.Slot.{promscrape, derived, validation}
use whymiss.Domain.Kinds.{head_updated}
use whymiss.Domain.Sample.{el}
use whymiss.Domain.Timeline.{Timeline, first, attestation_deadline, sample_value}
use whymiss.Domain.Cause.{el_slow}
use whymiss.Domain.Verdict.{Verdict, Evidence, medium, txt, dur, num, nat, milliseconds}
use whymiss.Rca.Config.{Config}
use whymiss.Rca.Stages.{compute_stages, dominant}
use whymiss.Rca.Facts.{EngineCall, engine_calls, complete_engine_calls, engine_call_total, is_stage}
use whymiss.Rca.Draft.{draft, compared}

abbrev pub metric_el_engine_calls_p99_ms : String
metric_el_engine_calls_p99_ms = "el_engine_calls_p99_ms"

-- Whether the head was updated, and after the attestation deadline.
unfoldable pub head_late : {F : Type 0} → Timeline F → Bool
head_late tl = elim (first head_updated tl) [
  | none ↦ false
  | some head ↦ after head.at (attestation_deadline tl)
]

-- calls[len(calls)-1].at
unfoldable pub last_call_at : {F : Type 0} → List (EngineCall F) → Time
last_call_at [] = zero_time
last_call_at (c ∷ []) = c.at
last_call_at (c ∷ d ∷ rest) = last_call_at (d ∷ rest)

module _ {F : Type 0} (fl : FloatOps F) where
  abbrev pub call_evidence : EngineCall F → Evidence F
  call_evidence c =
      compared c.at promscrape
        (txt "execution client's "
          ∷ nat c.calls
          ∷ txt " "
          ∷ txt c.method
          ∷ txt " call(s) totaled "
          ∷ num c.duration
          ∷ txt "ms in the canonical-head window"
          ∷ [])
        (append_text c.method " duration") c.duration (fl.lit (pos 0) 0) milliseconds

  unfoldable pub slow : Timeline F → Config F → F → Verdict F
  slow tl cfg baseline =
      let calls = engine_calls fl tl in
      draft el_slow medium
        (map call_evidence calls
          ++ (compared (last_call_at calls) derived
                (txt "Engine API calls totaled "
                  ∷ dur (engine_call_total fl calls)
                  ∷ txt " against a "
                  ∷ num baseline
                  ∷ txt "ms rolling p99 and consumed at least half of validation"
                  ∷ [])
                "Engine API total vs spike threshold" (millis fl (engine_call_total fl calls))
                (fl.mul cfg.engine_spike_multiplier baseline) milliseconds
              ∷ []))
        ("check the execution client version against the latest release"
          ∷ "inspect execution-client logs and host I/O telemetry for the exact canonical-head window before assigning a sub-cause"
          ∷ [])

  abbrev by_p99 : Timeline F → Config F → Option F → Option (Verdict F)
  by_p99 tl cfg none = none
  by_p99 tl cfg (some baseline) =
      if le_f fl baseline (fl.lit (pos 0) 0)
      then none
      else if le_f fl (millis fl (engine_call_total fl (engine_calls fl tl)))
          (fl.mul cfg.engine_spike_multiplier baseline)
      then none
      else some (slow tl cfg baseline)

  unfoldable pub evaluate : Timeline F → Config F → Option (Verdict F)
  evaluate tl cfg =
      let s = compute_stages tl in
      if not (head_late tl)
      then none
      else if not (is_stage validation (dominant fl s cfg)) || not s.has_validation
      then none
      else if not (complete_engine_calls fl tl)
      then none
      else if ltb_ℤ (engine_call_total fl (engine_calls fl tl)) (quot s.validation_time 2)
      then none
      else by_p99 tl cfg (sample_value tl el metric_el_engine_calls_p99_ms)
