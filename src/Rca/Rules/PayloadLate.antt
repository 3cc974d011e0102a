-- ===== src/Rca/Rules/PayloadLate.antt =====
-- internal/rca/rules/r120_payload_late.go: R-120.
use whymiss.Prelude.{ℕ, ◌==◌, leb, ◌||◌, not, [], ◌∷◌, Option, none, some, String, if◌then◌else◌}
use whymiss.Prelude.Int.{pos}
use whymiss.Prelude.Text.{str_eq, parse_nonneg_int}
use whymiss.Prelude.Time.{Time, sub_time}
use whymiss.Prelude.Float.{FloatOps, millis}
use whymiss.Domain.Slot.{beaconapi, derived}
use whymiss.Domain.Schedule.{payload_reveal_deadline_at}
use whymiss.Domain.Kinds.{block_skipped, payload_attested}
use whymiss.Domain.Attrs.{payload_present, ptc_votes}
use whymiss.Domain.Observation.{Observation, attr}
use whymiss.Domain.Timeline.{Timeline, has, last}
use whymiss.Domain.Cause.{payload_late}
use whymiss.Domain.Verdict.{Verdict, high, medium, txt, dur, nat, instant, milliseconds}
use whymiss.Rca.Config.{Config}
use whymiss.Rca.Facts.{duty_has_observable_loss}
use whymiss.Rca.Draft.{draft, stated, compared}

abbrev pub ptc_majority_votes : ℕ
ptc_majority_votes = 2

-- The value of a map entry, and the empty text where there is none.
abbrev pub or_empty : Option String → String
or_empty none = ""
or_empty (some s) = s

module _ {F : Type 0} (fl : FloatOps F) where
  unfoldable pub late : Timeline F → Time → Observation → ℕ → Verdict F
  late tl deadline attested votes =
      draft payload_late (if leb ptc_majority_votes votes then high else medium)
        (stated attested.at beaconapi (
            txt
              "the payload-timeliness committee reported the execution payload was not present in time for this slot, across "
            ∷ nat votes
            ∷ txt " vote(s)"
            ∷ [])
          ∷ compared tl.slot_start derived
              (txt "the payload was due "
                ∷ dur (sub_time deadline tl.slot_start)
                ∷ txt " into the slot, at "
                ∷ instant deadline
                ∷ txt ", under the timing model this node reported"
                ∷ [])
              "payload reveal deadline" (fl.lit (pos 0) 0)
              (millis fl (sub_time deadline tl.slot_start)) milliseconds
          ∷ [])
        ("nothing to change locally: the execution payload for this slot is the builder's to reveal, and the committee found it was not there in time"
          ∷ "if this repeats across many slots, the network's builders are struggling rather than your node — compare against a second beacon node before changing anything"
          ∷ [])

  abbrev by_votes : Timeline F → Time → Observation → Option ℕ → Option (Verdict F)
  by_votes tl deadline attested none = none
  by_votes tl deadline attested (some votes) =
      if votes == 0 then none else some (late tl deadline attested votes)

  abbrev by_vote : Timeline F → Time → Option Observation → Option (Verdict F)
  by_vote tl deadline none = none
  by_vote tl deadline (some attested) =
      if not (str_eq (or_empty (attr attested payload_present)) "false")
      then none
      else by_votes tl deadline attested (parse_nonneg_int 64 (or_empty (attr attested ptc_votes)))

  abbrev by_deadline : Timeline F → Option Time → Option (Verdict F)
  by_deadline tl none = none
  by_deadline tl (some deadline) =
      if has block_skipped tl || not (duty_has_observable_loss tl)
      then none
      else by_vote tl deadline (last payload_attested tl)

  unfoldable pub evaluate : Timeline F → Config F → Option (Verdict F)
  evaluate tl cfg = by_deadline tl (payload_reveal_deadline_at tl.schedule tl.slot_start)
