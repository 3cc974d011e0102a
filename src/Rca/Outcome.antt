-- ===== src/Rca/Outcome.antt =====
-- internal/rca/outcome.go: what happened to the duty, before any rule runs.
pub mod Agreement
use whymiss.Prelude.{
  ℕ, ◌==◌, leb, Bool, true, false, ◌&&◌, Option, none, some, String, if◌then◌else◌,
}
use whymiss.Prelude.Text.{parse_uint}
use whymiss.Domain.Duty.{Duty, is_proposer}
use whymiss.Domain.Kinds.{block_proposed, attestation_included}
use whymiss.Domain.Attrs.{inclusion_delay, head_correct, target_correct}
use whymiss.Domain.Observation.{Observation, attr}
use whymiss.Domain.Timeline.{Timeline, has, last}
use whymiss.Domain.Verdict.{Outcome, RewardFlags, all_earned}
use whymiss.Rca.Facts.{reads_true}

abbrev pub timely_source_max_inclusion_delay : ℕ
timely_source_max_inclusion_delay = 5

abbrev pub recorded_delay : Observation → Option ℕ
recorded_delay o = elim (attr o inclusion_delay) [ none ↦ none | some text ↦ parse_uint 64 text ]

abbrev flags_by_delay : Bool → Bool → Option ℕ → RewardFlags
flags_by_delay target head none = record {
  timely_source = false;
  timely_target = false;
  timely_head = false;
}
flags_by_delay target head (some delay) = record {
  timely_source = leb delay timely_source_max_inclusion_delay;
  timely_target = target;
  timely_head = delay == 1 && (target && head);
}

unfoldable pub reward_flags : Observation → RewardFlags
reward_flags o =
    flags_by_delay (reads_true (attr o target_correct)) (reads_true (attr o head_correct))
      (recorded_delay o)

abbrev inclusion_outcome : Option Observation → Outcome × Option RewardFlags
inclusion_outcome none = (Outcome.missed, none)
inclusion_outcome (some o) =
    (if all_earned (reward_flags o) then Outcome.ok else Outcome.degraded, some (reward_flags o))

unfoldable pub derive_outcome : {F : Type 0} → Timeline F → Outcome × Option RewardFlags
derive_outcome tl = elim tl.duty [
  | none ↦ (Outcome.no_duty, none)
  | some d ↦
      if is_proposer d.kind
      then (if has block_proposed tl then Outcome.ok else Outcome.missed, none)
      else inclusion_outcome (last attestation_included tl)
]
