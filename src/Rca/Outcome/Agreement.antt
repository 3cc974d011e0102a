-- ===== src/Rca/Outcome/Agreement.antt =====
-- The outcome of internal/rca/outcome.go against the loss test of internal/rca/rules/helpers.go.
use whymiss.Prelude.{◌||◌, not, ◌≡◌, arith}
use whymiss.Domain.Timeline.{Timeline}
use whymiss.Domain.Verdict.{all_earned, is_ok, is_no_duty}
use whymiss.Rca.Facts.{duty_has_observable_loss}
use whymiss.Domain.Observation.{Observation}
use whymiss.Rca.Outcome.{reward_flags, derive_outcome}

module _ {F : Type 0} (tl : Timeline F) where
  -- The two readings of a timeline agree: a duty has an observable loss exactly when its outcome is
  -- neither `ok` nor `no_duty`.
  pub loss-outcome :
      duty_has_observable_loss tl
      ≡ not (is_ok (derive_outcome tl).0 || is_no_duty (derive_outcome tl).0)
  unfolding duty_has_observable_loss derive_outcome reward_flags all_earned
  loss-outcome = ground arith

-- The head flag is the strictest: an inclusion earns it exactly when it earns every flag.
pub timely_head-all_earned :
    (o : Observation) → (reward_flags o).timely_head ≡ all_earned (reward_flags o)
unfolding reward_flags all_earned
timely_head-all_earned o = ground arith
