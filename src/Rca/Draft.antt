-- ===== src/Rca/Draft.antt =====
-- The verdict literals of internal/rca/rules: a rule fills in the cause, the confidence, the
-- evidence and the remediation, and leaves Go's zero value in every other field.
use whymiss.Prelude.{List, Option, none, some, String}
use whymiss.Prelude.Int.{pos}
use whymiss.Prelude.Time.{Time}
use whymiss.Domain.Slot.{SourceId}
use whymiss.Domain.Cause.{CauseId, no_cause}
use whymiss.Domain.Verdict.{
  Outcome, Confidence, Statement, Comparison, Evidence, Verdict, MeasureUnit,
}

module _ {F : Type 0} where
  abbrev pub draft : CauseId → Confidence → List (Evidence F) → List String → Verdict F
  draft cause confidence evidence remediation = record {
    slot = 0;
    outcome = Outcome.other_outcome "";
    flags = none;
    cause = cause;
    sub_cause = no_cause;
    confidence = confidence;
    evidence = evidence;
    remediation = remediation;
    engine_version = "";
    taxonomy = "";
  }

  abbrev pub observed_at : Time → SourceId → Statement F → Option (Comparison F) → Evidence F
  observed_at at source statement comparison = record {
    at = at;
    offset = pos 0;
    statement = statement;
    source = source;
    comparison = comparison;
  }

  -- Evidence with no comparison.
  abbrev pub stated : Time → SourceId → Statement F → Evidence F
  stated at source statement = observed_at at source statement none

  -- Evidence that sets an observed value against the expected one.
  abbrev pub compared : Time → SourceId → Statement F → String → F → F → MeasureUnit → Evidence F
  compared at source statement label observed expected unit =
      observed_at at source statement
        (some (record { label = label; observed = observed; expected = expected; unit = unit }))
