-- ===== src/Domain/Verdict.antt =====
-- internal/domain/verdict.go: what the engine emits. A formatted text keeps the parts that
-- `fmt.Sprintf` is given, in their order, instead of their characters.
pub mod WellFormed
use whymiss.Prelude.{
  ℕ, Bool, true, false, ◌&&◌, ◌||◌, not, List, [], ◌∷◌, ◌++◌, Option, none, some, String,
  if◌then◌else◌,
}
use whymiss.Prelude.Int.{ℤ}
use whymiss.Prelude.Text.{str_eq, is_blank}
use whymiss.Prelude.Time.{Time, Duration, is_zero}
use whymiss.Prelude.Float.{FloatOps, not_finite}
use whymiss.Domain.Errors.{
  Err, Result, missing_timestamp, not_utc, missing_source, no_evidence, invalid_cause,
  invalid_outcome, invalid_confidence, missing_version, empty_statement, invalid,
}
use whymiss.Domain.Slot.{SourceId, source_valid}
use whymiss.Domain.Kinds.{ObservationKind}
use whymiss.Domain.Cause.{
  CauseId, no_cause, insufficient_data, no_rule_matched, cause_valid, cause_eq, is_sub_cause_of,
}

abbrev pub taxonomy_version : String
taxonomy_version = "4.0.0"

pub data Outcome : Type 0 where
  no_duty ok degraded missed : Outcome
  other_outcome : String → Outcome

unfoldable pub outcome_valid : Outcome → Bool
outcome_valid (Outcome.other_outcome _) = false
outcome_valid _ = true

pub record RewardFlags : Type 0 where
  pub timely_source : Bool
  pub timely_target : Bool
  pub timely_head : Bool

unfoldable pub all_earned : RewardFlags → Bool
all_earned r = r.timely_source && (r.timely_target && r.timely_head)

unfoldable pub any_earned : RewardFlags → Bool
any_earned r = r.timely_source || (r.timely_target || r.timely_head)

unfoldable pub lost : RewardFlags → List String
lost r =
    (if r.timely_source then [] else "timely_source" ∷ [])
    ++ ((if r.timely_target then [] else "timely_target" ∷ [])
        ++ (if r.timely_head then [] else "timely_head" ∷ []))

pub data Confidence : Type 0 where
  high medium low : Confidence
  other_confidence : String → Confidence

unfoldable pub confidence_valid : Confidence → Bool
confidence_valid (other_confidence _) = false
confidence_valid _ = true

pub data MeasureUnit : Type 0 where
  milliseconds percent count ratio : MeasureUnit
  other_unit : String → MeasureUnit

unfoldable pub unit_valid : MeasureUnit → Bool
unit_valid (other_unit _) = false
unit_valid _ = true

-- A part of a formatted text: literal text, or a value that is printed in its place.
pub data Piece (F : Type 0) : Type 0 where
  txt : String → Piece F
  dur : Duration → Piece F
  num : F → Piece F
  nat : ℕ → Piece F
  int : ℤ → Piece F
  instant : Time → Piece F
  kind_name : ObservationKind → Piece F
  fault : Err → Piece F

abbrev pub Statement : Type 0 → Type 0
Statement F = List (Piece F)

module _ {F : Type 0} where
  abbrev piece_blank : Piece F → Bool
  piece_blank (txt s) = is_blank s
  piece_blank _ = false

  -- `strings.TrimSpace(s.Statement) == ""`: a printed value is never white space.
  unfoldable pub statement_blank : Statement F → Bool
  statement_blank [] = true
  statement_blank (p ∷ rest) = piece_blank p && statement_blank rest

pub record Comparison (F : Type 0) : Type 0 where
  pub label : String
  pub observed : F
  pub expected : F
  pub unit : MeasureUnit

pub record Evidence (F : Type 0) : Type 0 where
  pub at : Time
  pub offset : Duration
  pub statement : Statement F
  pub source : SourceId
  pub comparison : Option (Comparison F)

pub record Verdict (F : Type 0) : Type 0 where
  pub slot : ℕ
  pub outcome : Outcome
  pub flags : Option RewardFlags
  pub cause : CauseId
  pub sub_cause : CauseId
  pub confidence : Confidence
  pub evidence : List (Evidence F)
  pub remediation : List String
  pub engine_version : String
  pub taxonomy : String

abbrev pub is_no_duty : Outcome → Bool
is_no_duty Outcome.no_duty = true
is_no_duty _ = false

abbrev pub is_ok : Outcome → Bool
is_ok Outcome.ok = true
is_ok _ = false

-- The cases of `validateFlags` where flags are present.
unfoldable pub flags_fault : Outcome → Option RewardFlags → Option Err
flags_fault Outcome.degraded none = some invalid_outcome
flags_fault _ none = none
flags_fault Outcome.no_duty (some f) = some invalid_outcome
flags_fault Outcome.ok (some f) = if not (all_earned f) then some invalid_outcome else none
flags_fault Outcome.degraded (some f) =
    if all_earned f
    then some invalid_outcome
    else if not (any_earned f)
    then some invalid_outcome
    else none
flags_fault Outcome.missed (some f) = if any_earned f then some invalid_outcome else none
flags_fault (Outcome.other_outcome _) (some f) = none

-- `validateCause`, over the outcome, the cause and the sub-cause.
unfoldable pub cause_fault : Outcome → CauseId → CauseId → Option Err
cause_fault outcome cause sub_cause =
    if is_no_duty outcome
    then (if not (cause_eq cause no_cause)
        then some invalid_cause
        else if not (cause_eq sub_cause no_cause)
        then some invalid_cause
        else none)
    else if is_ok outcome && cause_eq cause no_cause
    then (if not (cause_eq sub_cause no_cause) then some invalid_cause else none)
    else if not (cause_valid cause)
    then some invalid_cause
    else if cause_eq sub_cause no_cause
    then none
    else if not (cause_valid sub_cause)
    then some invalid_cause
    else if not (is_sub_cause_of sub_cause cause)
    then some invalid_cause
    else none

module _ {F : Type 0} (fl : FloatOps F) where
  unfoldable pub comparison_fault : Comparison F → Option Err
  comparison_fault c =
      if is_blank c.label
      then some empty_statement
      else if not (unit_valid c.unit)
      then some invalid
      else if not_finite fl c.observed || not_finite fl c.expected
      then some invalid
      else none

  abbrev optional_comparison_fault : Option (Comparison F) → Option Err
  optional_comparison_fault none = none
  optional_comparison_fault (some c) = comparison_fault c

  unfoldable pub evidence_fault : Evidence F → Option Err
  evidence_fault e =
      if statement_blank e.statement
      then some empty_statement
      else if is_zero e.at
      then some missing_timestamp
      else if not e.at.utc
      then some not_utc
      else if not (source_valid e.source)
      then some missing_source
      else optional_comparison_fault e.comparison

  unfoldable pub all_evidence_fault : List (Evidence F) → Option Err
  all_evidence_fault [] = none
  all_evidence_fault (e ∷ rest) = elim (evidence_fault e) [
    | some x ↦ some x
    | none ↦ all_evidence_fault rest
  ]

  abbrev is_empty : List (Evidence F) → Bool
  is_empty [] = true
  is_empty (_ ∷ _) = false

  abbrev body_fault : Verdict F → Option Err
  body_fault v =
      if not (confidence_valid v.confidence)
      then some invalid_confidence
      else if is_empty v.evidence
      then some no_evidence
      else elim (all_evidence_fault v.evidence) [
        | some e ↦ some e
        | none ↦
            if str_eq v.engine_version ""
            then some missing_version
            else if str_eq v.taxonomy ""
            then some missing_version
            else none
      ]

  unfoldable pub validate : Verdict F → Option Err
  validate v =
      if not (outcome_valid v.outcome)
      then some invalid_outcome
      else elim (cause_fault v.outcome v.cause v.sub_cause) [
        | some e ↦ some e
        | none ↦ elim (flags_fault v.outcome v.flags) [ some e ↦ some e | none ↦ body_fault v ]
      ]

  abbrev pub stamped : Verdict F → Verdict F
  stamped v = if str_eq v.taxonomy "" then record v { taxonomy = taxonomy_version } else v

  unfoldable pub new_verdict : Verdict F → Result (Verdict F)
  new_verdict draft = elim (validate (stamped draft)) [
    | some e ↦ Result.err e
    | none ↦ Result.ok (stamped draft)
  ]

module _ {F : Type 0} where
  unfoldable pub reported_cause : Verdict F → CauseId
  reported_cause v = if not (cause_eq v.sub_cause no_cause) then v.sub_cause else v.cause

  unfoldable pub is_unknown : Verdict F → Bool
  is_unknown v = cause_eq v.cause insufficient_data || cause_eq v.cause no_rule_matched
