-- ===== src/Domain/Duty.antt =====
-- internal/domain/duty.go: what a validator owed for a slot.
use whymiss.Prelude.{ℕ, Bool, true, false, Option, none, some, String, if◌then◌else◌}
use whymiss.Domain.Errors.{Err, invalid_kind}

pub data DutyKind : Type 0 where
  attester proposer : DutyKind
  other_duty : String → DutyKind

unfoldable pub kind_valid : DutyKind → Bool
kind_valid attester = true
kind_valid proposer = true
kind_valid (other_duty _) = false

pub record Duty : Type 0 where
  pub kind : DutyKind
  pub slot : ℕ
  pub validator_index : ℕ
  pub committee_index : ℕ

unfoldable pub validate : Duty → Option Err
unfolding kind_valid
validate d = if kind_valid d.kind then none else some invalid_kind

abbrev pub is_proposer : DutyKind → Bool
is_proposer proposer = true
is_proposer _ = false

abbrev pub is_attester : DutyKind → Bool
is_attester attester = true
is_attester _ = false
