-- ===== src/Rca/Engine/Verdicts.antt =====
-- Which verdicts of internal/rca/engine.go pass `Verdict.Validate`.
use whymiss.Prelude.{
  Bool, true, false, ◌&&◌, Option, none, some, if◌then◌else◌, ◌≡◌, refl, ap, ◌∙◌, ◌⊎◌, inl, inr,
  arith, All, Bool-cases, Option-cases,
}
use whymiss.Prelude.Time.{is_zero}
use whymiss.Prelude.Float.{FloatOps}
use whymiss.Prelude.Text.{is_blank}
use whymiss.Domain.Errors.{Err, Result-cases}
use whymiss.Domain.Slot.{source_valid}
use whymiss.Domain.Duty.{Duty, is_proposer}
use whymiss.Domain.Kinds.{attestation_included, block_proposed}
use whymiss.Domain.Observation.{Observation}
use whymiss.Domain.Timeline.{Timeline, last, has}
use whymiss.Domain.Cause.{cause_valid, cause_eq, no_cause, no_rule_matched}
use whymiss.Domain.Verdict.{
  Outcome, RewardFlags, Verdict, all_earned, any_earned, is_no_duty, is_ok, outcome_valid,
  confidence_valid, statement_blank, validate, new_verdict, stamped, stamped,
}
use whymiss.Domain.Verdict.WellFormed.{
  Attributes, FlagsAgree, IsAuditable, MayBeEmitted, MayBeEmitted-validate, new_verdict-ok,
}
use whymiss.Rca.Outcome.{reward_flags, derive_outcome}
use whymiss.Rca.Engine.{finish, safe_fallback, stamp, settle, clean_pass, engine_bug}

-- An included attestation of a duty that is not a proposal, for which no flag was earned.
abbrev pub AllLost : {F : Type 0} → Timeline F → Type 0
AllLost tl =
    (d : Duty) × (o : Observation) × (tl.duty ≡ some d)
    × (is_proposer d.kind ≡ false)
    × (last attestation_included tl ≡ some o)
    × (any_earned (reward_flags o) ≡ false)

proposal_agrees : (b : Bool) → FlagsAgree (if b then Outcome.ok else Outcome.missed) none
proposal_agrees true = tt
proposal_agrees false = tt

inclusion_agrees :
    (o : Observation)
    → any_earned (reward_flags o) ≡ true
    → FlagsAgree
        (if all_earned (reward_flags o) then Outcome.ok else Outcome.degraded)
        (some (reward_flags o))
inclusion_agrees o h = elim (Bool-cases (all_earned (reward_flags o))) [
  | inl e ↦ rw e e
  | inr e ↦ rw e (e, h)
]

module _ {F : Type 0} (tl : Timeline F) where
  pub AllLost-disagrees : AllLost tl → ¬ FlagsAgree (derive_outcome tl).0 (derive_outcome tl).1
  unfolding derive_outcome all_earned any_earned
  AllLost-disagrees (d, o, ed, ep, eo, lost) = ground arith

  pub agrees_or_AllLost : FlagsAgree (derive_outcome tl).0 (derive_outcome tl).1 ⊎ AllLost tl
  unfolding derive_outcome
  agrees_or_AllLost = elim (Option-cases tl.duty) [
    | inl e ↦ inl (rw (e, derive_outcome) tt)
    | inr (d, e) ↦ elim (Bool-cases (is_proposer d.kind)) [
      | inl p ↦ inl (rw (e, p, derive_outcome) (proposal_agrees (has block_proposed tl)))
      | inr p ↦ elim (Option-cases (last attestation_included tl)) [
        | inl n ↦ inl (rw (e, p, n, derive_outcome) tt)
        | inr (o, n) ↦ elim (Bool-cases (any_earned (reward_flags o))) [
          | inl some_earned ↦ inl (rw (e, p, n, derive_outcome) (inclusion_agrees o some_earned))
          | inr lost ↦ inr (d, o, e, p, n, lost)
        ]
      ]
    ]
  ]

module _ {F : Type 0} (fl : FloatOps F) where
  fallback_evidence :
      (tl : Timeline F) (outcome : Outcome) (flags : Option RewardFlags) (e : Err)
      → is_zero tl.slot_start ≡ false
      → tl.slot_start.utc ≡ true
      → All (IsAuditable fl) (safe_fallback fl tl outcome flags e).evidence
  unfolding safe_fallback statement_blank is_blank source_valid
  fallback_evidence tl outcome flags e z u =
      (record { readable = refl; timed = z; at_utc = u; attributed = refl; argued = tt }, tt)

  pub stamped_outcome : (v : Verdict F) → (stamped fl v).outcome ≡ v.outcome
  stamped_outcome v = ground arith

  pub stamped_flags : (v : Verdict F) → (stamped fl v).flags ≡ v.flags
  stamped_flags v = ground arith

  fallback_flags :
      (outcome : Outcome) (flags : Option RewardFlags)
      → FlagsAgree outcome flags
      → FlagsAgree outcome (if is_no_duty outcome then none else flags)
  fallback_flags Outcome.no_duty flags h = tt
  fallback_flags Outcome.ok flags h = h
  fallback_flags Outcome.degraded flags h = h
  fallback_flags Outcome.missed flags h = h
  fallback_flags (Outcome.other_outcome s) flags h = h

  fallback-Attributes :
      (outcome : Outcome)
      → Attributes outcome (if is_no_duty outcome then no_cause else no_rule_matched) no_cause
  unfolding cause_valid
  fallback-Attributes Outcome.no_duty = ground arith
  fallback-Attributes Outcome.ok = ground arith
  fallback-Attributes Outcome.degraded = ground arith
  fallback-Attributes Outcome.missed = ground arith
  fallback-Attributes (Outcome.other_outcome s) = ground arith

  module _ (tl : Timeline F) (z : is_zero tl.slot_start ≡ false)
      (u : tl.slot_start.utc ≡ true) where
    safe_fallback-MayBeEmitted :
        (outcome : Outcome) (flags : Option RewardFlags) (e : Err)
        → outcome_valid outcome ≡ true
        → FlagsAgree outcome flags
        → MayBeEmitted fl (safe_fallback fl tl outcome flags e)
    unfolding safe_fallback confidence_valid
    safe_fallback-MayBeEmitted outcome flags e o h = record {
      outcome_known = o;
      attributes = fallback-Attributes outcome;
      flags_agree = fallback_flags outcome flags h;
      confidence_known = refl;
      evident = λ p. cc;
      auditable = fallback_evidence tl outcome flags e z u;
      engine_recorded = λ p. cc;
      taxonomy_recorded = λ p. cc;
    }

    pub finish-valid :
        (v : Verdict F) (outcome : Outcome) (flags : Option RewardFlags)
        → outcome_valid outcome ≡ true
        → FlagsAgree outcome flags
        → validate fl (finish fl tl v outcome flags) ≡ none
    unfolding finish
    finish-valid v outcome flags o h =
        elim (Result-cases (new_verdict fl (stamp fl tl v outcome flags))) [
          | inl (e, p) ↦
              rw (p, finish)
                (MayBeEmitted-validate fl _ (safe_fallback-MayBeEmitted outcome flags e o h))
          | inr (w, p) ↦ rw (p, finish) (new_verdict-ok fl _ w p).0
        ]

    pub settle-valid :
        (outcome : Outcome) (flags : Option RewardFlags) (v : Option (Verdict F))
        → outcome_valid outcome ≡ true
        → FlagsAgree outcome flags
        → validate fl (settle fl tl outcome flags v) ≡ none
    settle-valid outcome flags none o h = finish-valid (engine_bug fl tl) outcome flags o h
    settle-valid outcome flags (some v) o h =
        elim (Bool-cases (is_ok outcome && cause_eq v.cause no_rule_matched)) [
          | inl e ↦ rw e (finish-valid (clean_pass fl tl) outcome flags o h)
          | inr e ↦ rw e (finish-valid v outcome flags o h)
        ]

  -- `finish` keeps the outcome and, but for no duty, the flags that it is given.
  pub finish_outcome :
      (tl : Timeline F) (v : Verdict F) (outcome : Outcome) (flags : Option RewardFlags)
      → is_no_duty outcome ≡ false
      → ((finish fl tl v outcome flags).outcome ≡ outcome)
        × ((finish fl tl v outcome flags).flags ≡ flags)
  unfolding finish safe_fallback
  finish_outcome tl v outcome flags h =
      elim (Result-cases (new_verdict fl (stamp fl tl v outcome flags))) [
        | inl (e, p) ↦ rw (p, finish) (refl, rw h)
        | inr (w, p) ↦
            let q = (new_verdict-ok fl _ w p).1 in
            rw (p, finish)
              (
                ap (λ (x : Verdict F). x.outcome) q ∙ stamped_outcome (stamp fl tl v outcome flags),
                ap (λ (x : Verdict F). x.flags) q ∙ stamped_flags (stamp fl tl v outcome flags),
              )
      ]
