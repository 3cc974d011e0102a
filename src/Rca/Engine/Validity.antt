-- ===== src/Rca/Engine/Validity.antt =====
-- When internal/rca/engine.go emits a valid verdict, and what it emits otherwise.
use whymiss.Prelude.{
  Bool, true, false, ◌&&◌, List, Option, none, some, if◌then◌else◌, ◌≡◌, ◌≢◌, refl, sym, ap, ◌∙◌,
  subst, ◌↔◌, inl, inr, arith, Bool-cases,
}
use whymiss.Prelude.Time.{is_zero}
use whymiss.Prelude.Float.{FloatOps}
use whymiss.Domain.Errors.{Result-cases}
use whymiss.Domain.Timeline.{Timeline}
use whymiss.Domain.Cause.{cause_eq, no_rule_matched}
use whymiss.Domain.Verdict.{
  Outcome, RewardFlags, Verdict, any_earned, all_earned, is_no_duty, is_ok, outcome_valid, validate,
  new_verdict,
}
use whymiss.Domain.Verdict.WellFormed.{FlagsAgree, verdict_validate-none_iff, new_verdict-ok}
use whymiss.Rca.Config.{Config}
use whymiss.Rca.Outcome.{derive_outcome}
use whymiss.Rca.Engine.{
  Rule, analyze_with, finish, safe_fallback, stamp, settle, first_match, clean_pass, nothing_owed,
  engine_bug,
}
use whymiss.Rca.Engine.Verdicts.{
  AllLost, AllLost-disagrees, agrees_or_AllLost, finish-valid, settle-valid, finish_outcome,
  stamped_outcome, stamped_flags,
}

if-same {ℓ} : {A : Type ℓ} {x : A} (b : Bool) → (if b then x else x) ≡ x
if-same true = refl
if-same false = refl

module _ {F : Type 0} (fl : FloatOps F) (tl : Timeline F) (cfg : Config F)
    (rules : List (Rule F)) where
  outcome_known : outcome_valid (derive_outcome tl).0 ≡ true
  unfolding derive_outcome outcome_valid
  outcome_known = ground arith

  no_duty_flags : is_no_duty (derive_outcome tl).0 ≡ true → (derive_outcome tl).1 ≡ none
  unfolding derive_outcome
  no_duty_flags h = ground arith

  AllLost-outcome : AllLost tl → (derive_outcome tl).0 ≡ Outcome.degraded
  unfolding derive_outcome all_earned any_earned
  AllLost-outcome (d, o, ed, ep, eo, lost) = ground arith

  settle_outcome :
      (outcome : Outcome) (flags : Option RewardFlags) (v : Option (Verdict F))
      → is_no_duty outcome ≡ false
      → ((settle fl tl outcome flags v).outcome ≡ outcome)
        × ((settle fl tl outcome flags v).flags ≡ flags)
  settle_outcome outcome flags none h = finish_outcome fl tl (engine_bug fl tl) outcome flags h
  settle_outcome outcome flags (some v) h =
      elim (Bool-cases (is_ok outcome && cause_eq v.cause no_rule_matched)) [
        | inl e ↦ rw e (finish_outcome fl tl (clean_pass fl tl) outcome flags h)
        | inr e ↦ rw e (finish_outcome fl tl v outcome flags h)
      ]

  analyze_with_outcome :
      is_no_duty (derive_outcome tl).0 ≡ false
      → ((analyze_with fl tl cfg rules).outcome ≡ (derive_outcome tl).0)
        × ((analyze_with fl tl cfg rules).flags ≡ (derive_outcome tl).1)
  unfolding analyze_with
  analyze_with_outcome h = rw (h, analyze_with) (settle_outcome _ _ (first_match fl tl cfg rules) h)

  -- A degraded duty has a duty.
  AllLost-owed : AllLost tl → is_no_duty (derive_outcome tl).0 ≡ false
  AllLost-owed h = rw (AllLost-outcome h) refl

  analyze_with-agrees :
      is_zero tl.slot_start ≡ false
      → tl.slot_start.utc ≡ true
      → FlagsAgree (derive_outcome tl).0 (derive_outcome tl).1
      → validate fl (analyze_with fl tl cfg rules) ≡ none
  unfolding analyze_with
  analyze_with-agrees z u h = elim (Bool-cases (is_no_duty (derive_outcome tl).0)) [
    | inl e ↦
        rw (e, analyze_with)
          (finish-valid fl tl z u (nothing_owed fl tl) _ none outcome_known
            (subst (λ x. FlagsAgree (derive_outcome tl).0 x) (no_duty_flags e) h))
    | inr e ↦
        rw (e, analyze_with)
          (settle-valid fl tl z u _ _ (first_match fl tl cfg rules) outcome_known h)
  ]

  AllLost-invalid : AllLost tl → validate fl (analyze_with fl tl cfg rules) ≢ none
  AllLost-invalid h valid =
      let (o, f) = analyze_with_outcome (AllLost-owed h) in
      let agree = ((verdict_validate-none_iff fl _).0 valid).flags_agree in
      AllLost-disagrees tl h (
        subst (λ x. FlagsAgree (derive_outcome tl).0 x) f
          (subst (λ x. FlagsAgree x (analyze_with fl tl cfg rules).flags) o agree))

  -- For a timeline whose slot starts at an instant of UTC that is not the zero one, and for any
  -- rules, the verdict that is emitted passes `Validate`, unless it is that of an included
  -- attestation for which no flag was earned; then it does not.
  pub analyze_with-valid_iff :
      is_zero tl.slot_start ≡ false
      → tl.slot_start.utc ≡ true
      → (validate fl (analyze_with fl tl cfg rules) ≡ none) ↔ (¬ AllLost tl)
  analyze_with-valid_iff z u = (
    λ valid lost. AllLost-invalid lost valid,
    λ fine. elim (agrees_or_AllLost tl) [
      | inl h ↦ analyze_with-agrees z u h
      | inr lost ↦ absurd (fine lost)
    ],
  )

  finish_no_flags :
      (v : Verdict F) (outcome : Outcome)
      → ((finish fl tl v outcome none).outcome ≡ outcome)
        × ((finish fl tl v outcome none).flags ≡ none)
  unfolding finish safe_fallback
  finish_no_flags v outcome = elim (Result-cases (new_verdict fl (stamp fl tl v outcome none))) [
    | inl (e, p) ↦ rw (p, finish, safe_fallback) (refl, if-same (is_no_duty outcome))
    | inr (w, p) ↦
        let q = (new_verdict-ok fl _ w p).1 in
        rw (p, finish)
          (
            ap (λ (x : Verdict F). x.outcome) q ∙ stamped_outcome fl (stamp fl tl v outcome none),
            ap (λ (x : Verdict F). x.flags) q ∙ stamped_flags fl (stamp fl tl v outcome none),
          )
  ]

  -- For any timeline and rules, the verdict that is emitted has the outcome and the flags that
  -- `deriveOutcome` gives, whatever the rules drafted.
  pub analyze_with-derive_outcome :
      ((analyze_with fl tl cfg rules).outcome ≡ (derive_outcome tl).0)
      × ((analyze_with fl tl cfg rules).flags ≡ (derive_outcome tl).1)
  unfolding analyze_with
  analyze_with-derive_outcome = elim (Bool-cases (is_no_duty (derive_outcome tl).0)) [
    | inl e ↦
        rw (e, analyze_with)
          (
            (finish_no_flags (nothing_owed fl tl) (derive_outcome tl).0).0,
            (finish_no_flags (nothing_owed fl tl) (derive_outcome tl).0).1 ∙ sym (no_duty_flags e),
          )
    | inr e ↦ analyze_with_outcome e
  ]

  finish_disagreeing :
      (v : Verdict F) (outcome : Outcome) (flags : Option RewardFlags)
      → is_no_duty outcome ≡ false
      → (¬ FlagsAgree outcome flags)
      → (finish fl tl v outcome flags).cause ≡ no_rule_matched
  unfolding finish safe_fallback
  finish_disagreeing v outcome flags owed differ =
      elim (Result-cases (new_verdict fl (stamp fl tl v outcome flags))) [
        | inl (e, p) ↦ rw (p, finish, safe_fallback, owed) refl
        | inr (w, p) ↦
            let (valid, q) = new_verdict-ok fl _ w p in
            let agree = ((verdict_validate-none_iff fl w).0 valid).flags_agree in
            absurd (
              differ (
                subst (λ x. FlagsAgree outcome x)
                  (ap (λ (x : Verdict F). x.flags) q
                    ∙ stamped_flags fl (stamp fl tl v outcome flags))
                  (subst (λ x. FlagsAgree x w.flags)
                    (ap (λ (x : Verdict F). x.outcome) q
                      ∙ stamped_outcome fl (stamp fl tl v outcome flags))
                    agree)))
      ]

  settle_disagreeing :
      (outcome : Outcome) (flags : Option RewardFlags) (v : Option (Verdict F))
      → is_no_duty outcome ≡ false
      → (¬ FlagsAgree outcome flags)
      → (settle fl tl outcome flags v).cause ≡ no_rule_matched
  settle_disagreeing outcome flags none h d =
      finish_disagreeing (engine_bug fl tl) outcome flags h d
  settle_disagreeing outcome flags (some v) h d =
      elim (Bool-cases (is_ok outcome && cause_eq v.cause no_rule_matched)) [
        | inl e ↦ rw e (finish_disagreeing (clean_pass fl tl) outcome flags h d)
        | inr e ↦ rw e (finish_disagreeing v outcome flags h d)
      ]

  -- For an included attestation for which no flag was earned, and for any rules, the verdict that
  -- is emitted says that no rule matched and does not pass `Validate`.
  pub analyze_with-lost :
      AllLost tl
      → ((analyze_with fl tl cfg rules).cause ≡ no_rule_matched)
        × (validate fl (analyze_with fl tl cfg rules) ≢ none)
  unfolding analyze_with
  analyze_with-lost h = (
    rw (AllLost-owed h, analyze_with)
        (settle_disagreeing _ _ (first_match fl tl cfg rules) (AllLost-owed h)
          (AllLost-disagrees tl h)),
    AllLost-invalid h,
  )
