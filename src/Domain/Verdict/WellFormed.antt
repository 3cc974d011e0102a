-- ===== src/Domain/Verdict/WellFormed.antt =====
-- What `Verdict.Validate` of internal/domain/verdict.go accepts.
use whymiss.Prelude.{
  true, false, List, [], ◌∷◌, Option, none, some, ◌≡◌, ◌≢◌, refl, ◌↔◌, ◌⊎◌, inl, inr, arith, All,
  Option-cases, subst, sym,
}
use whymiss.Prelude.Text.{str_eq_iff, is_blank}
use whymiss.Prelude.Time.{is_zero}
use whymiss.Prelude.Float.{FloatOps, not_finite}
use whymiss.Domain.Errors.{Err, Result}
use whymiss.Domain.Slot.{source_valid}
use whymiss.Domain.Cause.{CauseId, no_cause, cause_valid, el_slow}
use whymiss.Domain.Cause.Hierarchy.{cause_eq_iff, is_sub_cause_of_iff, IsEngineDetail}
use whymiss.Domain.Verdict.{
  Outcome, RewardFlags, all_earned, any_earned, outcome_valid, confidence_valid, unit_valid,
  Evidence, Comparison, Verdict, statement_blank, flags_fault, cause_fault, comparison_fault,
  evidence_fault, all_evidence_fault, validate, stamped, new_verdict, is_empty,
  optional_comparison_fault,
}

-- The flags agree with the outcome: none for no duty, all for an ok duty that has flags, some but
-- not all for a degraded one, which must have them, and none earned for a missed one that has them.
abbrev pub FlagsAgree : Outcome → Option RewardFlags → Type 0
FlagsAgree Outcome.degraded none = ⊥
FlagsAgree _ none = Unit
FlagsAgree Outcome.no_duty (some f) = ⊥
FlagsAgree Outcome.ok (some f) = all_earned f ≡ true
FlagsAgree Outcome.degraded (some f) = (all_earned f ≡ false) × (any_earned f ≡ true)
FlagsAgree Outcome.missed (some f) = any_earned f ≡ false
FlagsAgree (Outcome.other_outcome _) (some f) = Unit

-- No cause for no duty; possibly none for an ok duty; otherwise a cause of the taxonomy, and a
-- sub-cause only as one of the refinements of `local.el_slow`.
abbrev pub Attributes : Outcome → CauseId → CauseId → Type 0
Attributes o c s =
    ((c ≡ no_cause) × (s ≡ no_cause) × ((o ≡ Outcome.no_duty) ⊎ (o ≡ Outcome.ok)))
    ⊎ ((o ≢ Outcome.no_duty)
        × (cause_valid c ≡ true)
        × ((s ≡ no_cause) ⊎ (IsEngineDetail s × (c ≡ el_slow))))

pub flags_fault-none_iff :
    (o : Outcome) (f : Option RewardFlags) → (flags_fault o f ≡ none) ↔ FlagsAgree o f
unfolding flags_fault
flags_fault-none_iff Outcome.degraded none = ground arith
flags_fault-none_iff Outcome.no_duty none = ground arith
flags_fault-none_iff Outcome.ok none = ground arith
flags_fault-none_iff Outcome.missed none = ground arith
flags_fault-none_iff (Outcome.other_outcome _) none = ground arith
flags_fault-none_iff Outcome.no_duty (some f) = ground arith
flags_fault-none_iff Outcome.ok (some f) = ground arith
flags_fault-none_iff Outcome.degraded (some f) = ground arith
flags_fault-none_iff Outcome.missed (some f) = ground arith
flags_fault-none_iff (Outcome.other_outcome _) (some f) = ground arith

IsEngineDetail-cause_valid : (s : CauseId) → IsEngineDetail s → cause_valid s ≡ true
unfolding cause_valid
IsEngineDetail-cause_valid s h = ground arith

cause_valid-ne : (c : CauseId) → cause_valid c ≡ true → c ≢ no_cause
unfolding cause_valid
cause_valid-ne c h = ground arith

cause_fault-Attributes : (o : Outcome) (c s : CauseId) → cause_fault o c s ≡ none → Attributes o c s
unfolding cause_fault
cause_fault-Attributes o c s h = ground (
  arith,
  cause_eq_iff c no_cause,
  cause_eq_iff s no_cause,
  is_sub_cause_of_iff s c,
  IsEngineDetail-cause_valid s,
  cause_valid-ne c,
)

Attributes-cause_fault : (o : Outcome) (c s : CauseId) → Attributes o c s → cause_fault o c s ≡ none
unfolding cause_fault
Attributes-cause_fault o c s h = ground (
  arith,
  cause_eq_iff c no_cause,
  cause_eq_iff s no_cause,
  is_sub_cause_of_iff s c,
  IsEngineDetail-cause_valid s,
  cause_valid-ne c,
)

ok_inj {ℓ} : {A : Type ℓ} {a b : A} → Path (Result A) (Result.ok a) (Result.ok b) → a ≡ b
ok_inj h = cc

err_ne {ℓ} : {A : Type ℓ} {a : A} {e : Err} → Path (Result A) (Result.err e) (Result.ok a) → ⊥
err_ne h = cc

module _ {F : Type 0} (fl : FloatOps F) where
  pub record IsArgument (c : Comparison F) : Type 0 where
    pub labelled : is_blank c.label ≡ false
    pub unit_known : unit_valid c.unit ≡ true
    pub finite : (not_finite fl c.observed ≡ false) × (not_finite fl c.expected ≡ false)

  abbrev pub Argues : Option (Comparison F) → Type 0
  Argues none = Unit
  Argues (some c) = IsArgument c

  pub record IsAuditable (e : Evidence F) : Type 0 where
    pub readable : statement_blank e.statement ≡ false
    pub timed : is_zero e.at ≡ false
    pub at_utc : e.at.utc ≡ true
    pub attributed : source_valid e.source ≡ true
    pub argued : Argues e.comparison

  comparison-Argues : (c : Option (Comparison F)) → optional_comparison_fault fl c ≡ none → Argues c
  unfolding comparison_fault
  comparison-Argues none h = tt
  comparison-Argues (some c) h = ground arith

  Argues-comparison : (c : Option (Comparison F)) → Argues c → optional_comparison_fault fl c ≡ none
  unfolding comparison_fault
  Argues-comparison none h = refl
  Argues-comparison (some c) h = ground arith

  evidence_fault-IsAuditable : (e : Evidence F) → evidence_fault fl e ≡ none → IsAuditable e
  unfolding evidence_fault
  evidence_fault-IsAuditable e h = record {
    readable = ground arith;
    timed = ground arith;
    at_utc = ground arith;
    attributed = ground arith;
    argued = comparison-Argues e.comparison (ground arith);
  }

  pub IsAuditable-evidence_fault : (e : Evidence F) → IsAuditable e → evidence_fault fl e ≡ none
  unfolding evidence_fault
  IsAuditable-evidence_fault e h = ground (arith, h.timed, Argues-comparison e.comparison h.argued)

  all_evidence_fault-All :
      (es : List (Evidence F)) → all_evidence_fault fl es ≡ none → All IsAuditable es
  unfolding all_evidence_fault
  all_evidence_fault-All [] h = tt
  all_evidence_fault-All (e ∷ es) h =
      let f : evidence_fault fl e ≡ none = ground arith in
      (evidence_fault-IsAuditable e f, all_evidence_fault-All es (rw (f, all_evidence_fault) at h))

  pub All-all_evidence_fault :
      (es : List (Evidence F)) → All IsAuditable es → all_evidence_fault fl es ≡ none
  unfolding all_evidence_fault
  All-all_evidence_fault [] h = refl
  All-all_evidence_fault (e ∷ es) (h, hs) =
      rw (IsAuditable-evidence_fault e h, all_evidence_fault) (All-all_evidence_fault es hs)

  pub record MayBeEmitted (v : Verdict F) : Type 0 where
    pub outcome_known : outcome_valid v.outcome ≡ true
    pub attributes : Attributes v.outcome v.cause v.sub_cause
    pub flags_agree : FlagsAgree v.outcome v.flags
    pub confidence_known : confidence_valid v.confidence ≡ true
    pub evident : v.evidence ≢ []
    pub auditable : All IsAuditable v.evidence
    pub engine_recorded : v.engine_version ≢ ""
    pub taxonomy_recorded : v.taxonomy ≢ ""

  nonempty : (es : List (Evidence F)) → is_empty fl es ≡ false → es ≢ []
  nonempty [] h = cc
  nonempty (e ∷ es) h = λ p. cc

  is_empty-false : (es : List (Evidence F)) → es ≢ [] → is_empty fl es ≡ false
  is_empty-false [] h = absurd (h refl)
  is_empty-false (e ∷ es) h = refl

  pub new_verdict-ok :
      (d w : Verdict F)
      → new_verdict fl d ≡ Result.ok w
      → (validate fl w ≡ none) × (w ≡ stamped fl d)
  unfolding new_verdict
  new_verdict-ok d w h = elim (Option-cases (validate fl (stamped fl d))) [
    | inl e ↦
        let p : stamped fl d ≡ w = ok_inj (rw (e, new_verdict) at h) in
        (subst (λ x. validate fl x ≡ none) p e, sym p)
    | inr (x, e) ↦ absurd (err_ne (rw (e, new_verdict) at h))
  ]

  validate-MayBeEmitted : (v : Verdict F) → validate fl v ≡ none → MayBeEmitted v
  unfolding validate
  validate-MayBeEmitted v h = record {
    outcome_known = ground arith;
    attributes = cause_fault-Attributes _ _ _ (ground arith);
    flags_agree = (flags_fault-none_iff _ _).0 (ground arith);
    confidence_known = ground arith;
    evident = nonempty v.evidence (ground arith);
    auditable = all_evidence_fault-All v.evidence (ground arith);
    engine_recorded = ground (arith, str_eq_iff v.engine_version "");
    taxonomy_recorded = ground (arith, str_eq_iff v.taxonomy "");
  }

  pub MayBeEmitted-validate : (v : Verdict F) → MayBeEmitted v → validate fl v ≡ none
  unfolding validate
  MayBeEmitted-validate v m = ground (
    arith,
    Attributes-cause_fault v.outcome v.cause v.sub_cause m.attributes,
    (flags_fault-none_iff v.outcome v.flags).1 m.flags_agree,
    is_empty-false v.evidence m.evident,
    All-all_evidence_fault v.evidence m.auditable,
    str_eq_iff v.engine_version "",
    str_eq_iff v.taxonomy "",
  )

  -- `Validate` returns nil exactly for a verdict with an outcome and a confidence of the closed
  -- sets, a cause and a sub-cause that the outcome allows, flags that agree with the outcome, at
  -- least one piece of evidence, each readable, timed in UTC, attributed and with a finite labelled
  -- comparison if it has one, and both versions.
  pub verdict_validate-none_iff : (v : Verdict F) → (validate fl v ≡ none) ↔ MayBeEmitted v
  verdict_validate-none_iff v = (validate-MayBeEmitted v, MayBeEmitted-validate v)
