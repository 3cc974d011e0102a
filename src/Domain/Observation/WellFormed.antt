-- ===== src/Domain/Observation/WellFormed.antt =====
-- What internal/domain/observation.go accepts.
use whymiss.Prelude.{
  Bool, true, false, ◌≡◌, ◌≢◌, refl, ◌↔◌, ◌⊎◌, [], ◌∷◌, none, String, ◌≤◌, arith, All,
}
use whymiss.Prelude.Int.{ℤ, pos}
use whymiss.Prelude.Text.{str_eq_iff, byte_len}
use whymiss.Prelude.Time.{Time, is_zero}
use whymiss.Prelude.Float.{FloatOps}
use whymiss.Domain.Kinds.{ObservationKind, kind_valid}
use whymiss.Domain.Attrs.{
  AttrKey, head_correct, target_correct, payload_present, permitted_for, source_permitted_for,
  validate_observation_attr,
}
use whymiss.Domain.Attrs.Vocabulary.{vocabulary_closed, attr_eq_iff}
use whymiss.Domain.Observation.{Observation, Attrs, clock_fault, attr_fault, attrs_fault, validate}

-- A measured offset comes with the UTC instant of its sample; an unmeasured one carries nothing.
abbrev pub ClockConsistent : Bool → ℤ → Time → Type 0
ClockConsistent true offset sample_at = (is_zero sample_at ≡ false) × (sample_at.utc ≡ true)
ClockConsistent false offset sample_at = (offset ≡ pos 0) × (is_zero sample_at ≡ true)

pub clock_fault-none_iff :
    (m : Bool) (offset : ℤ) (at : Time)
    → (clock_fault m offset at ≡ none) ↔ ClockConsistent m offset at
clock_fault-none_iff true offset at =
    (unfold clock_fault in λ h. ground arith, unfold clock_fault in λ h. ground arith)
clock_fault-none_iff false offset at =
    (unfold clock_fault in λ h. ground arith, unfold clock_fault in λ h. ground arith)

module _ {F : Type 0} (fl : FloatOps F) where
  pub record AttrAccepted (kind : ObservationKind) (key : AttrKey) (v : String) : Type 0 where
    pub permitted : permitted_for key kind ≡ true
    pub nonempty : v ≢ ""
    pub short : byte_len v ≤ 256
    pub flag :
        ((key ≢ head_correct) × (key ≢ target_correct) × (key ≢ payload_present))
        ⊎ ((v ≡ "true") ⊎ (v ≡ "false"))
    pub value_accepted : validate_observation_attr fl key v ≡ true

  pub record IsWellFormed (o : Observation) : Type 0 where
    pub kind_known : kind_valid o.kind ≡ true
    pub timed : is_zero o.at ≡ false
    pub at_utc : o.at.utc ≡ true
    pub attributed : source_permitted_for o.source o.kind ≡ true
    pub clock_consistent : ClockConsistent o.clock_measured o.clock_offset o.clock_sample_at
    pub attrs_accepted : All (λ (kv : AttrKey × String). AttrAccepted o.kind kv.0 kv.1) o.attrs

  attr_fault-AttrAccepted :
      (kind : ObservationKind) (key : AttrKey) (v : String)
      → attr_fault fl kind (key, v) ≡ none
      → AttrAccepted kind key v
  unfolding attr_fault
  attr_fault-AttrAccepted kind key v h = ground (
    arith,
    str_eq_iff v "",
    str_eq_iff v "true",
    str_eq_iff v "false",
    attr_eq_iff key head_correct,
    attr_eq_iff key target_correct,
    attr_eq_iff key payload_present,
  )

  AttrAccepted-attr_fault :
      (kind : ObservationKind) (key : AttrKey) (v : String)
      → AttrAccepted kind key v
      → attr_fault fl kind (key, v) ≡ none
  unfolding attr_fault
  AttrAccepted-attr_fault kind key v h = ground (
    arith,
    h.flag,
    str_eq_iff v "",
    str_eq_iff v "true",
    str_eq_iff v "false",
    attr_eq_iff key head_correct,
    attr_eq_iff key target_correct,
    attr_eq_iff key payload_present,
  )

  attrs_fault-All :
      (kind : ObservationKind) (attrs : Attrs)
      → attrs_fault fl kind attrs ≡ none
      → All (λ (kv : AttrKey × String). AttrAccepted kind kv.0 kv.1) attrs
  unfolding attrs_fault
  attrs_fault-All kind [] h = tt
  attrs_fault-All kind ((key, v) ∷ rest) h =
      let e : attr_fault fl kind (key, v) ≡ none = ground arith in
      (attr_fault-AttrAccepted kind key v e, attrs_fault-All kind rest (ground arith))

  All-attrs_fault :
      (kind : ObservationKind) (attrs : Attrs)
      → All (λ (kv : AttrKey × String). AttrAccepted kind kv.0 kv.1) attrs
      → attrs_fault fl kind attrs ≡ none
  unfolding attrs_fault
  All-attrs_fault kind [] h = refl
  All-attrs_fault kind ((key, v) ∷ rest) (h, hs) =
      rw (AttrAccepted-attr_fault kind key v h, attrs_fault) (All-attrs_fault kind rest hs)

  validate-IsWellFormed : (o : Observation) → validate fl o ≡ none → IsWellFormed o
  unfolding validate
  validate-IsWellFormed o h = record {
    kind_known = ground arith;
    timed = ground arith;
    at_utc = ground arith;
    attributed = ground arith;
    clock_consistent = (clock_fault-none_iff _ _ _).0 (ground arith);
    attrs_accepted = attrs_fault-All _ _ (ground arith);
  }

  IsWellFormed-validate : (o : Observation) → IsWellFormed o → validate fl o ≡ none
  unfolding validate
  IsWellFormed-validate o w = ground (
    arith,
    (clock_fault-none_iff _ _ _).1 w.clock_consistent,
    All-attrs_fault _ _ w.attrs_accepted,
    vocabulary_closed o.kind head_correct o.source,
  )

  -- `Validate` returns nil exactly for an observation of a known kind, at a non-zero UTC instant,
  -- from a source that the kind permits, with consistent clock metadata, each of whose attributes
  -- the kind permits with a non-empty value of at most 256 bytes that its key accepts (`true` or
  -- `false` for the three verdict keys).
  pub observation_validate-none_iff : (o : Observation) → (validate fl o ≡ none) ↔ IsWellFormed o
  observation_validate-none_iff o = (validate-IsWellFormed o, IsWellFormed-validate o)
