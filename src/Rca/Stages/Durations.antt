-- ===== src/Rca/Stages/Durations.antt =====
-- `computeStages` of internal/rca/rules/stages.go: the durations of the stages.
use whymiss.Prelude.{
  true, false, Option, none, some, ◌≡◌, refl, ◌⊎◌, inl, inr, arith, Bool-cases, Option-cases,
}
use whymiss.Prelude.Int.{ℤ, pos, negsuc, ◌-ℤ◌, ◌≤ℤ◌, max_int64, clamp64, int_laws, -ℤ_parts}
use whymiss.Prelude.Time.{Time, Duration, before, sub_time}
use whymiss.Domain.Kinds.{head_updated, attestation_published}
use whymiss.Domain.Observation.{Observation}
use whymiss.Domain.Timeline.{Timeline, first}
use whymiss.Rca.Stages.{
  Stages, compute_stages, arrival, no_stages, without_head, with_head, arrived, validated,
}

abbrev pub IsDuration : Duration → Type 0
IsDuration d = (pos 0 ≤ℤ d) × (d ≤ℤ max_int64)

-- No duration is negative, and a stage is timed only after the one before it.
pub record IsMeasured (s : Stages) : Type 0 where
  pub propagation_bounds : IsDuration s.propagation_time
  pub validation_bounds : IsDuration s.validation_time
  pub signing_bounds : IsDuration s.signing_time
  pub validation_follows : (s.has_validation ≡ false) ⊎ (s.has_propagation ≡ true)
  pub signing_follows : (s.has_signing ≡ false) ⊎ (s.has_validation ≡ true)

clamp64-IsDuration : (a : ℤ) → pos 0 ≤ℤ a → IsDuration (clamp64 a)
unfolding clamp64
clamp64-IsDuration (pos n) h = ground arith
clamp64-IsDuration (negsuc n) h = ground arith

nonneg_sub : (a b : Time) → before a b ≡ false → pos 0 ≤ℤ (a.ns -ℤ b.ns)
nonneg_sub a b h = let le : b.ns ≤ℤ a.ns = ground arith in omega (int_laws, -ℤ_parts a.ns b.ns)

sub_time-IsDuration : (a b : Time) → before a b ≡ false → IsDuration (sub_time a b)
unfolding sub_time
sub_time-IsDuration a b h = clamp64-IsDuration (a.ns -ℤ b.ns) (nonneg_sub a b h)

pub zero-IsDuration : IsDuration (pos 0)
zero-IsDuration = (omega arith, omega arith)

none-IsMeasured : IsMeasured no_stages
none-IsMeasured = record {
  propagation_bounds = zero-IsDuration;
  validation_bounds = zero-IsDuration;
  signing_bounds = zero-IsDuration;
  validation_follows = inl refl;
  signing_follows = inl refl;
}

arrived-IsMeasured :
    (t : Time) (b : Observation) → IsDuration (sub_time b.at t) → IsMeasured (arrived t b)
arrived-IsMeasured t b d = record {
  propagation_bounds = d;
  validation_bounds = zero-IsDuration;
  signing_bounds = zero-IsDuration;
  validation_follows = inl refl;
  signing_follows = inl refl;
}

validated-IsMeasured :
    (t : Time) (b : Observation) (v : Duration)
    → IsDuration (sub_time b.at t)
    → IsDuration v
    → IsMeasured (validated (arrived t b) v)
validated-IsMeasured t b v d dv = record {
  propagation_bounds = d;
  validation_bounds = dv;
  signing_bounds = zero-IsDuration;
  validation_follows = inr refl;
  signing_follows = inl refl;
}

module _ (t : Time) (b : Observation) (d : IsDuration (sub_time b.at t)) where
  without_head-IsMeasured : (p : Option Observation) → IsMeasured (without_head (arrived t b) b p)
  without_head-IsMeasured none = arrived-IsMeasured t b d
  without_head-IsMeasured (some p) = elim (Bool-cases (before p.at b.at)) [
    | inl e ↦ rw e (arrived-IsMeasured t b d)
    | inr e ↦ rw e (validated-IsMeasured t b _ d (sub_time-IsDuration p.at b.at e))
  ]

  with_head-IsMeasured :
      (h : Observation) (p : Option Observation) → IsMeasured (with_head (arrived t b) b h p)
  with_head-IsMeasured h none = elim (Bool-cases (before h.at b.at)) [
    | inl e ↦ rw e (arrived-IsMeasured t b d)
    | inr e ↦ rw e (validated-IsMeasured t b _ d (sub_time-IsDuration h.at b.at e))
  ]
  with_head-IsMeasured h (some p) = elim (Bool-cases (before h.at b.at)) [
    | inl e ↦ rw e (arrived-IsMeasured t b d)
    | inr e ↦ elim (Bool-cases (before p.at h.at)) [
      | inl l ↦ rw (e, l) (validated-IsMeasured t b _ d (sub_time-IsDuration h.at b.at e))
      | inr l ↦
          rw (e, l)
            (record {
              propagation_bounds = d;
              validation_bounds = sub_time-IsDuration h.at b.at e;
              signing_bounds = sub_time-IsDuration p.at h.at l;
              validation_follows = inr refl;
              signing_follows = inr refl;
            })
    ]
  ]

module _ {F : Type 0} where
  pub arrival-after :
      (tl : Timeline F) (b : Observation) → arrival tl ≡ some b → before b.at tl.slot_start ≡ false
  unfolding arrival
  arrival-after tl b h = ground arith

  -- On any timeline the durations of the stages are non-negative int64 values, and no stage is timed
  -- without the one before it.
  pub compute_stages-IsMeasured : (tl : Timeline F) → IsMeasured (compute_stages tl)
  unfolding compute_stages
  compute_stages-IsMeasured tl = elim (Option-cases (arrival tl)) [
    | inl e ↦ rw (e, compute_stages) none-IsMeasured
    | inr (b, e) ↦
        let p = sub_time-IsDuration b.at tl.slot_start (arrival-after tl b e) in
        elim (Option-cases (first head_updated tl)) [
          | inl n ↦
              rw (e, n, compute_stages)
                (without_head-IsMeasured tl.slot_start b p (first attestation_published tl))
          | inr (h, n) ↦
              rw (e, n, compute_stages)
                (with_head-IsMeasured tl.slot_start b p h (first attestation_published tl))
        ]
  ]
