-- ===== src/Rca/Stages/Span.antt =====
-- The stages of internal/rca/rules/stages.go as a partition of the time to the publication.
use whymiss.Prelude.{
  true, false, [], ◌∷◌, some, ◌≡◌, refl, sym, ap, ◌∙◌, subst, inl, inr, arith, Bool-cases,
  Option-cases,
}
use whymiss.Prelude.Int.{
  ℤ, pos, ◌+ℤ◌, ◌-ℤ◌, ◌≤ℤ◌, max_int64, int_laws, -ℤ_parts, eq_of_parts, clamp64_id,
}
use whymiss.Prelude.Time.{Time, before, sub_time}
use whymiss.Domain.Kinds.{head_updated, attestation_published}
use whymiss.Domain.Observation.{Observation}
use whymiss.Domain.Timeline.{Timeline, first}
use whymiss.Rca.Stages.{total, compute_stages, arrival}
use whymiss.Rca.Stages.Durations.{arrival-after}
use whymiss.Rca.Stages.Total.{at_most, known_sum, parts_of, total-compute_stages, at_most_id}

le_of_before : (a b : Time) → before a b ≡ false → b.ns ≤ℤ a.ns
le_of_before a b h = ground arith

sub_time_exact :
    (a b : Time) → b.ns ≤ℤ a.ns → (a.ns -ℤ b.ns) ≤ℤ max_int64 → sub_time a b ≡ (a.ns -ℤ b.ns)
unfolding sub_time
sub_time_exact a b le fits = clamp64_id (a.ns -ℤ b.ns) (omega (int_laws, -ℤ_parts a.ns b.ns), fits)

-- The parts of an interval add up to it.
module _ (s b h p : Time) (sb : s.ns ≤ℤ b.ns) (bh : b.ns ≤ℤ h.ns) (hp : h.ns ≤ℤ p.ns)
    (fits : (p.ns -ℤ s.ns) ≤ℤ max_int64) where
  first_part : sub_time b s ≡ (b.ns -ℤ s.ns)
  first_part = sub_time_exact b s sb (omega (int_laws, -ℤ_parts b.ns s.ns, -ℤ_parts p.ns s.ns))

  second_part : sub_time h b ≡ (h.ns -ℤ b.ns)
  second_part = sub_time_exact h b bh (omega (int_laws, -ℤ_parts h.ns b.ns, -ℤ_parts p.ns s.ns))

  third_part : sub_time p h ≡ (p.ns -ℤ h.ns)
  third_part = sub_time_exact p h hp (omega (int_laws, -ℤ_parts p.ns h.ns, -ℤ_parts p.ns s.ns))

  whole : sub_time p s ≡ (p.ns -ℤ s.ns)
  whole = sub_time_exact p s (omega arith) fits

  telescope : ((b.ns -ℤ s.ns) +ℤ ((h.ns -ℤ b.ns) +ℤ ((p.ns -ℤ h.ns) +ℤ pos 0))) ≡ (p.ns -ℤ s.ns)
  telescope = eq_of_parts _ _ (omega int_laws)

  parts_sum : (sub_time b s +ℤ (sub_time h b +ℤ (sub_time p h +ℤ pos 0))) ≡ sub_time p s
  parts_sum = rw (first_part, second_part, third_part, whole) telescope

module _ {F : Type 0} (tl : Timeline F) where
  -- A timed signing stage has a block, a head and a publication, each not before the last.
  signed :
      (p : Observation)
      → first attestation_published tl ≡ some p
      → (compute_stages tl).has_signing ≡ true
      → (b h : Observation) × (tl.slot_start.ns ≤ℤ b.at.ns)
        × (b.at.ns ≤ℤ h.at.ns)
        × (h.at.ns ≤ℤ p.at.ns)
        × (parts_of (compute_stages tl) ≡ (
            (sub_time b.at tl.slot_start, true)
            ∷ (sub_time h.at b.at, true)
            ∷ (sub_time p.at h.at, true)
            ∷ []))
  unfolding compute_stages
  signed p e sig = elim (Option-cases (arrival tl)) [
    | inl n ↦ absurd (ground arith)
    | inr (b, eb) ↦ elim (Option-cases (first head_updated tl)) [
      | inl n ↦ absurd (ground arith)
      | inr (h, eh) ↦ elim (Bool-cases (before h.at b.at)) [
        | inl x ↦ absurd (ground arith)
        | inr x ↦ elim (Bool-cases (before p.at h.at)) [
          | inl y ↦ absurd (ground arith)
          | inr y ↦ (
            b,
            h,
            le_of_before b.at tl.slot_start (arrival-after tl b eb),
            le_of_before h.at b.at x,
            le_of_before p.at h.at y,
            rw (eb, eh, e, x, y, compute_stages) refl,
          )
        ]
      ]
    ]
  ]

  -- Where the signing stage is timed and the first publication stands within int64 nanoseconds of
  -- the slot's start, the three stages add up to exactly that span.
  pub total-sub_time :
      (p : Observation)
      → first attestation_published tl ≡ some p
      → (compute_stages tl).has_signing ≡ true
      → (p.at.ns -ℤ tl.slot_start.ns) ≤ℤ max_int64
      → total (compute_stages tl) ≡ sub_time p.at tl.slot_start
  total-sub_time p e sig fits =
      let (b, h, sb, bh, hp, parts) = signed p e sig in
      let sum : known_sum (parts_of (compute_stages tl)) ≡ sub_time p.at tl.slot_start =
        ap known_sum parts ∙ parts_sum tl.slot_start b.at h.at p.at sb bh hp fits in
      let bound : sub_time p.at tl.slot_start ≤ℤ max_int64 =
        subst (λ (x : ℤ). x ≤ℤ max_int64) (sym (whole tl.slot_start b.at h.at p.at sb bh hp fits))
          fits in
      total-compute_stages tl
      ∙ ap (at_most max_int64) sum
      ∙ at_most_id max_int64 (sub_time p.at tl.slot_start) bound
