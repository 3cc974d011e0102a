-- ===== src/Rca/Stages/Total.antt =====
-- `Total` of internal/rca/rules/stages.go: the sum of the timed stages.
use whymiss.Prelude.{
  Bool, true, false, ◌&&◌, List, [], ◌∷◌, ◌≡◌, sym, ap, ◌∙◌, ◌⊎◌, inl, inr, arith, Bool-cases,
  if◌then◌else◌, All,
}
use whymiss.Prelude.Int.{
  ℤ, pos, ◌+ℤ◌, ◌-ℤ◌, ◌≤ℤ◌, ◌<ℤ◌, ltb_ℤ, max_int64, wrap64, int_laws, -ℤ_parts, +ℤ_parts,
  eq_of_parts, IsInt64, wrap64_id,
}
use whymiss.Prelude.Time.{Duration}
use whymiss.Domain.Timeline.{Timeline}
use whymiss.Rca.Stages.{Stages, total, total_from, compute_stages}
use whymiss.Rca.Stages.Durations.{
  IsDuration, IsMeasured, compute_stages-IsMeasured, zero-IsDuration,
}

-- The sum of the timed stages.
abbrev pub known_sum : List (Duration × Bool) → ℤ
known_sum [] = pos 0
known_sum ((value, known) ∷ rest) = (if known then value else pos 0) +ℤ known_sum rest

abbrev pub at_most : ℤ → ℤ → ℤ
at_most m a = if ltb_ℤ m a then m else a

+ℤ_zero : (a : ℤ) → a ≡ (a +ℤ pos 0)
+ℤ_zero a = eq_of_parts _ _ (omega int_laws)

+ℤ_zero_left : (a : ℤ) → (pos 0 +ℤ a) ≡ a
+ℤ_zero_left a = eq_of_parts _ _ (omega int_laws)

+ℤ_skip : (a b : ℤ) → (a +ℤ b) ≡ (a +ℤ (pos 0 +ℤ b))
+ℤ_skip a b = eq_of_parts _ _ (omega int_laws)

+ℤ_assoc : (a b c : ℤ) → ((a +ℤ b) +ℤ c) ≡ (a +ℤ (b +ℤ c))
+ℤ_assoc a b c = eq_of_parts _ _ (omega int_laws)

pub at_most_id : (m a : ℤ) → a ≤ℤ m → at_most m a ≡ a
at_most_id m a h = ground arith

at_most_over : (m a : ℤ) → m ≤ℤ a → at_most m a ≡ m
at_most_over m a h = ground arith

add_nonneg : (a b : ℤ) → pos 0 ≤ℤ a → pos 0 ≤ℤ b → pos 0 ≤ℤ (a +ℤ b)
add_nonneg a b h k = omega (int_laws, +ℤ_parts a b)

known_sum-nonneg :
    (parts : List (Duration × Bool))
    → All (λ (p : Duration × Bool). IsDuration p.0) parts
    → pos 0 ≤ℤ known_sum parts
known_sum-nonneg [] h = omega arith
known_sum-nonneg ((value, true) ∷ rest) (h, hs) =
    let ih = known_sum-nonneg rest hs in add_nonneg value (known_sum rest) h.0 ih
known_sum-nonneg ((value, false) ∷ rest) (h, hs) =
    let ih = known_sum-nonneg rest hs in add_nonneg (pos 0) (known_sum rest) (omega arith) ih

-- The guard of `Total` against an overflow.
abbrev would_overflow : Duration → Duration → Bool
would_overflow acc value = ltb_ℤ (pos 0) value && ltb_ℤ (max_int64 -ℤ value) acc

overflows :
    (acc value k : ℤ)
    → IsDuration acc
    → IsDuration value
    → pos 0 ≤ℤ k
    → would_overflow acc value ≡ true
    → max_int64 ≤ℤ (acc +ℤ (value +ℤ k))
overflows acc value k a v n h =
    let lt : (max_int64 -ℤ value) <ℤ acc = ground arith in
    omega (int_laws, -ℤ_parts max_int64 value, +ℤ_parts acc (value +ℤ k), +ℤ_parts value k)

fits :
    (acc value : ℤ)
    → IsDuration acc
    → IsDuration value
    → would_overflow acc value ≡ false
    → IsDuration (acc +ℤ value)
fits acc value a v h =
    let le : (value ≤ℤ pos 0) ⊎ (acc ≤ℤ (max_int64 -ℤ value)) = ground arith in
    elim le [
      | inl z ↦ (omega (int_laws, +ℤ_parts acc value), omega (int_laws, +ℤ_parts acc value))
      | inr z ↦ (
        omega (int_laws, +ℤ_parts acc value),
        omega (int_laws, +ℤ_parts acc value, -ℤ_parts max_int64 value),
      )
    ]

IsDuration-IsInt64 : (a : ℤ) → IsDuration a → IsInt64 a
IsDuration-IsInt64 a h = (omega arith, h.1)

total_from-sum :
    (acc : Duration) (parts : List (Duration × Bool))
    → IsDuration acc
    → All (λ (p : Duration × Bool). IsDuration p.0) parts
    → total_from acc parts ≡ at_most max_int64 (acc +ℤ known_sum parts)
unfolding total_from
total_from-sum acc [] h hs =
    sym (ap (at_most max_int64) (sym (+ℤ_zero acc)) ∙ at_most_id max_int64 acc h.1)
total_from-sum acc ((value, false) ∷ rest) h (hv, hs) =
    total_from-sum acc rest h hs ∙ ap (at_most max_int64) (+ℤ_skip acc (known_sum rest))
total_from-sum acc ((value, true) ∷ rest) h (hv, hs) =
    elim (Bool-cases (would_overflow acc value)) [
      | inl e ↦ rw e (
          sym (
            at_most_over max_int64 _
              (overflows acc value (known_sum rest) h hv (known_sum-nonneg rest hs) e)))
      | inr e ↦
          let d = fits acc value h hv e in
          let w : wrap64 (acc +ℤ value) ≡ acc +ℤ value =
            wrap64_id (acc +ℤ value) (IsDuration-IsInt64 (acc +ℤ value) d) in
          rw (e, w)
            (total_from-sum (acc +ℤ value) rest d hs
              ∙ ap (at_most max_int64) (+ℤ_assoc acc value (known_sum rest)))
    ]

-- The stages with whether each is timed.
abbrev pub parts_of : Stages → List (Duration × Bool)
parts_of s =
    (s.propagation_time, s.has_propagation)
    ∷ (s.validation_time, s.has_validation)
    ∷ (s.signing_time, s.has_signing)
    ∷ []

total-known_sum : (s : Stages) → IsMeasured s → total s ≡ at_most max_int64 (known_sum (parts_of s))
unfolding total
total-known_sum s m =
    total_from-sum (pos 0) (parts_of s) zero-IsDuration
      (m.propagation_bounds, (m.validation_bounds, (m.signing_bounds, tt)))
    ∙ ap (at_most max_int64) (+ℤ_zero_left (known_sum (parts_of s)))

-- On any timeline, the total is the exact sum of the timed stages, cut off at the greatest int64: it
-- never wraps around.
pub total-compute_stages :
    {F : Type 0} (tl : Timeline F)
    → total (compute_stages tl) ≡ at_most max_int64 (known_sum (parts_of (compute_stages tl)))
total-compute_stages tl = total-known_sum (compute_stages tl) (compute_stages-IsMeasured tl)
