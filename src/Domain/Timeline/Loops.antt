-- ===== src/Domain/Timeline/Loops.antt =====
-- What the loops of `Timeline.Validate` establish.
use whymiss.Prelude.{
  ℕ, ◌+◌, ◌≤◌, ◌<◌, false, List, [], ◌∷◌, Option, none, some, ◌≡◌, refl, ap, ◌∙◌, arith, All,
  count_of, if◌then◌else◌,
}
use whymiss.Prelude.Int.{ℤ, ◌≤ℤ◌}
use whymiss.Prelude.Time.{Time, before}
use whymiss.Prelude.Float.{FloatOps}
use whymiss.Domain.Errors.{ok}
use whymiss.Domain.Slot.{last_attestation_inclusion_slot}
use whymiss.Domain.Kinds.{collection_completed, reorg, kind_eq_iff}
use whymiss.Domain.Observation.{Observation}
use whymiss.Domain.Observation
use whymiss.Domain.Sample.{MetricSample}
use whymiss.Domain.Sample
use whymiss.Domain.Timeline.{
  is_kind, is_before, observation_fault, scan, reorg_fault, reorgs_fault, samples_fault,
}

-- The observations stand in the order of their instants.
abbrev pub IsSorted : List Observation → Type 0
IsSorted [] = Unit
IsSorted (o ∷ rest) = All (λ (p : Observation). o.at.ns ≤ℤ p.at.ns) rest × IsSorted rest

-- The time of the last completion record, or `at`.
abbrev pub completion_time : Time → List Observation → Time
completion_time at [] = at
completion_time at (o ∷ rest) =
    completion_time (if is_kind collection_completed o then o.at else at) rest

-- No observation of the list is before `prev`.
abbrev NotBefore : Option Time → List Observation → Type 0
NotBefore none os = Unit
NotBefore (some t) os = All (λ (p : Observation). t.ns ≤ℤ p.at.ns) os

le_of_not_before : (o : Observation) (t : Time) → before o.at t ≡ false → t.ns ≤ℤ o.at.ns
le_of_not_before o t h = ground arith

not_before_of_le : (o : Observation) (t : Time) → t.ns ≤ℤ o.at.ns → before o.at t ≡ false
not_before_of_le o t h = ground arith

All-le :
    (a b : ℤ) (os : List Observation)
    → a ≤ℤ b
    → All (λ (p : Observation). b ≤ℤ p.at.ns) os
    → All (λ (p : Observation). a ≤ℤ p.at.ns) os
All-le a b [] h k = tt
All-le a b (o ∷ os) h (k, ks) = (omega arith, All-le a b os h ks)

-- A chain whose members are each not before their predecessor is sorted.
NotBefore-cons :
    (o : Observation) (os : List Observation) (prev : Option Time)
    → is_before o.at prev ≡ false
    → All (λ (p : Observation). o.at.ns ≤ℤ p.at.ns) os
    → NotBefore prev (o ∷ os)
NotBefore-cons o os none h k = tt
NotBefore-cons o os (some t) h k =
    let e : t.ns ≤ℤ o.at.ns = le_of_not_before o t h in (e, All-le t.ns o.at.ns os e k)

is_before-none :
    (o : Observation) (os : List Observation) (prev : Option Time)
    → NotBefore prev (o ∷ os)
    → is_before o.at prev ≡ false
is_before-none o os none h = refl
is_before-none o os (some t) h = not_before_of_le o t h.0

NotBefore-nil : (prev : Option Time) → NotBefore prev []
NotBefore-nil none = tt
NotBefore-nil (some t) = tt

module _ {F : Type 0} (fl : FloatOps F) where
  abbrev pub InSlot : ℕ → Observation → Type 0
  InSlot slot o = (Observation.validate fl o ≡ none) × (o.slot ≡ slot)

  pub observation_fault-none :
      (slot : ℕ) (prev : Option Time) (o : Observation)
      → observation_fault fl slot prev o ≡ none
      → InSlot slot o × (is_before o.at prev ≡ false)
  unfolding observation_fault
  observation_fault-none slot prev o h = ground arith

  pub none-observation_fault :
      (slot : ℕ) (prev : Option Time) (o : Observation)
      → InSlot slot o
      → is_before o.at prev ≡ false
      → observation_fault fl slot prev o ≡ none
  unfolding observation_fault
  none-observation_fault slot prev o h k = ground arith

  pub scan-ok :
      (slot : ℕ) (prev : Option Time) (n : ℕ) (at : Time) (os : List Observation) (m : ℕ) (u : Time)
      → scan fl slot prev n at os ≡ ok (m, u)
      → All (InSlot slot) os
        × IsSorted os
        × NotBefore prev os
        × (m ≡ n + count_of (is_kind collection_completed) os)
        × (u ≡ completion_time at os)
  unfolding scan
  scan-ok slot prev n at [] m u h = (tt, tt, NotBefore-nil prev, ground arith, ground arith)
  scan-ok slot prev n at (o ∷ os) m u h =
      let n' : ℕ = if is_kind collection_completed o then n + 1 else n in
      let at' : Time = if is_kind collection_completed o then o.at else at in
      let f : observation_fault fl slot prev o ≡ none = ground arith in
      let r : scan fl slot (some o.at) n' at' os ≡ ok (m, u) = rw (f, scan) at h in
      let (all, sorted, later, em, eu) = scan-ok slot (some o.at) n' at' os m u r in
      let (here, in_order) = observation_fault-none slot prev o f in
      ((here, all), (later, sorted), NotBefore-cons o os prev in_order later, ground arith, eu)

  pub ok-scan :
      (slot : ℕ) (prev : Option Time) (n : ℕ) (at : Time) (os : List Observation)
      → All (InSlot slot) os
      → IsSorted os
      → NotBefore prev os
      → scan fl slot prev n at os
        ≡ ok (n + count_of (is_kind collection_completed) os, completion_time at os)
  unfolding scan
  ok-scan slot prev n at [] h s b = ground arith
  ok-scan slot prev n at (o ∷ os) (h, hs) (s, ss) b =
      rw (none-observation_fault slot prev o h (is_before-none o os prev b), scan)
        (ok-scan slot (some o.at) (if is_kind collection_completed o then n + 1 else n)
            (if is_kind collection_completed o then o.at else at) os hs ss s
          ∙ ap (λ (k : ℕ). ok (k, completion_time at (o ∷ os))) (ground arith))

  abbrev pub InWindow : ℕ → Observation → Type 0
  InWindow slot o =
      (Observation.validate fl o ≡ none)
      × (o.kind ≡ reorg)
      × (slot < o.slot)
      × (o.slot ≤ last_attestation_inclusion_slot slot)

  pub reorg_fault-none :
      (slot : ℕ) (prev : Option Time) (o : Observation)
      → reorg_fault fl slot prev o ≡ none
      → InWindow slot o × (is_before o.at prev ≡ false)
  unfolding reorg_fault
  reorg_fault-none slot prev o h = ground (arith, kind_eq_iff o.kind reorg)

  pub none-reorg_fault :
      (slot : ℕ) (prev : Option Time) (o : Observation)
      → InWindow slot o
      → is_before o.at prev ≡ false
      → reorg_fault fl slot prev o ≡ none
  unfolding reorg_fault
  none-reorg_fault slot prev o h k = ground (arith, kind_eq_iff o.kind reorg)

  pub reorgs_fault-none :
      (slot : ℕ) (prev : Option Time) (os : List Observation)
      → reorgs_fault fl slot prev os ≡ none
      → All (InWindow slot) os × IsSorted os × NotBefore prev os
  unfolding reorgs_fault
  reorgs_fault-none slot prev [] h = (tt, tt, NotBefore-nil prev)
  reorgs_fault-none slot prev (o ∷ os) h =
      let f : reorg_fault fl slot prev o ≡ none = ground arith in
      let (all, sorted, later) =
        reorgs_fault-none slot (some o.at) os (rw (f, reorgs_fault) at h) in
      let (here, in_order) = reorg_fault-none slot prev o f in
      ((here, all), (later, sorted), NotBefore-cons o os prev in_order later)

  pub none-reorgs_fault :
      (slot : ℕ) (prev : Option Time) (os : List Observation)
      → All (InWindow slot) os
      → IsSorted os
      → NotBefore prev os
      → reorgs_fault fl slot prev os ≡ none
  unfolding reorgs_fault
  none-reorgs_fault slot prev [] h s b = refl
  none-reorgs_fault slot prev (o ∷ os) (h, hs) (s, ss) b =
      rw (none-reorg_fault slot prev o h (is_before-none o os prev b), reorgs_fault)
        (none-reorgs_fault slot (some o.at) os hs ss s)

  abbrev pub Accepted : MetricSample F → Type 0
  Accepted m = Sample.validate fl m ≡ none

  pub samples_fault-none :
      (ms : List (MetricSample F)) → samples_fault fl ms ≡ none → All Accepted ms
  unfolding samples_fault
  samples_fault-none [] h = tt
  samples_fault-none (m ∷ ms) h =
      let f : Accepted m = ground arith in (f, samples_fault-none ms (rw (f, samples_fault) at h))

  pub none-samples_fault :
      (ms : List (MetricSample F)) → All Accepted ms → samples_fault fl ms ≡ none
  unfolding samples_fault
  none-samples_fault [] h = refl
  none-samples_fault (m ∷ ms) (h, hs) = rw (h, samples_fault) (none-samples_fault ms hs)
