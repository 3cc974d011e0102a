-- ===== src/Domain/Timeline/Queries.antt =====
-- What the queries of internal/domain/timeline.go find on a timeline.
use whymiss.Prelude.{
  none_ne_some, true_ne_false, some_inj, sym, Bool, true, false, is_some, List, [], ◌∷◌, none, some,
  ◌≡◌, refl, ap, ◌∙◌, subst, ◌⊎◌, inl, inr, arith, ltb, Bool-cases, Option-cases, All, Any, ◌≢◌,
  find_first, find_last, count_of,
}
use whymiss.Prelude.Int.{◌≤ℤ◌}
use whymiss.Prelude.Time.{Time}
use whymiss.Domain.Kinds.{ObservationKind, kind_eq_iff}
use whymiss.Domain.Observation.{Observation}
use whymiss.Domain.Timeline.{Timeline, is_kind, first, last, has, count}
use whymiss.Domain.Timeline.Loops.{IsSorted}

-- An observation of the kind stands between two instants.
abbrev pub IsBetween : ObservationKind → Time → Time → Observation → Type 0
IsBetween k a b p = (p.kind ≢ k) ⊎ ((a.ns ≤ℤ p.at.ns) × (p.at.ns ≤ℤ b.ns))

abbrev NotAfterAll : ObservationKind → Time → List Observation → Type 0
NotAfterAll k t os = All (λ (p : Observation). (is_kind k p ≡ false) ⊎ (t.ns ≤ℤ p.at.ns)) os

abbrev NotBeforeAll : ObservationKind → Time → List Observation → Type 0
NotBeforeAll k t os = All (λ (p : Observation). (is_kind k p ≡ false) ⊎ (p.at.ns ≤ℤ t.ns)) os

weaken-All :
    (k : ObservationKind) (t : Time) (os : List Observation)
    → All (λ (p : Observation). t.ns ≤ℤ p.at.ns) os
    → NotAfterAll k t os
weaken-All k t [] h = tt
weaken-All k t (o ∷ os) (h, hs) = (inr h, weaken-All k t os hs)

find_first-earliest :
    (k : ObservationKind) (os : List Observation) (a : Observation)
    → IsSorted os
    → find_first (is_kind k) os ≡ some a
    → NotAfterAll k a.at os
find_first-earliest k [] a s h = tt
find_first-earliest k (o ∷ os) a (later, s) h = elim (Bool-cases (is_kind k o)) [
  | inl e ↦
      let p : o ≡ a = some_inj (rw e at h) in
      subst (λ x. NotAfterAll k x.at (o ∷ os)) p (inr (omega arith), weaken-All k o.at os later)
  | inr e ↦ (inl e, find_first-earliest k os a s (rw e at h))
]

find_last-later :
    (k : ObservationKind) (t : Time) (os : List Observation) (b : Observation)
    → All (λ (p : Observation). t.ns ≤ℤ p.at.ns) os
    → find_last (is_kind k) os ≡ some b
    → t.ns ≤ℤ b.at.ns
find_last-later k t [] b h e = absurd (none_ne_some e)
find_last-later k t (o ∷ os) b (h, hs) e = elim (Option-cases (find_last (is_kind k) os)) [
  | inl n ↦ ground arith
  | inr (c, n) ↦ let p : c ≡ b = some_inj (rw n at e) in find_last-later k t os b hs (n ∙ ap some p)
]

find_last-none :
    (k : ObservationKind) (t : Time) (os : List Observation)
    → find_last (is_kind k) os ≡ none
    → NotBeforeAll k t os
find_last-none k t [] h = tt
find_last-none k t (o ∷ os) h = elim (Option-cases (find_last (is_kind k) os)) [
  | inl n ↦ (inl (ground arith), find_last-none k t os n)
  | inr (c, n) ↦ absurd (none_ne_some (sym (rw n at h)))
]

find_last-latest :
    (k : ObservationKind) (os : List Observation) (b : Observation)
    → IsSorted os
    → find_last (is_kind k) os ≡ some b
    → NotBeforeAll k b.at os
find_last-latest k [] b s h = tt
find_last-latest k (o ∷ os) b (later, s) h = elim (Option-cases (find_last (is_kind k) os)) [
  | inl n ↦
      let p : o ≡ b = ground arith in
      subst (λ x. NotBeforeAll k x.at (o ∷ os)) p (inr (omega arith), find_last-none k o.at os n)
  | inr (c, n) ↦
      let p : c ≡ b = some_inj (rw n at h) in
      (
        inr (find_last-later k o.at os b later (n ∙ ap some p)),
        find_last-latest k os b s (n ∙ ap some p),
      )
]

-- The searches return an element of the list, of the kind.
find_first-found :
    (p : Observation → Bool) (os : List Observation) (a : Observation)
    → find_first p os ≡ some a
    → (p a ≡ true) × Any (λ (o : Observation). o ≡ a) os
find_first-found p [] a h = absurd (none_ne_some h)
find_first-found p (o ∷ os) a h = elim (Bool-cases (p o)) [
  | inl e ↦ let q : o ≡ a = some_inj (rw e at h) in (subst (λ x. p x ≡ true) q e, inl q)
  | inr e ↦ let (k, m) = find_first-found p os a (rw e at h) in (k, inr m)
]

find_last-found :
    (p : Observation → Bool) (os : List Observation) (b : Observation)
    → find_last p os ≡ some b
    → (p b ≡ true) × Any (λ (o : Observation). o ≡ b) os
find_last-found p [] b h = absurd (none_ne_some h)
find_last-found p (o ∷ os) b h = elim (Option-cases (find_last p os)) [
  | inl n ↦ elim (Bool-cases (p o)) [
    | inl e ↦ let q : o ≡ b = some_inj (rw (n, e) at h) in (subst (λ x. p x ≡ true) q e, inl q)
    | inr e ↦ absurd (none_ne_some (rw (n, e) at h))
  ]
  | inr (c, n) ↦
      let (k, m) = find_last-found p os b (n ∙ ap some (some_inj (rw n at h))) in (k, inr m)
]

not_kind : (k : ObservationKind) (o : Observation) → is_kind k o ≡ false → o.kind ≢ k
not_kind k o e q = true_ne_false (sym ((kind_eq_iff o.kind k).1 q) ∙ e)

between :
    (k : ObservationKind) (a b : Time) (os : List Observation)
    → NotAfterAll k a os
    → NotBeforeAll k b os
    → All (IsBetween k a b) os
between k a b [] h g = tt
between k a b (o ∷ os) (h, hs) (g, gs) = (
  elim h [
    | inl e ↦ inl (not_kind k o e)
    | inr l ↦ elim g [ inl e ↦ inl (not_kind k o e) | inr u ↦ inr (l, u) ]
  ],
  between k a b os hs gs,
)

-- The number of observations of a kind is positive exactly when one is found.
find_first-count :
    (p : Observation → Bool) (os : List Observation)
    → is_some (find_first p os) ≡ ltb 0 (count_of p os)
find_first-count p [] = refl
find_first-count p (o ∷ os) = let ih = find_first-count p os in ground arith

find_last-count :
    (p : Observation → Bool) (os : List Observation)
    → is_some (find_last p os) ≡ ltb 0 (count_of p os)
find_last-count p [] = refl
find_last-count p (o ∷ os) = let ih = find_last-count p os in ground arith

module _ {F : Type 0} (t : Timeline F) (k : ObservationKind) where
  -- On a timeline whose observations stand in the order of time, and where `First` and `Last` return
  -- observations for a kind: both are observations of the timeline and of the kind, and every
  -- observation of the kind stands between them.
  pub first-last-IsBetween :
      (a b : Observation)
      → IsSorted t.observations
      → first k t ≡ some a
      → last k t ≡ some b
      → ((a.kind ≡ k) × Any (λ (o : Observation). o ≡ a) t.observations)
        × ((b.kind ≡ k) × Any (λ (o : Observation). o ≡ b) t.observations)
        × All (IsBetween k a.at b.at) t.observations
  unfolding first last
  first-last-IsBetween a b s f l =
      let (ka, ia) = find_first-found (is_kind k) t.observations a f in
      let (kb, ib) = find_last-found (is_kind k) t.observations b l in
      (
        ((kind_eq_iff a.kind k).0 ka, ia),
        ((kind_eq_iff b.kind k).0 kb, ib),
        between k a.at b.at t.observations (find_first-earliest k t.observations a s f)
            (find_last-latest k t.observations b s l),
      )

  -- `Has`, `First`, `Last` and `Count` agree on whether there is an observation of a kind.
  pub has-count :
      (has k t ≡ ltb 0 (count k t))
      × (is_some (first k t) ≡ ltb 0 (count k t))
      × (is_some (last k t) ≡ ltb 0 (count k t))
  unfolding has first last count
  has-count = (
    find_first-count (is_kind k) t.observations,
    find_first-count (is_kind k) t.observations,
    find_last-count (is_kind k) t.observations,
  )
