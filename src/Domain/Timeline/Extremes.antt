-- ===== src/Domain/Timeline/Extremes.antt =====
-- The greatest clock offset and the newest sample that internal/domain/timeline.go finds.
use whymiss.Prelude.{
  none_ne_some, some_inj, sym, Bool, true, false, ◌&&◌, ◌||◌, not, List, [], ◌∷◌, Option, none,
  some, String, ◌≡◌, refl, ap, ◌∙◌, subst, ◌⊎◌, inl, inr, arith, Bool-cases, Option-cases,
  if◌then◌else◌, All, Any,
}
use whymiss.Prelude.Int.{ℤ, ◌≤ℤ◌, ltb_ℤ}
use whymiss.Prelude.Time.{Time, Duration, after}
use whymiss.Prelude.Text.{str_eq}
use whymiss.Domain.Observation.{Observation}
use whymiss.Domain.Sample.{MetricSample, Component, component_eq}
use whymiss.Domain.Timeline.{
  Timeline, abs_duration, worst_offset, max_abs_clock_offset, raise, newest_sample, newest,
  sample_value,
}

-- A measured offset is at most `w`.
abbrev pub IsAtMost : Duration → Observation → Type 0
IsAtMost w o = (o.clock_measured ≡ false) ⊎ (abs_duration o.clock_offset ≤ℤ w)

abbrev pub Attains : Duration → Observation → Type 0
Attains w o = (o.clock_measured ≡ true) × (abs_duration o.clock_offset ≡ w)

-- What the loop returns lies above its start, bounds every measured offset, and is one of them or
-- the start.
abbrev Bounds : Option Duration → List Observation → Duration → Type 0
Bounds none os w = All (IsAtMost w) os × Any (Attains w) os
Bounds (some u) os w = (u ≤ℤ w) × All (IsAtMost w) os × ((u ≡ w) ⊎ Any (Attains w) os)

le_trans : (a b c : ℤ) → a ≤ℤ b → b ≤ℤ c → a ≤ℤ c
le_trans a b c h k = omega arith

-- One round: the start is raised by the observation.
Bounds-raise :
    (worst : Option Duration) (o : Observation) (os : List Observation) (w : Duration)
    → o.clock_measured ≡ true
    → Bounds (raise worst (abs_duration o.clock_offset)) os w
    → Bounds worst (o ∷ os) w
Bounds-raise none o os w m (le, all, at) =
    ((inr le, all), elim at [ inl e ↦ inl (m, e) | inr a ↦ inr a ])
Bounds-raise (some u) o os w m h = elim (Bool-cases (ltb_ℤ u (abs_duration o.clock_offset))) [
  | inl l ↦
      let (le, all, at) = rw l at h in
      let up : u ≤ℤ abs_duration o.clock_offset = ground arith in
      (
        le_trans u (abs_duration o.clock_offset) w up le,
        (inr le, all),
        elim at [ inl e ↦ inr (inl (m, e)) | inr a ↦ inr (inr a) ],
      )
  | inr l ↦
      let (le, all, at) = rw l at h in
      let up : abs_duration o.clock_offset ≤ℤ u = ground arith in
      (
        le,
        (inr (le_trans (abs_duration o.clock_offset) u w up le), all),
        elim at [ inl e ↦ inl e | inr a ↦ inr (inr a) ],
      )
]

Bounds-skip :
    (worst : Option Duration) (o : Observation) (os : List Observation) (w : Duration)
    → o.clock_measured ≡ false
    → Bounds worst os w
    → Bounds worst (o ∷ os) w
Bounds-skip none o os w m (all, at) = ((inl m, all), inr at)
Bounds-skip (some u) o os w m (le, all, at) =
    (le, (inl m, all), elim at [ inl e ↦ inl e | inr a ↦ inr (inr a) ])

worst_offset-Bounds :
    (os : List Observation) (worst : Option Duration) (w : Duration)
    → worst_offset worst os ≡ some w
    → Bounds worst os w
unfolding worst_offset
worst_offset-Bounds [] none w h = absurd (none_ne_some h)
worst_offset-Bounds [] (some u) w h =
    let p : u ≡ w = some_inj h in (subst (λ x. u ≤ℤ x) p (omega arith), tt, inl p)
worst_offset-Bounds (o ∷ os) worst w h = elim (Bool-cases o.clock_measured) [
  | inl m ↦ Bounds-raise worst o os w m (
      worst_offset-Bounds os (raise worst (abs_duration o.clock_offset)) w
        (rw (m, worst_offset) at h))
  | inr m ↦ Bounds-skip worst o os w m (worst_offset-Bounds os worst w (rw (m, worst_offset) at h))
]

module _ {F : Type 0} (t : Timeline F) where
  -- The offset that `MaxAbsClockOffset` returns is the absolute value of some measured offset of the
  -- timeline, and that of no measured offset is greater.
  pub max_abs_clock_offset-IsAtMost :
      (w : Duration)
      → max_abs_clock_offset t ≡ some w
      → All (IsAtMost w) t.observations × Any (Attains w) t.observations
  unfolding max_abs_clock_offset
  max_abs_clock_offset-IsAtMost w h = worst_offset-Bounds t.observations none w h

by_match {ℓ} :
    {A : Type ℓ} (p q : Bool) (x y : A)
    → (if not p || not q then x else y) ≡ (if p && q then y else x)
by_match true true x y = refl
by_match true false x y = refl
by_match false true x y = refl
by_match false false x y = refl

module _ {F : Type 0} (c : Component) (name : String) where
  abbrev matches : MetricSample F → Bool
  matches m = component_eq m.component c && str_eq m.name name

  -- A sample of the metric is not newer than an instant.
  abbrev pub IsNotNewer : Time → MetricSample F → Type 0
  IsNotNewer t m = (matches m ≡ false) ⊎ (m.at.ns ≤ℤ t.ns)

  -- A sample of the metric with this instant and value.
  abbrev pub IsReading : Time → F → MetricSample F → Type 0
  IsReading t v m = (matches m ≡ true) × (m.at ≡ t) × (m.value ≡ v)

  abbrev Newest : Option (MetricSample F) → List (MetricSample F) → MetricSample F → Type 0
  Newest none ms m = All (IsNotNewer m.at) ms × Any (IsReading m.at m.value) ms
  Newest (some b) ms m =
      (b.at.ns ≤ℤ m.at.ns) × All (IsNotNewer m.at) ms × ((b ≡ m) ⊎ Any (IsReading m.at m.value) ms)

  reading : (n m : MetricSample F) → matches n ≡ true → n ≡ m → IsReading m.at m.value n
  reading n m e p = (e, ap (λ (x : MetricSample F). x.at) p, ap (λ (x : MetricSample F). x.value) p)

  Newest-take :
      (best : Option (MetricSample F)) (n : MetricSample F) (ms : List (MetricSample F))
      (m : MetricSample F)
      → matches n ≡ true
      → Newest (some (newest best n)) ms m
      → Newest best (n ∷ ms) m
  Newest-take none n ms m e (le, all, at) =
      ((inr le, all), elim at [ inl p ↦ inl (reading n m e p) | inr a ↦ inr a ])
  Newest-take (some b) n ms m e h = elim (Bool-cases (after n.at b.at)) [
    | inl l ↦
        let (le, all, at) = rw l at h in
        let up : b.at.ns ≤ℤ n.at.ns = ground arith in
        (
          le_trans b.at.ns n.at.ns m.at.ns up le,
          (inr le, all),
          elim at [ inl p ↦ inr (inl (reading n m e p)) | inr a ↦ inr (inr a) ],
        )
    | inr l ↦
        let (le, all, at) = rw l at h in
        let up : n.at.ns ≤ℤ b.at.ns = ground arith in
        (
          le,
          (inr (le_trans n.at.ns b.at.ns m.at.ns up le), all),
          elim at [ inl p ↦ inl p | inr a ↦ inr (inr a) ],
        )
  ]

  Newest-skip :
      (best : Option (MetricSample F)) (n : MetricSample F) (ms : List (MetricSample F))
      (m : MetricSample F)
      → matches n ≡ false
      → Newest best ms m
      → Newest best (n ∷ ms) m
  Newest-skip none n ms m e (all, at) = ((inl e, all), inr at)
  Newest-skip (some b) n ms m e (le, all, at) =
      (le, (inl e, all), elim at [ inl p ↦ inl p | inr a ↦ inr (inr a) ])

  -- The test of the loop is that a sample does not match.
  newest_sample-cons :
      (best : Option (MetricSample F)) (n : MetricSample F) (ms : List (MetricSample F))
      → newest_sample c name best (n ∷ ms)
        ≡ newest_sample c name (if matches n then some (newest best n) else best) ms
  unfolding newest_sample
  newest_sample-cons best n ms =
      ap (λ b. newest_sample c name b ms)
        (by_match (component_eq n.component c) (str_eq n.name name) best (some (newest best n)))

  newest_sample-Newest :
      (ms : List (MetricSample F)) (best : Option (MetricSample F)) (m : MetricSample F)
      → newest_sample c name best ms ≡ some m
      → Newest best ms m
  unfolding newest_sample
  newest_sample-Newest [] none m h = absurd (none_ne_some h)
  newest_sample-Newest [] (some b) m h =
      let p : b ≡ m = some_inj h in
      (subst (λ (x : MetricSample F). b.at.ns ≤ℤ x.at.ns) p (omega arith), tt, inl p)
  newest_sample-Newest (n ∷ ms) best m h =
      let e = sym (newest_sample-cons best n ms) ∙ h in
      elim (Bool-cases (matches n)) [
        | inl y ↦
            Newest-take best n ms m y (newest_sample-Newest ms (some (newest best n)) m (rw y at e))
        | inr y ↦ Newest-skip best n ms m y (newest_sample-Newest ms best m (rw y at e))
      ]

  -- The value that `SampleValue` returns is that of a sample of the metric on the component, and no
  -- such sample is newer.
  pub sample_value-IsReading :
      (t : Timeline F) (v : F)
      → sample_value t c name ≡ some v
      → (u : Time) × All (IsNotNewer u) t.samples × Any (IsReading u v) t.samples
  unfolding sample_value
  sample_value-IsReading t v h = elim (Option-cases (newest_sample c name none t.samples)) [
    | inl e ↦ absurd (none_ne_some (rw (e, sample_value) at h))
    | inr (m, e) ↦
        let (all, any) = newest_sample-Newest t.samples none m e in
        let p : m.value ≡ v = some_inj (rw (e, sample_value) at h) in
        (m.at, all, subst (λ x. Any (IsReading m.at x) t.samples) p any)
  ]
