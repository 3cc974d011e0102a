-- ===== src/Rca/Rules/ClockTrust/Newest.antt =====
-- The newest samples that R-011 of internal/rca/rules/r011_clock_trust.go looks at.
use Prim.Native.String.{◌++◌, compare}
use Prim.Native.Nat.{Ordering}
use text.Mathlib.TextEquality.{path_by_compare}
use whymiss.Prelude.{
  Bool, true, false, List, [], ◌∷◌, String, ◌≡◌, ◌≢◌, refl, sym, ◌∙◌, subst, ◌⊎◌, inl, inr, arith,
  All, Any, Bool-cases, if◌then◌else◌,
}
use whymiss.Prelude.Int.{◌≤ℤ◌}
use whymiss.Prelude.Time.{after}
use whymiss.Domain.Slot.{SourceId, derived}
use whymiss.Domain.Attrs.{is_source}
use whymiss.Domain.Sample.{MetricSample}
use whymiss.Rca.Rules.ClockTrust.{component_name, sample_key, put_latest, latest_samples}

derived_source : (s : SourceId) → is_source derived s ≡ true → s ≡ derived
unfolding is_source
derived_source s h = ground arith

other_source : (s : SourceId) → is_source derived s ≡ false → s ≢ derived
unfolding is_source
other_source s h e = absurd (ground (arith, e))

Ordering-cases : (o : Ordering) → (o ≡ Ordering.lt) ⊎ ((o ≡ Ordering.eq) ⊎ (o ≡ Ordering.gt))
Ordering-cases Ordering.lt = inl refl
Ordering-cases Ordering.eq = inr (inl refl)
Ordering-cases Ordering.gt = inr (inr refl)

module _ {F : Type 0} where
  -- A metric is a component and a name.
  abbrev pub metric : MetricSample F → String
  metric m = component_name m.component ++ ("\0" ++ m.name)

  -- `n` measures the metric of `m` and is not older.
  abbrev pub Covers : MetricSample F → MetricSample F → Type 0
  Covers m n = (metric m ≡ metric n) × (m.at.ns ≤ℤ n.at.ns)

  same_metric :
      (m n : MetricSample F)
      → compare (sample_key m) (sample_key n) ≡ Ordering.eq
      → metric m ≡ metric n
  unfolding sample_key
  same_metric m n e = path_by_compare (metric m) (metric n) e

  Covers-trans : (p n m : MetricSample F) → Covers p n → Covers n m → Covers p m
  Covers-trans p n m (k, h) (l, g) = (k ∙ l, omega arith)

  newer : (m n : MetricSample F) → after m.at n.at ≡ true → n.at.ns ≤ℤ m.at.ns
  newer m n e = ground arith

  not_newer : (m n : MetricSample F) → after m.at n.at ≡ false → m.at.ns ≤ℤ n.at.ns
  not_newer m n e = ground arith

  put_latest_self :
      (m : MetricSample F) (ms : List (MetricSample F)) → Any (Covers m) (put_latest m ms)
  unfolding put_latest
  put_latest_self m [] = inl (refl, omega arith)
  put_latest_self m (n ∷ ms) =
      let below = put_latest_self m ms in
      elim (Ordering-cases (compare (sample_key m) (sample_key n))) [
        | inl e ↦ rw (e, put_latest) (inl (refl, omega arith))
        | inr (inl e) ↦ elim (Bool-cases (after m.at n.at)) [
          | inl a ↦ rw (e, a, put_latest) (inl (refl, omega arith))
          | inr a ↦ rw (e, a, put_latest) (inl (same_metric m n e, not_newer m n a))
        ]
        | inr (inr e) ↦ rw (e, put_latest) (inr below)
      ]

  put_latest-Covers :
      (p m : MetricSample F) (ms : List (MetricSample F))
      → Any (Covers p) ms
      → Any (Covers p) (put_latest m ms)
  unfolding put_latest
  put_latest-Covers p m [] h = absurd h
  put_latest-Covers p m (n ∷ ms) h =
      let below = put_latest-Covers p m ms in
      elim (Ordering-cases (compare (sample_key m) (sample_key n))) [
        | inl e ↦ rw (e, put_latest) (inr h)
        | inr (inl e) ↦ elim (Bool-cases (after m.at n.at)) [
          | inl a ↦
              rw (e, a, put_latest)
                (elim h [
                  | inl c ↦ inl (Covers-trans p n m c (sym (same_metric m n e), newer m n a))
                  | inr c ↦ inr c
                ])
          | inr a ↦ rw (e, a, put_latest) h
        ]
        | inr (inr e) ↦ rw (e, put_latest) (elim h [ inl c ↦ inl c | inr c ↦ inr (below c) ])
      ]

  latest_samples-Covers :
      (p : MetricSample F) (latest ms : List (MetricSample F))
      → Any (Covers p) latest
      → Any (Covers p) (latest_samples latest ms)
  unfolding latest_samples
  latest_samples-Covers p latest [] h = h
  latest_samples-Covers p latest (m ∷ ms) h = elim (Bool-cases (is_source derived m.source)) [
    | inl e ↦ rw (e, latest_samples) (latest_samples-Covers p latest ms h)
    | inr e ↦
        rw (e, latest_samples)
          (latest_samples-Covers p (put_latest m latest) ms (put_latest-Covers p m latest h))
  ]

  -- Each sample that is not derived has one of its metric, not older, among the newest.
  pub latest_samples-covered :
      (latest ms found : List (MetricSample F))
      → latest_samples latest ms ≡ found
      → All (λ (m : MetricSample F). (m.source ≡ derived) ⊎ Any (Covers m) found) ms
  unfolding latest_samples
  latest_samples-covered latest [] found h = tt
  latest_samples-covered latest (m ∷ ms) found h = elim (Bool-cases (is_source derived m.source)) [
    | inl e ↦ (
      inl (derived_source m.source e),
      latest_samples-covered latest ms found (rw (e, latest_samples) at h),
    )
    | inr e ↦
        let h' : latest_samples (put_latest m latest) ms ≡ found = rw (e, latest_samples) at h in
        (
          inr (
              subst (Any (Covers m)) h'
                (latest_samples-Covers m (put_latest m latest) ms (put_latest_self m latest))),
          latest_samples-covered (put_latest m latest) ms found h',
        )
  ]

  by_time :
      (P : MetricSample F → Type 0) (m n : MetricSample F) (ms : List (MetricSample F)) (b : Bool)
      → P m
      → P n
      → All P ms
      → All P (if b then m ∷ ms else n ∷ ms)
  by_time P m n ms true h hn hs = (h, hs)
  by_time P m n ms false h hn hs = (hn, hs)

  put_latest-All :
      (P : MetricSample F → Type 0) (m : MetricSample F) (ms : List (MetricSample F))
      → P m
      → All P ms
      → All P (put_latest m ms)
  unfolding put_latest
  put_latest-All P m [] h hs = (h, tt)
  put_latest-All P m (n ∷ ms) h (hn, hs) =
      let below = put_latest-All P m ms h hs in
      elim (Ordering-cases (compare (sample_key m) (sample_key n))) [
        | inl e ↦ rw (e, put_latest) (h, (hn, hs))
        | inr (inl e) ↦ rw (e, put_latest) (by_time P m n ms (after m.at n.at) h hn hs)
        | inr (inr e) ↦ rw (e, put_latest) (hn, below)
      ]

  -- What each sample has that is not derived, the newest ones have; and they are not derived.
  pub latest_samples-All :
      (P : MetricSample F → Type 0) (latest ms : List (MetricSample F))
      → All (λ (n : MetricSample F). (n.source ≢ derived) × P n) latest
      → All P ms
      → All (λ (n : MetricSample F). (n.source ≢ derived) × P n) (latest_samples latest ms)
  unfolding latest_samples
  latest_samples-All P latest [] hl h = hl
  latest_samples-All P latest (m ∷ ms) hl (h, hs) = elim (Bool-cases (is_source derived m.source)) [
    | inl e ↦ rw (e, latest_samples) (latest_samples-All P latest ms hl hs)
    | inr e ↦
        rw (e, latest_samples)
          (latest_samples-All P (put_latest m latest) ms
            (put_latest-All (λ (n : MetricSample F). (n.source ≢ derived) × P n) m latest
              (other_source m.source e, h) hl)
            hs)
  ]
