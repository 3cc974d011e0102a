-- ===== src/Rca/Rules/ClockTrust/Trusted.antt =====
-- What R-011 of internal/rca/rules/r011_clock_trust.go has checked when it declines.
use whymiss.Domain.Slot.{derived}
use whymiss.Domain.Kinds.{
  ObservationKind, slot_start, duty_assigned, block_skipped, clock_sampled, collection_completed,
  network_baseline_sampled, kind_eq, kind_eq_iff,
}
use whymiss.Prelude.{
  true_ne_false, none_ne_some, sym, Bool, true, false, not, ◌&&◌, List, [], ◌∷◌, none, ◌≡◌, refl,
  ◌∙◌, subst, ◌⊎◌, inl, inr, arith, All, Any, All-map, Any-map, Any-All, Any-self, Any-within, ◌≢◌,
  Bool-cases,
}
use whymiss.Prelude.Int.{pos, leb_ℤ, ◌≤ℤ◌}
use whymiss.Rca.Rules.ClockTrust.Newest.{Covers, latest_samples-covered, latest_samples-All}
use whymiss.Prelude.Time.{Time, Duration, is_zero, sub_time}
use whymiss.Prelude.Float.{FloatOps}
use whymiss.Domain.Observation.{Observation}
use whymiss.Domain.Sample.{MetricSample}
use whymiss.Domain.Timeline.{Timeline, abs_duration}
use whymiss.Domain.Verdict.{Verdict}
use whymiss.Rca.Config.{Config}
use whymiss.Rca.Rules.ClockTrust.{
  requires_clock_trust, Worst, no_worst, worsen, Step, stop, go, is_stale, check_observation,
  check_observations, latest_samples, check_sample, check_samples, conclude, evaluate,
}

-- A clock that was measured, recently enough, and stands within the configured offset.
pub record IsTrusted {F : Type 0} (cfg : Config F) (measured : Bool) (age offset : Duration)
    : Type 0 where
  pub was_measured : measured ≡ true
  pub bounded : pos 1 ≤ℤ cfg.clock_sample_max_age
  pub is_fresh : age ≤ℤ cfg.clock_sample_max_age
  pub is_close : abs_duration offset ≤ℤ cfg.clock_offset_max

-- The kinds whose instant no cause rests on.
abbrev pub IsUntimed : ObservationKind → Type 0
IsUntimed k =
    (k ≡ slot_start)
    ⊎ ((k ≡ duty_assigned)
        ⊎ ((k ≡ block_skipped)
            ⊎ ((k ≡ clock_sampled)
                ⊎ ((k ≡ collection_completed) ⊎ (k ≡ network_baseline_sampled)))))

abbrev pub IsTrustedObservation : {F : Type 0} → Config F → Observation → Type 0
IsTrustedObservation cfg o =
    IsUntimed o.kind
    ⊎ IsTrusted cfg o.clock_measured (abs_duration (sub_time o.at o.clock_sample_at)) o.clock_offset

abbrev pub IsTrustedSample : {F : Type 0} → Config F → MetricSample F → Type 0
IsTrustedSample cfg m =
    IsTrusted cfg m.clock_measured (abs_duration (sub_time m.at m.clock_sample_at)) m.clock_offset

-- A sample that is not derived has one of its metric on the timeline, not derived and not older, with
-- a trusted clock: so has the newest sample of each metric.
abbrev pub IsBacked : {F : Type 0} → Config F → List (MetricSample F) → MetricSample F → Type 0
IsBacked {F = F} cfg ms m =
    (m.source ≡ derived)
    ⊎ Any (λ (n : MetricSample F). (n.source ≢ derived) × Covers m n × IsTrustedSample cfg n) ms

-- A measured offset has the instant of its sample, as `Validate` demands.
abbrev pub HasInstant : Bool → Time → Type 0
HasInstant measured at = (measured ≡ false) ⊎ (is_zero at ≡ false)

go_inj : {F : Type 0} {a b : Worst} → Path (Step F) (go a) (go b) → a ≡ b
go_inj h = cc

pub stop_ne : {F : Type 0} {v : Verdict F} {w : Worst} → Path (Step F) (stop v) (go w) → ⊥
stop_ne h = cc

pub Step-cases :
    {F : Type 0} (s : Step F) → ((v : Verdict F) × (s ≡ stop v)) ⊎ ((w : Worst) × (s ≡ go w))
Step-cases (stop v) = inl (v, refl)
Step-cases (go w) = inr (w, refl)

peel_kind :
    (k j : ObservationKind) (b : Bool) → not (kind_eq k j) && b ≡ false → (k ≡ j) ⊎ (b ≡ false)
peel_kind k j b h = elim (Bool-cases (kind_eq k j)) [
  | inl e ↦ inl ((kind_eq_iff k j).0 e)
  | inr e ↦ inr (rw e at h)
]

last_kind : (k j : ObservationKind) → not (kind_eq k j) ≡ false → k ≡ j
last_kind k j h = (kind_eq_iff k j).0 (ground arith)

untimed : (k : ObservationKind) → requires_clock_trust k ≡ false → IsUntimed k
unfolding requires_clock_trust
untimed k h = elim (peel_kind k slot_start _ h) [
  | inl e ↦ inl e
  | inr h1 ↦ elim (peel_kind k duty_assigned _ h1) [
    | inl e ↦ inr (inl e)
    | inr h2 ↦ elim (peel_kind k block_skipped _ h2) [
      | inl e ↦ inr (inr (inl e))
      | inr h3 ↦ elim (peel_kind k clock_sampled _ h3) [
        | inl e ↦ inr (inr (inr (inl e)))
        | inr h4 ↦ elim (peel_kind k collection_completed _ h4) [
          | inl e ↦ inr (inr (inr (inr (inl e))))
          | inr h5 ↦ inr (inr (inr (inr (inr (last_kind k network_baseline_sampled h5)))))
        ]
      ]
    ]
  ]
]

timed_at :
    (measured : Bool) (at : Time) → HasInstant measured at → measured ≡ true → is_zero at ≡ false
timed_at measured at (inl e) m = absurd (true_ne_false (sym m ∙ e))
timed_at measured at (inr z) m = z

module _ {F : Type 0} (tl : Timeline F) (cfg : Config F) where
  abbrev Within : Worst → Type 0
  Within w = (is_zero w.sampled_at ≡ true) ⊎ (leb_ℤ w.offset cfg.clock_offset_max ≡ true)

  worsen-Within :
      (w : Worst) (at : Time) (offset : Duration)
      → is_zero at ≡ false
      → Within (worsen w at offset)
      → Within w × (leb_ℤ offset cfg.clock_offset_max ≡ true)
  unfolding worsen
  worsen-Within w at offset z h = ground arith

  fresh_bounded : (age : Duration) → is_stale cfg age ≡ false → pos 1 ≤ℤ cfg.clock_sample_max_age
  unfolding is_stale
  fresh_bounded age h = ground arith

  fresh_age : (age : Duration) → is_stale cfg age ≡ false → age ≤ℤ cfg.clock_sample_max_age
  unfolding is_stale
  fresh_age age h = ground arith

  -- What the last branch of a round has checked.
  IsTrusted-go :
      (w w' : Worst) (measured : Bool) (age offset : Duration) (at : Time)
      → HasInstant measured at
      → measured ≡ true
      → is_stale cfg age ≡ false
      → Path (Step F) (go (worsen w at (abs_duration offset))) (go w')
      → Within w'
      → Within w × IsTrusted cfg measured age offset
  IsTrusted-go w w' measured age offset at timed m fresh h within =
      let p : worsen w at (abs_duration offset) ≡ w' = go_inj h in
      let q =
        worsen-Within w at (abs_duration offset) (timed_at measured at timed m)
          (subst Within (sym p) within) in
      (
        q.0,
        record {
          was_measured = m;
          bounded = fresh_bounded age fresh;
          is_fresh = fresh_age age fresh;
          is_close = ground (arith, q.1);
        },
      )

  check_observation-go :
      (w w' : Worst) (o : Observation)
      → HasInstant o.clock_measured o.clock_sample_at
      → check_observation tl cfg w o ≡ go w'
      → Within w'
      → Within w × IsTrustedObservation cfg o
  unfolding check_observation
  check_observation-go w w' o timed h within = elim (Bool-cases (requires_clock_trust o.kind)) [
    | inl r ↦ elim (Bool-cases o.clock_measured) [
      | inl m ↦ elim (Bool-cases (is_stale cfg (abs_duration (sub_time o.at o.clock_sample_at)))) [
        | inl s ↦ absurd (stop_ne (rw (r, m, s, check_observation) at h))
        | inr s ↦
            let t =
              IsTrusted-go w w' _ _ _ _ timed m s (rw (r, m, s, check_observation) at h) within in
            (t.0, inr t.1)
      ]
      | inr m ↦ absurd (stop_ne (rw (r, m, check_observation) at h))
    ]
    | inr r ↦ (
      subst Within (sym (go_inj (rw (r, check_observation) at h))) within,
      inl (untimed o.kind r),
    )
  ]

  check_sample-go :
      (w w' : Worst) (m : MetricSample F)
      → HasInstant m.clock_measured m.clock_sample_at
      → check_sample tl cfg w m ≡ go w'
      → Within w'
      → Within w × IsTrustedSample cfg m
  unfolding check_sample
  check_sample-go w w' o timed h within = elim (Bool-cases o.clock_measured) [
    | inl m ↦ elim (Bool-cases (is_stale cfg (abs_duration (sub_time o.at o.clock_sample_at)))) [
      | inl s ↦ absurd (stop_ne (rw (m, s, check_sample) at h))
      | inr s ↦ IsTrusted-go w w' _ _ _ _ timed m s (rw (m, s, check_sample) at h) within
    ]
    | inr m ↦ absurd (stop_ne (rw (m, check_sample) at h))
  ]

  check_observations-go :
      (w w' : Worst) (os : List Observation)
      → All (λ (o : Observation). HasInstant o.clock_measured o.clock_sample_at) os
      → check_observations tl cfg w os ≡ go w'
      → Within w'
      → Within w × All (IsTrustedObservation cfg) os
  unfolding check_observations
  check_observations-go w w' [] timed h within = (subst Within (sym (go_inj h)) within, tt)
  check_observations-go w w' (o ∷ os) (t, ts) h within =
      elim (Step-cases (check_observation tl cfg w o)) [
        | inl (v, e) ↦ absurd (stop_ne (rw (e, check_observations) at h))
        | inr (u, e) ↦
            let (rest, all) =
              check_observations-go u w' os ts (rw (e, check_observations) at h) within in
            let (now, this) = check_observation-go w u o t e rest in (now, (this, all))
      ]

  check_samples-go :
      (w w' : Worst) (ms : List (MetricSample F))
      → All (λ (m : MetricSample F). HasInstant m.clock_measured m.clock_sample_at) ms
      → check_samples tl cfg w ms ≡ go w'
      → Within w'
      → Within w × All (IsTrustedSample cfg) ms
  unfolding check_samples
  check_samples-go w w' [] timed h within = (subst Within (sym (go_inj h)) within, tt)
  check_samples-go w w' (m ∷ ms) (t, ts) h within = elim (Step-cases (check_sample tl cfg w m)) [
    | inl (v, e) ↦ absurd (stop_ne (rw (e, check_samples) at h))
    | inr (u, e) ↦
        let (rest, all) = check_samples-go u w' ms ts (rw (e, check_samples) at h) within in
        let (now, this) = check_sample-go w u m t e rest in (now, (this, all))
  ]

module _ {F : Type 0} (fl : FloatOps F) (tl : Timeline F) (cfg : Config F) where
  conclude-Within : (w : Worst) → conclude fl cfg (go w) ≡ none → Within tl cfg w
  conclude-Within w h = ground arith

  -- The newest samples, backed by those of the timeline.
  trusted-IsBacked :
      All (IsTrustedSample cfg) (latest_samples [] tl.samples)
      → All (IsBacked cfg tl.samples) tl.samples
  trusted-IsBacked h =
      let newest = latest_samples [] tl.samples in
      let from =
        latest_samples-All (λ (n : MetricSample F). Any (λ (x : MetricSample F). x ≡ n) tl.samples)
          [] tl.samples tt (Any-self tl.samples) in
      All-map
        (λ (m : MetricSample F) c. elim c [
          | inl e ↦ inl e
          | inr a ↦ inr (
              Any-within
                (λ (n : MetricSample F). (n.source ≢ derived) × Covers m n × IsTrustedSample cfg n)
                tl.samples newest (All-map (λ (n : MetricSample F) r. r.1) newest from)
                (Any-map _
                  (λ (n : MetricSample F).
                    (n.source ≢ derived) × Covers m n × IsTrustedSample cfg n)
                  (λ (n : MetricSample F) r. (r.0.0, r.1.1, r.1.0)) newest
                  (Any-All _ _ newest from (Any-All (IsTrustedSample cfg) (Covers m) newest h a))))
        ])
        tl.samples (latest_samples-covered [] tl.samples newest refl)

  -- For observations and samples whose measured offsets have the instant of their clock sample:
  -- when R-011 declines, the clock of every observation of a kind whose timing counts was measured,
  -- at most the permitted age before or after it, and stands within the configured offset; and so
  -- was, for every sample that is not derived, the clock of some sample of its metric that is not
  -- derived and not older, which for the newest one of the metric is a newest one.
  pub evaluate-IsTrusted :
      All (λ (o : Observation). HasInstant o.clock_measured o.clock_sample_at) tl.observations
      → All (λ (m : MetricSample F). HasInstant m.clock_measured m.clock_sample_at) tl.samples
      → evaluate fl tl cfg ≡ none
      → All (IsTrustedObservation cfg) tl.observations × All (IsBacked cfg tl.samples) tl.samples
  unfolding evaluate
  evaluate-IsTrusted obs_timed samples_timed h =
      let timed =
        All-map (λ (m : MetricSample F) r. r.1) (latest_samples [] tl.samples)
          (latest_samples-All
            (λ (m : MetricSample F). HasInstant m.clock_measured m.clock_sample_at) [] tl.samples tt
            samples_timed) in
      elim (Step-cases (check_observations tl cfg no_worst tl.observations)) [
        | inl (v, e) ↦ absurd (none_ne_some (sym (rw (e, evaluate) at h)))
        | inr (w, e) ↦ elim (Step-cases (check_samples tl cfg w (latest_samples [] tl.samples))) [
          | inl (v, e') ↦ absurd (none_ne_some (sym (rw (e, e', evaluate) at h)))
          | inr (w', e') ↦
              let within = conclude-Within w' (rw (e, e', evaluate) at h) in
              let (mid, samples) =
                check_samples-go tl cfg w w' (latest_samples [] tl.samples) timed e' within in
              let (_, observations) =
                check_observations-go tl cfg no_worst w tl.observations obs_timed e mid in
              (observations, trusted-IsBacked samples)
        ]
      ]
