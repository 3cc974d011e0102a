-- ===== src/Beacon/Spec/Deadlines.antt =====
-- internal/source/beaconapi/spec.go: what holds of a derived schedule.
use whymiss.Prelude.{
  ℕ, ◌+◌, ◌*◌, ◌/◌, ◌%◌, ◌≤◌, ◌<◌, ◌-◌, Bool, true, false, [], ◌∷◌, Option, none, some, String, ◌≡◌,
  ◌⊎◌, refl, ap, sym, ◌∙◌, subst, arith, Bool-cases, Option-cases, inl, inr, ltb, none_ne_some,
}
use whymiss.Prelude.Int.{pos, pos_part}
use whymiss.Prelude.Time.{Duration, round_duration, millisecond, second}
use whymiss.Domain.Errors.{ok}
use whymiss.Domain.Schedule.{SlotSchedule}
use whymiss.Domain.Schedule
use whymiss.Domain.Schedule.Rules.{IsOrdered, validate-IsOrdered}
use whymiss.Beacon.Spec.{
  Spec, spec_uint, basis_points, deadline_from_bps, or_default, post_epbs, validated, schedule_of,
  fetch_schedule, found,
}
use whymiss.Beacon.Spec.Numbers.{
  Publishes, IsGloas, spec_uint-published, published-spec_uint, post_epbs-IsGloas, post_epbs-none,
}

-- A whole number of milliseconds within half a millisecond of x / 10000 nanoseconds, rounded down to
-- nanoseconds.
abbrev pub IsNearest : ℕ → Duration → Type 0
IsNearest x d =
    (pos (pos_part d) ≡ d)
    × (pos_part d % millisecond ≡ 0)
    × (pos_part d * 10000 ≤ x + 5000000000)
    × (x ≤ pos_part d * 10000 + 5000009999)

nearest : (x : ℕ) → x ≤ 600000000000000 → IsNearest x (round_duration millisecond (pos (x / 10000)))
unfolding round_duration
nearest x h =
    elim (Bool-cases (ltb (x / 10000 % millisecond + x / 10000 % millisecond) millisecond)) [
      | inl e ↦
          let small : x / 10000 % millisecond + x / 10000 % millisecond < millisecond =
            ground arith in
          rw e (refl, omega arith, omega arith, omega arith)
      | inr e ↦
          let small : ltb (x / 10000 + millisecond - x / 10000 % millisecond) 9223372036854775808
              ≡ true =
            ground arith in
          let big : millisecond ≤ x / 10000 % millisecond + x / 10000 % millisecond =
            ground arith in
          rw (e, small) (refl, omega arith, omega arith, omega arith)
    ]

product : (n bps : ℕ) → n ≤ 60 → bps ≤ 10000 → n * second * bps ≤ n * second * 10000
product n bps h g = grind arith

-- The deadline that `deadlineFromBPS` derives for a slot of up to 60 whole seconds and up to 10000
-- basis points is a whole number of milliseconds, the nearest to the exact fraction of the slot up to
-- a nanosecond, and not after the slot's end.
pub deadline_from_bps-IsNearest :
    (n bps : ℕ)
    → n ≤ 60
    → bps ≤ basis_points
    → IsNearest (n * second * bps) (deadline_from_bps (n * second) bps)
      × (pos_part (deadline_from_bps (n * second) bps) ≤ n * second)
unfolding deadline_from_bps
deadline_from_bps-IsNearest n bps h g =
    let within : ltb basis_points bps ≡ false = ground arith in
    let bound = product n bps h g in
    let near = nearest (n * second * bps) (omega arith) in
    let (_, whole, low, _) = near in rw within (near, omega arith)

-- The deadline that the number under the key gives in a slot of so many seconds.
abbrev pub IsDue : Spec → String → ℕ → Duration → Type 0
IsDue spec key seconds d =
    (bps : ℕ) × Publishes spec key bps × (d ≡ deadline_from_bps (seconds * second) bps)

-- Before Gloas there is no payload deadline.
pub record IsBefore (spec : Spec) (head_epoch seconds : ℕ) (s : SlotSchedule) : Type 0 where
  pub unscheduled : IsGloas spec head_epoch → ⊥
  pub attestation : IsDue spec "ATTESTATION_DUE_BPS" seconds s.attestation_deadline
  pub payload : s.payload_reveal_deadline ≡ pos 0
  pub committee : s.ptc_deadline ≡ pos 0

-- From Gloas on both payload deadlines are published, and the attestation deadline may be.
pub record IsAfter (spec : Spec) (head_epoch seconds : ℕ) (s : SlotSchedule) : Type 0 where
  pub scheduled : IsGloas spec head_epoch
  pub attestation :
      IsDue spec "ATTESTATION_DUE_BPS_GLOAS" seconds s.attestation_deadline
      ⊎ (((n : ℕ) → Publishes spec "ATTESTATION_DUE_BPS_GLOAS" n → ⊥)
          × IsDue spec "ATTESTATION_DUE_BPS" seconds s.attestation_deadline)
  pub payload : IsDue spec "PAYLOAD_DUE_BPS" seconds s.payload_reveal_deadline
  pub committee : IsDue spec "PAYLOAD_ATTESTATION_DUE_BPS" seconds s.ptc_deadline

pub record IsDerived (spec : Spec) (head_epoch : ℕ) (s : SlotSchedule) : Type 0 where
  pub seconds : ℕ
  pub published : Publishes spec "SECONDS_PER_SLOT" seconds
  pub some_seconds : 0 < seconds
  pub max_seconds : seconds ≤ 60
  pub slot : s.seconds_per_slot ≡ pos (seconds * second)
  pub aggregation : IsDue spec "AGGREGATE_DUE_BPS" seconds s.aggregation_deadline
  pub fork : IsBefore spec head_epoch seconds s ⊎ IsAfter spec head_epoch seconds s
  pub ordered : IsOrdered s

validated-IsOrdered : (s t : SlotSchedule) → validated s ≡ ok (some t) → IsOrdered t × (s ≡ t)
validated-IsOrdered s t h = elim (Option-cases (Schedule.validate s)) [
  | inl e ↦ let q : s ≡ t = ground arith in (subst IsOrdered q (validate-IsOrdered s e), q)
  | inr (a, e) ↦ absurd (ground arith)
]

-- The parts of a schedule that `schedule_of` builds and validates.
pub record IsBuilt (spec : Spec) (head seconds aggregate : ℕ) (t : SlotSchedule) : Type 0 where
  pub ordered : IsOrdered t
  pub slot : t.seconds_per_slot ≡ pos (seconds * second)
  pub aggregation : t.aggregation_deadline ≡ deadline_from_bps (seconds * second) aggregate
  pub fork : IsBefore spec head seconds t ⊎ IsAfter spec head seconds t

module _ (spec : Spec) (head seconds attestation aggregate : ℕ) (t : SlotSchedule)
    (published : Publishes spec "ATTESTATION_DUE_BPS" attestation) where
  before_gloas :
      (IsGloas spec head → ⊥)
      → schedule_of spec false (seconds * second) attestation aggregate ≡ ok (some t)
      → IsBuilt spec head seconds aggregate t
  unfolding schedule_of
  before_gloas g h =
      let (o, q) = validated-IsOrdered _ t h in
      record {
        ordered = o;
        slot = ap (λ (s : SlotSchedule). s.seconds_per_slot) (sym q);
        aggregation = ap (λ (s : SlotSchedule). s.aggregation_deadline) (sym q);
        fork = inl record {
          unscheduled = g;
          attestation =
              (attestation, published, ap (λ (s : SlotSchedule). s.attestation_deadline) (sym q));
          payload = ap (λ (s : SlotSchedule). s.payload_reveal_deadline) (sym q);
          committee = ap (λ (s : SlotSchedule). s.ptc_deadline) (sym q);
        };
      }

  -- The attestation deadline of Gloas, or the older one where it is not published.
  gloas_attestation :
      (r : Option ℕ)
      → spec_uint spec "ATTESTATION_DUE_BPS_GLOAS" ≡ r
      → IsDue spec "ATTESTATION_DUE_BPS_GLOAS" seconds
          (deadline_from_bps (seconds * second) (or_default r attestation))
        ⊎ (((n : ℕ) → Publishes spec "ATTESTATION_DUE_BPS_GLOAS" n → ⊥)
            × IsDue spec "ATTESTATION_DUE_BPS" seconds
                (deadline_from_bps (seconds * second) (or_default r attestation)))
  gloas_attestation none e = inr (
    (λ n p. none_ne_some (sym e ∙ published-spec_uint spec "ATTESTATION_DUE_BPS_GLOAS" n p)),
    (attestation, published, refl),
  )
  gloas_attestation (some n) e =
      inl (n, spec_uint-published spec "ATTESTATION_DUE_BPS_GLOAS" n e, refl)

  after_gloas :
      IsGloas spec head
      → schedule_of spec true (seconds * second) attestation aggregate ≡ ok (some t)
      → IsBuilt spec head seconds aggregate t
  unfolding schedule_of
  after_gloas g h = elim (Option-cases (spec_uint spec "PAYLOAD_DUE_BPS")) [
    | inl e ↦ absurd (ground arith)
    | inr (p, e) ↦ elim (Option-cases (spec_uint spec "PAYLOAD_ATTESTATION_DUE_BPS")) [
      | inl f ↦ absurd (ground arith)
      | inr (c, f) ↦
          let (o, q) = validated-IsOrdered _ t (rw (e, f, schedule_of) at h) in
          record {
            ordered = o;
            slot = ap (λ (s : SlotSchedule). s.seconds_per_slot) (sym q);
            aggregation = ap (λ (s : SlotSchedule). s.aggregation_deadline) (sym q);
            fork = inr record {
              scheduled = g;
              attestation =
                  subst
                    (λ (s : SlotSchedule).
                      IsDue spec "ATTESTATION_DUE_BPS_GLOAS" seconds s.attestation_deadline
                      ⊎ (((n : ℕ) → Publishes spec "ATTESTATION_DUE_BPS_GLOAS" n → ⊥)
                          × IsDue spec "ATTESTATION_DUE_BPS" seconds s.attestation_deadline))
                    q (gloas_attestation _ refl);
              payload = (
                p,
                spec_uint-published spec "PAYLOAD_DUE_BPS" p e,
                ap (λ (s : SlotSchedule). s.payload_reveal_deadline) (sym q),
              );
              committee = (
                c,
                spec_uint-published spec "PAYLOAD_ATTESTATION_DUE_BPS" c f,
                ap (λ (s : SlotSchedule). s.ptc_deadline) (sym q),
              );
            };
          }
    ]
  ]

  built :
      (post : Bool)
      → post_epbs spec head ≡ post
      → schedule_of spec post (seconds * second) attestation aggregate ≡ ok (some t)
      → IsBuilt spec head seconds aggregate t
  built false e h = before_gloas (post_epbs-none spec head e) h
  built true e h = after_gloas (post_epbs-IsGloas spec head e) h

-- A schedule that `FetchSchedule` derives is in order, and each of its durations is that of a number
-- that the document publishes: a slot of 1 to 60 seconds, the aggregation deadline, and either, where
-- the document schedules no Gloas epoch that the head has reached, the attestation deadline and no
-- payload deadlines, or, where it schedules one, both payload deadlines and the attestation deadline
-- of Gloas, if published, or else the older one.
pub fetch_schedule-IsDerived :
    (spec : Spec) (head_epoch : ℕ) (s : SlotSchedule)
    → fetch_schedule (found spec) head_epoch ≡ ok (some s)
    → IsDerived spec head_epoch s
unfolding fetch_schedule
fetch_schedule-IsDerived [] head_epoch s h = absurd (ground arith)
fetch_schedule-IsDerived (e ∷ rest) head_epoch s h =
    elim (Option-cases (spec_uint (e ∷ rest) "SECONDS_PER_SLOT")) [
      | inl p ↦ absurd (ground arith)
      | inr (n, p) ↦ elim (Option-cases (spec_uint (e ∷ rest) "ATTESTATION_DUE_BPS")) [
        | inl q ↦ absurd (ground arith)
        | inr (a, q) ↦ elim (Option-cases (spec_uint (e ∷ rest) "AGGREGATE_DUE_BPS")) [
          | inl r ↦ absurd (ground arith)
          | inr (g, r) ↦
              let b =
                built (e ∷ rest) head_epoch n a g s
                  (spec_uint-published (e ∷ rest) "ATTESTATION_DUE_BPS" a q) _ refl
                  (ground arith) in
              record {
                seconds = n;
                published = spec_uint-published (e ∷ rest) "SECONDS_PER_SLOT" n p;
                some_seconds = ground arith;
                max_seconds = ground arith;
                slot = b.slot;
                aggregation =
                    (g, spec_uint-published (e ∷ rest) "AGGREGATE_DUE_BPS" g r, b.aggregation);
                fork = b.fork;
                ordered = b.ordered;
              }
        ]
      ]
    ]
