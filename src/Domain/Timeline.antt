-- ===== src/Domain/Timeline.antt =====
-- internal/domain/timeline.go: the input of the engine for one slot.
pub mod Loops
pub mod WellFormed
pub mod Queries
pub mod Extremes
use whymiss.Prelude.{
  ℕ, ◌+◌, ◌-◌, ◌*◌, ◌==◌, Bool, true, false, ◌&&◌, ◌||◌, not, is_some, List, [], ◌∷◌, Option, none,
  some, String, ltb, leb, if◌then◌else◌, find_first, find_last, count_of,
}
use whymiss.Prelude.Int.{ℤ, pos, ltb_ℤ, eqb_ℤ, min_int64, max_int64, ◌-ℤ◌, wrap64}
use whymiss.Prelude.Text.{str_eq}
use whymiss.Prelude.Time.{Time, Duration, is_zero, zero_time, before, after}
use whymiss.Prelude.Float.{FloatOps}
use whymiss.Domain.Errors.{
  Err, Result, ok, err, missing_timestamp, not_utc, slot_mismatch, unsorted, invalid,
}
use whymiss.Domain.Slot.{
  last_attestation_inclusion_slot, window_slots, collection_window_end, slots_per_epoch,
}
use whymiss.Domain.Schedule.{SlotSchedule, attestation_deadline_at}
use whymiss.Domain.Schedule
use whymiss.Domain.Duty.{Duty, is_attester}
use whymiss.Domain.Duty
use whymiss.Domain.Kinds.{ObservationKind, collection_completed, reorg, kind_eq}
use whymiss.Domain.Observation.{Observation}
use whymiss.Domain.Observation
use whymiss.Domain.Sample.{
  MetricSample, Component, NetworkBaseline, component_eq, validate_baseline,
}
use whymiss.Domain.Sample

pub record Timeline (F : Type 0) : Type 0 where
  pub slot : ℕ
  pub slot_start : Time
  pub schedule : SlotSchedule
  pub duty : Option Duty
  pub observations : List Observation
  pub reorgs : List Observation
  pub samples : List (MetricSample F)
  pub network : Option NetworkBaseline
  pub collection_complete : Bool

abbrev pub is_kind : ObservationKind → Observation → Bool
is_kind k o = kind_eq o.kind k

abbrev is_before : Time → Option Time → Bool
is_before t none = false
is_before t (some u) = before t u

abbrev eq_bool : Bool → Bool → Bool
eq_bool true b = b
eq_bool false b = not b

abbrev attester_duty : Option Duty → Bool
attester_duty none = false
attester_duty (some d) = is_attester d.kind

-- The duty's own faults.
unfoldable pub duty_fault : ℕ → Option Duty → Option Err
duty_fault slot none = none
duty_fault slot (some d) = elim (Duty.validate d) [
  | some e ↦ some e
  | none ↦ if not (d.slot == slot) then some slot_mismatch else none
]

unfoldable pub network_fault : ℕ → Option NetworkBaseline → Option Err
network_fault slot none = none
network_fault slot (some n) = elim (validate_baseline n) [
  | some e ↦ some e
  | none ↦ if not (n.slot == slot) then some slot_mismatch else none
]

module _ {F : Type 0} (fl : FloatOps F) where
  -- One round of the loop over the observations; `prev` is the one before.
  unfoldable pub observation_fault : ℕ → Option Time → Observation → Option Err
  observation_fault slot prev o = elim (Observation.validate fl o) [
    | some e ↦ some e
    | none ↦
        if not (o.slot == slot)
        then some slot_mismatch
        else if is_before o.at prev
        then some unsorted
        else none
  ]

  -- The loop, with the number and the last time of the completion records.
  unfoldable pub scan : ℕ → Option Time → ℕ → Time → List Observation → Result (ℕ × Time)
  scan slot prev n at [] = ok (n, at)
  scan slot prev n at (o ∷ rest) = elim (observation_fault slot prev o) [
    | some e ↦ err e
    | none ↦
        scan slot (some o.at) (if is_kind collection_completed o then n + 1 else n)
          (if is_kind collection_completed o then o.at else at) rest
  ]

  unfoldable pub reorg_fault : ℕ → Option Time → Observation → Option Err
  reorg_fault slot prev o = elim (Observation.validate fl o) [
    | some e ↦ some e
    | none ↦
        if not (is_kind reorg o)
        then some invalid
        else if leb o.slot slot || ltb (last_attestation_inclusion_slot slot) o.slot
        then some invalid
        else if is_before o.at prev
        then some unsorted
        else none
  ]

  unfoldable pub reorgs_fault : ℕ → Option Time → List Observation → Option Err
  reorgs_fault slot prev [] = none
  reorgs_fault slot prev (o ∷ rest) = elim (reorg_fault slot prev o) [
    | some e ↦ some e
    | none ↦ reorgs_fault slot (some o.at) rest
  ]

  unfoldable pub samples_fault : List (MetricSample F) → Option Err
  samples_fault [] = none
  samples_fault (m ∷ rest) = elim (Sample.validate fl m) [
    | some e ↦ some e
    | none ↦ samples_fault rest
  ]

  -- The checks on the completion record.
  unfoldable pub completion_fault : Timeline F → ℕ → Time → Option Err
  completion_fault t n at =
      if ltb 1 n
      then some invalid
      else if not (eq_bool t.collection_complete (n == 1))
      then some invalid
      else if n == 1 && attester_duty t.duty
      then (if ltb (slots_per_epoch * 2 - 1) (window_slots t.slot)
          then some invalid
          else if before at (collection_window_end t.slot t.slot_start t.schedule.seconds_per_slot)
          then some invalid
          else none)
      else none

  abbrev tail_fault : Timeline F → Option Err
  tail_fault t = elim (samples_fault t.samples) [
    | some e ↦ some e
    | none ↦ elim (reorgs_fault t.slot none t.reorgs) [
      | some e ↦ some e
      | none ↦ network_fault t.slot t.network
    ]
  ]

  abbrev after_scan : Timeline F → Result (ℕ × Time) → Option Err
  after_scan t (err e) = some e
  after_scan t (ok (n, at)) = elim (completion_fault t n at) [
    | some e ↦ some e
    | none ↦ tail_fault t
  ]

  unfoldable pub validate : Timeline F → Option Err
  validate t =
      if is_zero t.slot_start
      then some missing_timestamp
      else if not t.slot_start.utc
      then some not_utc
      else elim (Schedule.validate t.schedule) [
        | some e ↦ some e
        | none ↦ elim (duty_fault t.slot t.duty) [
          | some e ↦ some e
          | none ↦ after_scan t (scan t.slot none 0 zero_time t.observations)
        ]
      ]

  -- The slices, the duty and the baseline are copied, which shows only to a caller that mutates
  -- the draft afterwards.
  unfoldable pub new_timeline : Timeline F → Result (Timeline F)
  new_timeline draft = elim (validate draft) [ some e ↦ err e | none ↦ ok draft ]

module _ {F : Type 0} where
  unfoldable pub first : ObservationKind → Timeline F → Option Observation
  first k t = find_first (is_kind k) t.observations

  unfoldable pub last : ObservationKind → Timeline F → Option Observation
  last k t = find_last (is_kind k) t.observations

  unfoldable pub has : ObservationKind → Timeline F → Bool
  unfolding first
  has k t = is_some (first k t)

  unfoldable pub count : ObservationKind → Timeline F → ℕ
  count k t = count_of (is_kind k) t.observations

  unfoldable pub attestation_deadline : Timeline F → Time
  attestation_deadline t = attestation_deadline_at t.schedule t.slot_start

-- The absolute value of a duration, saturated where int64 has none.
unfoldable pub abs_duration : Duration → Duration
abs_duration d = if eqb_ℤ d min_int64 then max_int64 else if ltb_ℤ d (pos 0) then pos 0 -ℤ d else d

abbrev raise : Option Duration → Duration → Option Duration
raise none d = some d
raise (some w) d = if ltb_ℤ w d then some d else some w

unfoldable pub worst_offset : Option Duration → List Observation → Option Duration
worst_offset worst [] = worst
worst_offset worst (o ∷ rest) =
    worst_offset (if o.clock_measured then raise worst (abs_duration o.clock_offset) else worst)
      rest

unfoldable pub max_abs_clock_offset : {F : Type 0} → Timeline F → Option Duration
unfolding worst_offset
max_abs_clock_offset t = worst_offset none t.observations

module _ {F : Type 0} where
  abbrev newest : Option (MetricSample F) → MetricSample F → MetricSample F
  newest none m = m
  newest (some b) m = if after m.at b.at then m else b

  unfoldable pub newest_sample :
      Component → String → Option (MetricSample F) → List (MetricSample F) → Option (MetricSample F)
  newest_sample c name best [] = best
  newest_sample c name best (m ∷ rest) =
      newest_sample c name
        (if not (component_eq m.component c) || not (str_eq m.name name)
          then best
          else some (newest best m))
        rest

  unfoldable pub sample_value : Timeline F → Component → String → Option F
  unfolding newest_sample
  sample_value t c name = elim (newest_sample c name none t.samples) [
    | none ↦ none
    | some m ↦ some m.value
  ]
