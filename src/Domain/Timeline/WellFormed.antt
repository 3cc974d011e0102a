-- ===== src/Domain/Timeline/WellFormed.antt =====
-- What `Timeline.Validate` of internal/domain/timeline.go accepts.
use whymiss.Prelude.{
  ◌⊎◌, ℕ, ◌+◌, ◌≤◌, true, false, Option, none, some, ◌≡◌, refl, ◌↔◌, arith, All, count_of, inl, inr,
  if◌then◌else◌,
}
use whymiss.Prelude.Time.{Time, before, is_zero, zero_time}
use whymiss.Prelude.Float.{FloatOps}
use whymiss.Domain.Errors.{ok, Result-cases}
use whymiss.Domain.Slot.{collection_window_end, max_uint64}
use whymiss.Domain.Slot.Window.{window_slots-le}
use whymiss.Domain.Schedule
use whymiss.Domain.Duty.{Duty, attester, is_attester}
use whymiss.Domain.Duty
use whymiss.Domain.Kinds.{collection_completed}
use whymiss.Domain.Sample.{NetworkBaseline, validate_baseline}
use whymiss.Domain.Timeline.{
  Timeline, is_kind, duty_fault, network_fault, completion_fault, scan, validate, attester_duty,
}
use whymiss.Domain.Timeline.Loops.{
  IsSorted, completion_time, InSlot, scan-ok, ok-scan, InWindow, reorgs_fault-none,
  none-reorgs_fault, Accepted, samples_fault-none, none-samples_fault,
}

abbrev pub DutyFits : ℕ → Option Duty → Type 0
DutyFits slot none = Unit
DutyFits slot (some d) = (Duty.validate d ≡ none) × (d.slot ≡ slot)

abbrev pub NetworkFits : ℕ → Option NetworkBaseline → Type 0
NetworkFits slot none = Unit
NetworkFits slot (some n) = (validate_baseline n ≡ none) × (n.slot ≡ slot)

-- No attester's collection was recorded as complete before the window's end.
abbrev pub ClosesBy : {F : Type 0} → Timeline F → Time → Type 0
ClosesBy t at =
    (t.collection_complete ≡ false)
    ⊎ ((attester_duty t.duty ≡ false)
        ⊎ (before at (collection_window_end t.slot t.slot_start t.schedule.seconds_per_slot)
            ≡ false))

-- The last completion record closes the collection.
abbrev pub ClosedInTime : {F : Type 0} → Timeline F → Type 0
ClosedInTime t = ClosesBy t (completion_time zero_time t.observations)

duty_fault-DutyFits : (slot : ℕ) (d : Option Duty) → duty_fault slot d ≡ none → DutyFits slot d
unfolding duty_fault
duty_fault-DutyFits slot none h = tt
duty_fault-DutyFits slot (some d) h = ground arith

DutyFits-duty_fault : (slot : ℕ) (d : Option Duty) → DutyFits slot d → duty_fault slot d ≡ none
unfolding duty_fault
DutyFits-duty_fault slot none h = refl
DutyFits-duty_fault slot (some d) h = ground arith

network_fault-NetworkFits :
    (slot : ℕ) (n : Option NetworkBaseline) → network_fault slot n ≡ none → NetworkFits slot n
unfolding network_fault
network_fault-NetworkFits slot none h = tt
network_fault-NetworkFits slot (some n) h = ground arith

NetworkFits-network_fault :
    (slot : ℕ) (n : Option NetworkBaseline) → NetworkFits slot n → network_fault slot n ≡ none
unfolding network_fault
NetworkFits-network_fault slot none h = refl
NetworkFits-network_fault slot (some n) h = ground arith

module _ {F : Type 0} (fl : FloatOps F) where
  pub record IsWellFormed (t : Timeline F) : Type 0 where
    pub started : is_zero t.slot_start ≡ false
    pub start_utc : t.slot_start.utc ≡ true
    pub scheduled : Schedule.validate t.schedule ≡ none
    pub duty_fits : DutyFits t.slot t.duty
    pub in_slot : All (InSlot fl t.slot) t.observations
    pub sorted : IsSorted t.observations
    pub completions :
        count_of (is_kind collection_completed) t.observations
        ≡ (if t.collection_complete then 1 else 0)
    pub closed_in_time : ClosedInTime t
    pub samples_accepted : All (Accepted fl) t.samples
    pub reorgs_in_window : All (InWindow fl t.slot) t.reorgs
    pub reorgs_sorted : IsSorted t.reorgs
    pub network_fits : NetworkFits t.slot t.network

  completion_fault-none :
      (t : Timeline F) (n : ℕ) (at : Time)
      → completion_fault fl t n at ≡ none
      → (n ≡ (if t.collection_complete then 1 else 0)) × ClosesBy t at
  unfolding completion_fault
  completion_fault-none t n at h = (ground arith, ground arith)

  none-completion_fault :
      (t : Timeline F) (n : ℕ) (at : Time)
      → t.slot ≤ max_uint64
      → n ≡ (if t.collection_complete then 1 else 0)
      → ClosesBy t at
      → completion_fault fl t n at ≡ none
  unfolding completion_fault
  none-completion_fault t n at s e c = ground (arith, window_slots-le t.slot s, c)

  scanned :
      (t : Timeline F)
      → validate fl t ≡ none
      → (n : ℕ) × (at : Time) × (scan fl t.slot none 0 zero_time t.observations ≡ ok (n, at))
  unfolding validate
  scanned t h = elim (Result-cases (scan fl t.slot none 0 zero_time t.observations)) [
    | inl (e, p) ↦ absurd (ground arith)
    | inr ((n, at), p) ↦ (n, at, p)
  ]

  pub validate-IsWellFormed : (t : Timeline F) → validate fl t ≡ none → IsWellFormed t
  unfolding validate
  validate-IsWellFormed t h =
      let (n, at, p) = scanned t h in
      let (in_slot, sorted, _, en, eat) =
        scan-ok fl t.slot none 0 zero_time t.observations n at p in
      let (counted, closed) = completion_fault-none t n at (ground arith) in
      let (window, in_order, _) = reorgs_fault-none fl t.slot none t.reorgs (ground arith) in
      record {
        started = ground arith;
        start_utc = ground arith;
        scheduled = ground arith;
        duty_fits = duty_fault-DutyFits _ _ (ground arith);
        in_slot = in_slot;
        sorted = sorted;
        completions = omega (arith, en, counted);
        closed_in_time = rw (← eat) closed;
        samples_accepted = samples_fault-none fl t.samples (ground arith);
        reorgs_in_window = window;
        reorgs_sorted = in_order;
        network_fits = network_fault-NetworkFits _ _ (ground arith);
      }

  pub IsWellFormed-validate :
      (t : Timeline F) → t.slot ≤ max_uint64 → IsWellFormed t → validate fl t ≡ none
  unfolding validate
  IsWellFormed-validate t s w =
      let e = ok-scan fl t.slot none 0 zero_time t.observations w.in_slot w.sorted tt in
      let c =
        none-completion_fault t (0 + count_of (is_kind collection_completed) t.observations)
          (completion_time zero_time t.observations) s (omega (arith, w.completions))
          w.closed_in_time in
      ground (
        arith,
        w.started,
        e,
        c,
        DutyFits-duty_fault t.slot t.duty w.duty_fits,
        none-samples_fault fl t.samples w.samples_accepted,
        none-reorgs_fault fl t.slot none t.reorgs w.reorgs_in_window w.reorgs_sorted tt,
        NetworkFits-network_fault t.slot t.network w.network_fits,
      )

  -- For a uint64 slot, `Validate` returns nil exactly for a timeline with a non-zero UTC start and a
  -- valid schedule, whose duty and baseline, if any, are valid and of its slot, whose observations
  -- are valid, of its slot and sorted by time with one completion record if it says that collection
  -- is complete and none otherwise, whose completion record, for an attester duty, is not before
  -- the end of the collection window, whose samples are valid, and whose reorgs are valid reorg
  -- records, sorted, of slots after its own and within the inclusion window.
  pub timeline_validate-none_iff :
      (t : Timeline F) → t.slot ≤ max_uint64 → (validate fl t ≡ none) ↔ IsWellFormed t
  timeline_validate-none_iff t s = (validate-IsWellFormed t, IsWellFormed-validate t s)
