-- ===== src/Assembly/Build.antt =====
-- internal/timeline/assembler.go: which stored facts `Build` turns into a timeline.
use whymiss.Prelude.{
  ℕ, ◌≤◌, ◌<◌, ◌==◌, ==_iff, subst, true, false, List, [], ◌∷◌, none, ◌≡◌, refl, ◌↔◌, arith, All,
  All-map, All-both, All-append, keep, count_of, Bool-cases, inl, inr,
}
use whymiss.Prelude.Time.{Time, is_zero}
use whymiss.Prelude.Float.{FloatOps}
use whymiss.Prelude.Permuted.{All-perm, count_of-eq, count_of-any}
use whymiss.Prelude.Sorting.{sort_by-perm}
use whymiss.Domain.Errors.{ok}
use whymiss.Domain.Schedule
use whymiss.Domain.Slot.{max_uint64, last_attestation_inclusion_slot}
use whymiss.Domain.Kinds.{reorg, collection_completed, kind_eq_iff}
use whymiss.Domain.Observation.{Observation}
use whymiss.Domain.Observation
use whymiss.Domain.Sample
use whymiss.Domain.Timeline.{
  Timeline, is_kind, new_timeline, validate, observation_fault, reorg_fault,
}
use whymiss.Domain.Timeline.Loops.{
  InSlot, InWindow, Accepted, observation_fault-none, none-observation_fault, reorg_fault-none,
  none-reorg_fault,
}
use whymiss.Domain.Timeline.WellFormed.{
  DutyFits, NetworkFits, ClosedInTime, IsWellFormed, validate-IsWellFormed, IsWellFormed-validate,
}
use whymiss.Assembly.Compare.{sort_observations, sample_less, sort_samples}
use whymiss.Assembly.Store.{AllIn, IsFiled}
use whymiss.Assembly.Sorted.{sort_observations-IsSorted}
use whymiss.Assembly.Independence.{sort_observations-perm}
use whymiss.Assembly.{Assembler, lookup_slot, bucket, later_reorgs, outside_window, draft, build}
use mathlib.Core.List.{Perm}
use mathlib.Core.List.Perm

-- An entry holds observations of its slot, and the reorgs that `Build` collects are reorg records of
-- the inclusion window.
bucket-AllIn :
    (slot : ℕ) (es : List (ℕ × List Observation)) → IsFiled es → AllIn slot (bucket slot es)
bucket-AllIn slot [] h = tt
bucket-AllIn slot ((k, os) ∷ rest) (h, d, hs) = elim (Bool-cases (k == slot)) [
  | inl e ↦ rw e (subst (λ (j : ℕ). AllIn j os) ((==_iff k slot).0 e) h)
  | inr e ↦ rw e (bucket-AllIn slot rest hs)
]

abbrev IsLater : ℕ → Observation → Type 0
IsLater slot o =
    (o.kind ≡ reorg) × (slot < o.slot) × (o.slot ≤ last_attestation_inclusion_slot slot)

keep-IsLater :
    (slot k : ℕ) (os : List Observation)
    → outside_window slot k ≡ false
    → AllIn k os
    → All (IsLater slot) (keep (is_kind reorg) os)
keep-IsLater slot k [] w h = tt
keep-IsLater slot k (o ∷ os) w (h, hs) = elim (Bool-cases (is_kind reorg o)) [
  | inl e ↦
      rw e
        (((kind_eq_iff o.kind reorg).0 e, ground arith, ground arith), keep-IsLater slot k os w hs)
  | inr e ↦ rw e (keep-IsLater slot k os w hs)
]

later_reorgs-IsLater :
    (slot : ℕ) (es : List (ℕ × List Observation))
    → IsFiled es
    → All (IsLater slot) (later_reorgs slot es)
later_reorgs-IsLater slot [] h = tt
later_reorgs-IsLater slot ((k, os) ∷ rest) (h, d, hs) = elim (Bool-cases (outside_window slot k)) [
  | inl e ↦ rw e (later_reorgs-IsLater slot rest hs)
  | inr e ↦ rw e (
      All-append (IsLater slot) (keep (is_kind reorg) os) (later_reorgs slot rest)
        (keep-IsLater slot k os e h) (later_reorgs-IsLater slot rest hs))
]

module _ {F : Type 0} (fl : FloatOps F) where
  abbrev IsValid : Observation → Type 0
  IsValid o = Observation.validate fl o ≡ none

  abbrev FitsSlot : ℕ → Observation → Type 0
  FitsSlot slot o = observation_fault fl slot none o ≡ none

  abbrev FitsWindow : ℕ → Observation → Type 0
  FitsWindow slot o = reorg_fault fl slot none o ≡ none

  FitsSlot-InSlot : (slot : ℕ) (o : Observation) → FitsSlot slot o → InSlot fl slot o
  FitsSlot-InSlot slot o h = (observation_fault-none fl slot none o h).0

  InSlot-FitsSlot : (slot : ℕ) (o : Observation) → InSlot fl slot o → FitsSlot slot o
  InSlot-FitsSlot slot o h = none-observation_fault fl slot none o h refl

  FitsWindow-InWindow : (slot : ℕ) (o : Observation) → FitsWindow slot o → InWindow fl slot o
  FitsWindow-InWindow slot o h = (reorg_fault-none fl slot none o h).0

  InWindow-FitsWindow : (slot : ℕ) (o : Observation) → InWindow fl slot o → FitsWindow slot o
  InWindow-FitsWindow slot o h = none-reorg_fault fl slot none o h refl

  IsLater-FitsWindow : (slot : ℕ) (o : Observation) → IsValid o × IsLater slot o → FitsWindow slot o
  IsLater-FitsWindow slot o (v, (k, l, m)) = InWindow-FitsWindow slot o (v, k, l, m)

  -- In whatever order they stand, the observations of an entry are of the slot if they are valid.
  sorted-InSlot :
      (slot : ℕ) (os ps : List Observation)
      → Perm os ps
      → AllIn slot os
      → All IsValid os
      → All (InSlot fl slot) ps
  sorted-InSlot slot os ps q h v = All-map (FitsSlot-InSlot slot) ps (
      All-perm (observation_fault fl slot none) q
        (All-map (InSlot-FitsSlot slot) os (All-both _ _ os v h)))

  sorted-InWindow :
      (slot : ℕ) (os ps : List Observation)
      → Perm os ps
      → All (IsLater slot) os
      → All IsValid os
      → All (InWindow fl slot) ps
  sorted-InWindow slot os ps q h v = All-map (FitsWindow-InWindow slot) ps (
      All-perm (reorg_fault fl slot none) q
        (All-map (IsLater-FitsWindow slot) os (All-both _ _ os v h)))

  module _ (bits : F → ℕ) where
    -- What `Build` needs of the stored facts: nothing on their order, their slots or their window.
    pub record IsBuildable (a : Assembler F) (slot : ℕ) (start : Time) : Type 0 where
      pub started : is_zero start ≡ false
      pub start_utc : start.utc ≡ true
      pub scheduled : Schedule.validate a.schedule ≡ none
      pub duty_fits : DutyFits slot (lookup_slot slot a.duties)
      pub observations_valid : All IsValid (bucket slot a.observations)
      pub one_completion : count_of (is_kind collection_completed) (bucket slot a.observations) ≤ 1
      pub closed_in_time : ClosedInTime (draft fl bits a slot start)
      pub samples_accepted : All (Accepted fl) a.samples
      pub reorgs_valid : All IsValid (later_reorgs slot a.observations)
      pub network_fits : NetworkFits slot (lookup_slot slot a.networks)

    samples-perm : (a : Assembler F) → Perm (sort_samples fl bits a.samples) a.samples
    unfolding sort_samples
    samples-perm a = sort_by-perm (sample_less fl bits) a.samples

    buildable-IsWellFormed :
        (a : Assembler F) (slot : ℕ) (start : Time)
        → IsFiled a.observations
        → IsBuildable a slot start
        → IsWellFormed fl (draft fl bits a slot start)
    unfolding draft
    buildable-IsWellFormed a slot start f b =
        let os = bucket slot a.observations in
        let rs = later_reorgs slot a.observations in
        let q = sort_observations-perm os in
        let done = is_kind collection_completed in
        record {
          started = b.started;
          start_utc = b.start_utc;
          scheduled = b.scheduled;
          duty_fits = b.duty_fits;
          in_slot =
              sorted-InSlot slot os _ (Perm.symm q) (bucket-AllIn slot a.observations f)
                b.observations_valid;
          sorted = sort_observations-IsSorted os;
          completions = count_of-any done _ (rw (count_of-eq done q) b.one_completion);
          closed_in_time = b.closed_in_time;
          samples_accepted =
              All-perm (Sample.validate fl) (Perm.symm (samples-perm a)) b.samples_accepted;
          reorgs_in_window =
              sorted-InWindow slot rs _ (Perm.symm (sort_observations-perm rs))
                (later_reorgs-IsLater slot a.observations f) b.reorgs_valid;
          reorgs_sorted = sort_observations-IsSorted rs;
          network_fits = b.network_fits;
        }

    well_formed-IsBuildable :
        (a : Assembler F) (slot : ℕ) (start : Time)
        → IsWellFormed fl (draft fl bits a slot start)
        → IsBuildable a slot start
    unfolding draft
    well_formed-IsBuildable a slot start w =
        let os = bucket slot a.observations in
        let rs = later_reorgs slot a.observations in
        let q = sort_observations-perm os in
        let done = is_kind collection_completed in
        record {
          started = w.started;
          start_utc = w.start_utc;
          scheduled = w.scheduled;
          duty_fits = w.duty_fits;
          observations_valid =
              All-perm (Observation.validate fl) q
                (All-map (λ o h. h.0) (sort_observations os) w.in_slot);
          one_completion = ground (arith, count_of-eq done q, w.completions);
          closed_in_time = w.closed_in_time;
          samples_accepted = All-perm (Sample.validate fl) (samples-perm a) w.samples_accepted;
          reorgs_valid =
              All-perm (Observation.validate fl) (sort_observations-perm rs)
                (All-map (λ o h. h.0) (sort_observations rs) w.reorgs_in_window);
          network_fits = w.network_fits;
        }

    new_timeline-ok_iff : (t : Timeline F) → (new_timeline fl t ≡ ok t) ↔ (validate fl t ≡ none)
    unfolding new_timeline
    new_timeline-ok_iff t = (λ h. ground arith, λ h. rw (h, new_timeline))

    -- For a uint64 slot and an assembler whose observations are filed by slot, `Build` returns the
    -- timeline that it drafts exactly when the start is a non-zero UTC instant, the schedule is
    -- valid, the slot's duty and baseline, if any, are valid and of the slot, the observations of
    -- the slot, the reorgs of its inclusion window and all samples are valid, at most one
    -- completion record is stored for the slot, and none of an attester duty is before the end of
    -- the collection window. Neither the order in which facts were added nor the slots of others
    -- matter.
    pub build-ok_iff :
        (a : Assembler F) (slot : ℕ) (start : Time)
        → slot ≤ max_uint64
        → IsFiled a.observations
        → (build fl bits a slot start ≡ ok (draft fl bits a slot start)) ↔ IsBuildable a slot start
    unfolding build
    build-ok_iff a slot start s f =
        let t = draft fl bits a slot start in
        let (there, back) = new_timeline-ok_iff t in
        (
          λ h. well_formed-IsBuildable a slot start (validate-IsWellFormed fl t (there h)),
          λ b. back (IsWellFormed-validate fl t s (buildable-IsWellFormed a slot start f b)),
        )
