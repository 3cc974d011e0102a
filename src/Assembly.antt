-- ===== src/Assembly.antt =====
-- internal/timeline/assembler.go: the assembler collects what the adapters produce and builds the
-- timeline of a slot. A map is an association list with one entry for a key; its order is the order
-- in which `range` meets the entries.
pub mod Texts
pub mod Compare
pub mod Store
pub mod Independence
pub mod Sorted
pub mod Build
pub mod Replay
pub mod Conserved
use whymiss.Prelude.{
  ℕ, ◌==◌, Bool, true, false, ◌&&◌, ◌||◌, List, [], ◌∷◌, ◌++◌, Option, none, some, ltb, leb,
  if◌then◌else◌,
}
use whymiss.Prelude.Time.{Time}
use whymiss.Prelude.{keep, any}
use whymiss.Prelude.Float.{FloatOps}
use whymiss.Domain.Errors.{Result}
use whymiss.Domain.Slot.{last_attestation_inclusion_slot}
use whymiss.Domain.Schedule.{SlotSchedule}
use whymiss.Domain.Duty.{Duty}
use whymiss.Domain.Kinds.{collection_completed, reorg}
use whymiss.Domain.Observation.{Observation}
use whymiss.Domain.Sample.{MetricSample, NetworkBaseline}
use whymiss.Domain.Timeline.{Timeline, is_kind, new_timeline}
use whymiss.Assembly.Compare.{sort_observations, sort_samples}

pub record Assembler (F : Type 0) : Type 0 where
  pub schedule : SlotSchedule
  pub duties : List (ℕ × Duty)
  pub observations : List (ℕ × List Observation)
  pub samples : List (MetricSample F)
  pub networks : List (ℕ × NetworkBaseline)

-- `m[slot]`, and `m[slot] = value`.
module _ {V : Type 0} where
  abbrev pub lookup_slot : ℕ → List (ℕ × V) → Option V
  lookup_slot slot [] = none
  lookup_slot slot ((k, v) ∷ rest) = if k == slot then some v else lookup_slot slot rest

  abbrev pub assign : ℕ → V → List (ℕ × V) → List (ℕ × V)
  assign slot value [] = (slot, value) ∷ []
  assign slot value ((k, v) ∷ rest) =
      let others = assign slot value rest in
      if k == slot then (k, value) ∷ rest else (k, v) ∷ others

-- A missing slot has no observations.
abbrev pub bucket : ℕ → List (ℕ × List Observation) → List Observation
bucket slot [] = []
bucket slot ((k, os) ∷ rest) = if k == slot then os else bucket slot rest

abbrev pub file : Observation → List (ℕ × List Observation) → List (ℕ × List Observation)
file o [] = (o.slot, o ∷ []) ∷ []
file o ((k, os) ∷ rest) =
    let others = file o rest in if k == o.slot then (k, os ++ (o ∷ [])) ∷ rest else (k, os) ∷ others

-- The reorgs of the slots after `slot` within its inclusion window.
abbrev pub outside_window : ℕ → ℕ → Bool
outside_window slot observed =
    leb observed slot || ltb (last_attestation_inclusion_slot slot) observed

abbrev pub later_reorgs : ℕ → List (ℕ × List Observation) → List Observation
later_reorgs slot [] = []
later_reorgs slot ((k, os) ∷ rest) =
    (if outside_window slot k then [] else keep (is_kind reorg) os) ++ later_reorgs slot rest

module _ {F : Type 0} where
  unfoldable pub new_assembler : SlotSchedule → Assembler F
  new_assembler schedule = record {
    schedule = schedule;
    duties = [];
    observations = [];
    samples = [];
    networks = [];
  }

  unfoldable pub set_network : NetworkBaseline → Assembler F → Assembler F
  set_network baseline a = record a { networks = assign baseline.slot baseline a.networks }

  unfoldable pub add_observation : Observation → Assembler F → Assembler F
  add_observation obs a = record a { observations = file obs a.observations }

  unfoldable pub add_sample : MetricSample F → Assembler F → Assembler F
  add_sample s a = record a { samples = a.samples ++ (s ∷ []) }

  unfoldable pub set_duty : Duty → Assembler F → Assembler F
  set_duty d a = record a { duties = assign d.slot d a.duties }

module _ {F : Type 0} (fl : FloatOps F) (bits : F → ℕ) where
  -- What `Build` passes to `NewTimeline`.
  unfoldable pub draft : Assembler F → ℕ → Time → Timeline F
  draft a slot slot_start = record {
    slot = slot;
    slot_start = slot_start;
    schedule = a.schedule;
    duty = lookup_slot slot a.duties;
    observations = sort_observations (bucket slot a.observations);
    reorgs = sort_observations (later_reorgs slot a.observations);
    samples = sort_samples fl bits a.samples;
    network = lookup_slot slot a.networks;
    collection_complete =
        any (is_kind collection_completed) (sort_observations (bucket slot a.observations));
  }

  unfoldable pub build : Assembler F → ℕ → Time → Result (Timeline F)
  unfolding draft
  build a slot slot_start = new_timeline fl (draft a slot slot_start)
