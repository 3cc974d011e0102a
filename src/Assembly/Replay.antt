-- ===== src/Assembly/Replay.antt =====
-- internal/timeline/replay.go: recorded observations and samples, read line by line and assembled
-- again. The decoder of a line, `encoding/json`, is a parameter.
use whymiss.Prelude.{
  ℕ, ◌==◌, Bool, true, false, ◌&&◌, ◌||◌, not, List, [], ◌∷◌, ◌++◌, Option, none, some, String,
  find_first, if◌then◌else◌,
}
use whymiss.Prelude.Text.{str_eq, parse_uint}
use whymiss.Prelude.Time.{Time}
use whymiss.Prelude.Float.{FloatOps}
use whymiss.Domain.Errors.{Result, ok, err, invalid}
use whymiss.Domain.Schedule.{SlotSchedule}
use whymiss.Domain.Duty.{Duty, attester}
use whymiss.Domain.Kinds.{slot_start, duty_assigned, network_baseline_sampled, reorg}
use whymiss.Domain.Attrs.{validator_index}
use whymiss.Domain.Observation.{Observation, attr, new_observation}
use whymiss.Domain.Sample.{MetricSample, network_baseline_from_observation}
use whymiss.Domain.Sample
use whymiss.Domain.Timeline.{Timeline, is_kind}
use whymiss.Assembly.{
  Assembler, new_assembler, set_network, add_observation, add_sample, set_duty, build,
  outside_window,
}

-- A file as the loaders find it: missing, unreadable, or its lines and whether the reading of them
-- failed in the end.
pub data File : Type 0 where
  missing unreadable : File
  lines : List String → Bool → File

-- Part of the duty slot, or of its reorg window.
abbrev pub belongs : ℕ → Observation → Bool
belongs slot o = o.slot == slot || (is_kind reorg o && not (outside_window slot o.slot))

abbrev pub all_belong : ℕ → List Observation → Bool
all_belong slot [] = true
all_belong slot (o ∷ rest) = belongs slot o && all_belong slot rest

abbrev pub add_samples : {F : Type 0} → List (MetricSample F) → Assembler F → Assembler F
add_samples [] a = a
add_samples (m ∷ rest) a = add_samples rest (add_sample m a)

module _ {F : Type 0} (fl : FloatOps F) where
  module _ (decode : String → Option Observation) where
    abbrev load_line : String → List Observation → Result (List Observation)
    load_line line out = elim (decode line) [
      | none ↦ err invalid
      | some obs ↦ elim (new_observation fl obs) [ err e ↦ err e | ok o ↦ ok (out ++ (o ∷ [])) ]
    ]

    unfoldable pub load_observation_lines :
        Bool → List Observation → List String → Result (List Observation)
    load_observation_lines failed out [] = if failed then err invalid else ok out
    load_observation_lines failed out (line ∷ rest) = elim (str_eq line "") [
      | true ↦ load_observation_lines failed out rest
      | false ↦ elim (load_line line out) [
        | err e ↦ err e
        | ok more ↦ load_observation_lines failed more rest
      ]
    ]

    unfoldable pub load_observations : File → Result (List Observation)
    unfolding load_observation_lines
    load_observations missing = err invalid
    load_observations unreadable = err invalid
    load_observations (lines ls failed) = load_observation_lines failed [] ls

  module _ (decode : String → Option (MetricSample F)) where
    abbrev load_sample_line : String → List (MetricSample F) → Result (List (MetricSample F))
    load_sample_line line out = elim (decode line) [
      | none ↦ err invalid
      | some m ↦ elim (Sample.validate fl m) [ some e ↦ err e | none ↦ ok (out ++ (m ∷ [])) ]
    ]

    unfoldable pub load_sample_lines :
        Bool → List (MetricSample F) → List String → Result (List (MetricSample F))
    load_sample_lines failed out [] = if failed then err invalid else ok out
    load_sample_lines failed out (line ∷ rest) = elim (str_eq line "") [
      | true ↦ load_sample_lines failed out rest
      | false ↦ elim (load_sample_line line out) [
        | err e ↦ err e
        | ok more ↦ load_sample_lines failed more rest
      ]
    ]

    -- A scenario without the file has no samples.
    unfoldable pub load_samples : File → Result (List (MetricSample F))
    unfolding load_sample_lines
    load_samples missing = ok []
    load_samples unreadable = err invalid
    load_samples (lines ls failed) = load_sample_lines failed [] ls

  abbrev pub with_network : Observation → Assembler F → Result (Assembler F)
  with_network o a =
      if is_kind network_baseline_sampled o
      then (elim (network_baseline_from_observation fl o) [
        | err e ↦ err e
        | ok b ↦ ok (set_network b a)
      ])
      else ok a

  abbrev recorded_duty : ℕ → ℕ → Duty
  recorded_duty slot index = record {
    kind = attester;
    slot = slot;
    validator_index = index;
    committee_index = 0;
  }

  abbrev pub with_duty : ℕ → Observation → Assembler F → Result (Assembler F)
  with_duty slot o a =
      if is_kind duty_assigned o
      then (elim (attr o validator_index) [
        | none ↦ ok a
        | some vi ↦ elim (parse_uint 64 vi) [
          | none ↦ err invalid
          | some index ↦ ok (set_duty (recorded_duty slot index) a)
        ]
      ])
      else ok a

  -- One round of the loop on an observation.
  unfoldable pub replay_one : ℕ → Observation → Assembler F → Result (Assembler F)
  replay_one slot o a = elim (with_network o (add_observation o a)) [
    | err e ↦ err e
    | ok b ↦ with_duty slot o b
  ]

  unfoldable pub replay_all :
      ℕ → List Observation → Assembler F → Option Time → Result (Assembler F × Option Time)
  replay_all slot [] a start = ok (a, start)
  replay_all slot (o ∷ rest) a start = elim (replay_one slot o a) [
    | err e ↦ err e
    | ok b ↦ replay_all slot rest b (if is_kind slot_start o then some o.at else start)
  ]

  module _ (bits : F → ℕ) where
    abbrev pub finish_replay : ℕ → Result (Assembler F × Option Time) → Result (Timeline F)
    finish_replay slot (err e) = err e
    finish_replay slot (ok (a, none)) = err invalid
    finish_replay slot (ok (a, some start)) = build fl bits a slot start

    unfoldable pub replay_with_samples :
        List Observation → List (MetricSample F) → SlotSchedule → Result (Timeline F)
    unfolding replay_all
    replay_with_samples [] samples schedule = err invalid
    replay_with_samples (o ∷ rest) samples schedule =
        elim (find_first (is_kind slot_start) (o ∷ rest)) [
          | none ↦ err invalid
          | some first ↦
              if not (all_belong first.slot (o ∷ rest))
              then err invalid
              else finish_replay first.slot (
                  replay_all first.slot (o ∷ rest) (add_samples samples (new_assembler schedule))
                    none)
        ]

    unfoldable pub replay : List Observation → SlotSchedule → Result (Timeline F)
    unfolding replay_with_samples
    replay observations schedule = replay_with_samples observations [] schedule
