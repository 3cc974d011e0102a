-- ===== src/Rca/Stages.antt =====
-- internal/rca/rules/stages.go: how a duty spent its slot.
pub mod Durations
pub mod Total
pub mod Span
pub mod Dominance
use whymiss.Prelude.{
  ℕ, ◌+◌, ◌==◌, Bool, true, false, ◌&&◌, ◌||◌, not, List, [], ◌∷◌, Option, none, some, ltb,
  if◌then◌else◌, find_first,
}
use whymiss.Prelude.Int.{ℤ, pos, ◌+ℤ◌, ◌-ℤ◌, ltb_ℤ, leb_ℤ, max_int64, wrap64}
use whymiss.Prelude.Time.{Time, Duration, before, sub_time}
use whymiss.Prelude.Float.{FloatOps}
use whymiss.Domain.Slot.{Stage, propagation, validation, signing, other_stage, promscrape}
use whymiss.Domain.Kinds.{block_seen, head_updated, attestation_published, kind_eq}
use whymiss.Domain.Attrs.{is_source}
use whymiss.Domain.Observation.{Observation}
use whymiss.Domain.Timeline.{Timeline, first}
use whymiss.Rca.Config.{Config}

pub record Stages : Type 0 where
  pub propagation_time : Duration
  pub validation_time : Duration
  pub signing_time : Duration
  pub has_propagation : Bool
  pub has_validation : Bool
  pub has_signing : Bool

-- The loop of `Total`, which returns early when the sum would pass int64.
unfoldable pub total_from : Duration → List (Duration × Bool) → Duration
total_from total [] = total
total_from total ((value, known) ∷ rest) =
    let skipped = total_from total rest in
    let added = total_from (wrap64 (total +ℤ value)) rest in
    if not known
    then skipped
    else if ltb_ℤ (pos 0) value && ltb_ℤ (max_int64 -ℤ value) total
    then max_int64
    else added

unfoldable pub total : Stages → Duration
unfolding total_from
total s = total_from (pos 0) (
    (s.propagation_time, s.has_propagation)
    ∷ (s.validation_time, s.has_validation)
    ∷ (s.signing_time, s.has_signing)
    ∷ [])

abbrev one_if : Bool → ℕ
one_if true = 1
one_if false = 0

abbrev pub known_stages : Stages → ℕ
known_stages s = one_if s.has_propagation + one_if s.has_validation + one_if s.has_signing

abbrev pub time_of : Stages → Stage → Option Duration
time_of s propagation = if s.has_propagation then some s.propagation_time else none
time_of s validation = if s.has_validation then some s.validation_time else none
time_of s signing = if s.has_signing then some s.signing_time else none
time_of s (other_stage _) = none

module _ {F : Type 0} (fl : FloatOps F) where
  abbrev fraction : Duration → Option Duration → Option F
  fraction whole none = none
  fraction whole (some part) = some (fl.div (fl.of_int part) (fl.of_int whole))

  unfoldable pub share : Stages → Stage → Option F
  share s stage = if leb_ℤ (total s) (pos 0) then none else fraction (total s) (time_of s stage)

  -- One round of the loop over the stages: a later stage replaces the best only if it is greater.
  abbrev pub better : Option (Stage × F) → Stage → Option F → Option (Stage × F)
  better best stage none = best
  better none stage (some x) = some (stage, x)
  better (some (b, y)) stage (some x) = if fl.lt y x then some (stage, x) else some (b, y)

  unfoldable pub greatest : Stages → Option (Stage × F)
  greatest s =
      better
        (better (better none propagation (share s propagation)) validation (share s validation))
        signing (share s signing)

  unfoldable pub dominant : Stages → Config F → Option Stage
  dominant s cfg = if ltb (known_stages s) 2 then none else elim (greatest s) [
    | none ↦ none
    | some (best, best_share) ↦ if fl.lt best_share cfg.dominance then none else some best
  ]

abbrev no_stages : Stages
no_stages = record {
  propagation_time = pos 0;
  validation_time = pos 0;
  signing_time = pos 0;
  has_propagation = false;
  has_validation = false;
  has_signing = false;
}

abbrev arrived : Time → Observation → Stages
arrived slot_start b = record no_stages {
  propagation_time = sub_time b.at slot_start;
  has_propagation = true;
}

abbrev validated : Stages → Duration → Stages
validated s d = record s { validation_time = d; has_validation = true }

-- With a head: validation from the arrival to it, and signing from it to the publication.
abbrev with_head : Stages → Observation → Observation → Option Observation → Stages
with_head s b h none = if before h.at b.at then s else validated s (sub_time h.at b.at)
with_head s b h (some p) =
    if before h.at b.at
    then s
    else if before p.at h.at
    then validated s (sub_time h.at b.at)
    else record (validated s (sub_time h.at b.at)) {
      signing_time = sub_time p.at h.at;
      has_signing = true;
    }

-- With no head the span to the publication counts as validation.
abbrev without_head : Stages → Observation → Option Observation → Stages
without_head s b none = s
without_head s b (some p) = if before p.at b.at then s else validated s (sub_time p.at b.at)

module _ {F : Type 0} where
  -- The block arrival that client metrics measured.
  unfoldable pub timed_block_seen : Timeline F → Option Observation
  timed_block_seen tl =
      find_first (λ o. kind_eq o.kind block_seen && is_source promscrape o.source) tl.observations

  -- The arrival, if it is not before the slot.
  unfoldable pub arrival : Timeline F → Option Observation
  unfolding timed_block_seen
  arrival tl = elim (timed_block_seen tl) [
    | none ↦ none
    | some b ↦ if before b.at tl.slot_start then none else some b
  ]

  unfoldable pub compute_stages : Timeline F → Stages
  unfolding arrival
  compute_stages tl = elim (arrival tl) [
    | none ↦ no_stages
    | some b ↦ elim (first head_updated tl) [
      | none ↦ without_head (arrived tl.slot_start b) b (first attestation_published tl)
      | some h ↦ with_head (arrived tl.slot_start b) b h (first attestation_published tl)
    ]
  ]
