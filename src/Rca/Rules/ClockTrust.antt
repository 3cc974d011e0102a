-- ===== src/Rca/Rules/ClockTrust.antt =====
-- internal/rca/rules/r011_clock_trust.go: R-011. The map of the newest samples and the sorted list
-- of its keys are one list here, which is kept sorted by key.
pub mod Newest
pub mod Trusted
pub mod Causes
use Prim.Native.String.{◌++◌, compare}
use Prim.Native.Nat.{Ordering}
use whymiss.Prelude.{
  ℕ, Bool, true, false, ◌&&◌, ◌||◌, not, List, [], ◌∷◌, Option, none, some, String, if◌then◌else◌,
}
use whymiss.Prelude.Int.{ℤ, pos, ltb_ℤ, leb_ℤ}
use whymiss.Prelude.Time.{Time, Duration, is_zero, zero_time, after, sub_time}
use whymiss.Prelude.Float.{FloatOps, millis}
use whymiss.Domain.Slot.{derived, clock}
use whymiss.Domain.Kinds.{
  ObservationKind, slot_start, duty_assigned, block_skipped, clock_sampled, collection_completed,
  network_baseline_sampled, kind_eq,
}
use whymiss.Domain.Attrs.{is_source}
use whymiss.Domain.Observation.{Observation}
use whymiss.Domain.Sample.{MetricSample, Component, el, cl, vc, host, other_component}
use whymiss.Domain.Timeline.{Timeline, abs_duration}
use whymiss.Domain.Cause.{insufficient_data, host_clock_drift}
use whymiss.Domain.Verdict.{Verdict, Statement, high, low, milliseconds, txt, dur, kind_name}
use whymiss.Rca.Config.{Config}
use whymiss.Rca.Draft.{draft, stated, compared}

unfoldable pub requires_clock_trust : ObservationKind → Bool
requires_clock_trust k =
    not (kind_eq k slot_start)
    && (not (kind_eq k duty_assigned)
        && (not (kind_eq k block_skipped)
            && (not (kind_eq k clock_sampled)
                && (not (kind_eq k collection_completed)
                    && not (kind_eq k network_baseline_sampled)))))

abbrev pub component_name : Component → String
component_name el = "el"
component_name cl = "cl"
component_name vc = "vc"
component_name host = "host"
component_name (other_component s) = s

-- The largest offset so far, with the time of its sample.
pub record Worst : Type 0 where
  pub sampled_at : Time
  pub offset : Duration

abbrev pub no_worst : Worst
no_worst = record { sampled_at = zero_time; offset = pos 0 }

unfoldable pub worsen : Worst → Time → Duration → Worst
worsen w at offset =
    if is_zero w.sampled_at || ltb_ℤ w.offset offset
    then record { sampled_at = at; offset = offset }
    else w

-- A loop stops with a verdict, or goes on.
pub data Step (F : Type 0) : Type 0 where
  stop : Verdict F → Step F
  go : Worst → Step F

module _ {F : Type 0} where
  unfoldable pub insufficient_clock : Timeline F → Time → Statement F → Verdict F
  insufficient_clock tl at statement =
      draft insufficient_data low
        (stated (if is_zero at then tl.slot_start else at) derived statement ∷ [])
        ("configure whymiss watch with an NTP server and verify that clock samples remain fresh"
          ∷ [])

  unfoldable pub is_stale : Config F → Duration → Bool
  is_stale cfg age = leb_ℤ cfg.clock_sample_max_age (pos 0) || ltb_ℤ cfg.clock_sample_max_age age

  unfoldable pub check_observation : Timeline F → Config F → Worst → Observation → Step F
  check_observation tl cfg w obs =
      let age = abs_duration (sub_time obs.at obs.clock_sample_at) in
      if not (requires_clock_trust obs.kind)
      then go w
      else if not obs.clock_measured
      then stop (
          insufficient_clock tl obs.at (
            txt "no clock offset was measured for "
            ∷ kind_name obs.kind
            ∷ txt ", so timing-based attribution is unavailable"
            ∷ []))
      else if is_stale cfg age
      then stop (
          insufficient_clock tl obs.at (
            txt "the clock sample attached to "
            ∷ kind_name obs.kind
            ∷ txt " is "
            ∷ dur age
            ∷ txt " old, exceeding the "
            ∷ dur cfg.clock_sample_max_age
            ∷ txt " freshness limit"
            ∷ []))
      else go (worsen w obs.clock_sample_at (abs_duration obs.clock_offset))

  unfoldable pub check_observations : Timeline F → Config F → Worst → List Observation → Step F
  check_observations tl cfg w [] = go w
  check_observations tl cfg w (o ∷ rest) = elim (check_observation tl cfg w o) [
    | stop v ↦ stop v
    | go w' ↦ check_observations tl cfg w' rest
  ]

  unfoldable pub sample_key : MetricSample F → String
  sample_key m = component_name m.component ++ ("\0" ++ m.name)

  -- A later sample replaces the one under its key; a new key goes to its place in the order.
  unfoldable pub put_latest : MetricSample F → List (MetricSample F) → List (MetricSample F)
  unfolding sample_key
  put_latest m [] = m ∷ []
  put_latest m (n ∷ rest) =
      let below = n ∷ put_latest m rest in
      elim (compare (sample_key m) (sample_key n)) [
        | Ordering.lt ↦ m ∷ n ∷ rest
        | Ordering.eq ↦ if after m.at n.at then m ∷ rest else n ∷ rest
        | Ordering.gt ↦ below
      ]

  unfoldable pub latest_samples :
      List (MetricSample F) → List (MetricSample F) → List (MetricSample F)
  unfolding put_latest
  latest_samples latest [] = latest
  latest_samples latest (m ∷ rest) =
      latest_samples (if is_source derived m.source then latest else put_latest m latest) rest

  unfoldable pub check_sample : Timeline F → Config F → Worst → MetricSample F → Step F
  check_sample tl cfg w m =
      let age = abs_duration (sub_time m.at m.clock_sample_at) in
      if not m.clock_measured
      then stop (
          insufficient_clock tl m.at (
            txt "no clock offset was measured for sample "
            ∷ txt m.name
            ∷ txt ", so timing-based attribution is unavailable"
            ∷ []))
      else if is_stale cfg age
      then stop (
          insufficient_clock tl m.at (
            txt "the clock sample attached to metric "
            ∷ txt m.name
            ∷ txt " is "
            ∷ dur age
            ∷ txt " old, exceeding the "
            ∷ dur cfg.clock_sample_max_age
            ∷ txt " freshness limit"
            ∷ []))
      else go (worsen w m.clock_sample_at (abs_duration m.clock_offset))

  unfoldable pub check_samples : Timeline F → Config F → Worst → List (MetricSample F) → Step F
  check_samples tl cfg w [] = go w
  check_samples tl cfg w (m ∷ rest) = elim (check_sample tl cfg w m) [
    | stop v ↦ stop v
    | go w' ↦ check_samples tl cfg w' rest
  ]

module _ {F : Type 0} (fl : FloatOps F) where
  unfoldable pub drift : Config F → Worst → Verdict F
  drift cfg w =
      draft host_clock_drift high
        (compared w.sampled_at clock
            (txt "measured clock offset of "
              ∷ dur w.offset
              ∷ txt " exceeds the "
              ∷ dur cfg.clock_offset_max
              ∷ txt " trust threshold; all downstream timing-based reasoning is unavailable"
              ∷ [])
            "clock offset" (millis fl w.offset) (millis fl cfg.clock_offset_max) milliseconds
          ∷ [])
        ("install and enable chrony or systemd-timesyncd" ∷ "verify with `chronyc tracking`" ∷ [])

  abbrev conclude : Config F → Step F → Option (Verdict F)
  conclude cfg (stop v) = some v
  conclude cfg (go w) =
      if is_zero w.sampled_at || leb_ℤ w.offset cfg.clock_offset_max
      then none
      else some (drift cfg w)

  abbrev then_samples : Timeline F → Config F → Step F → Step F
  then_samples tl cfg (stop v) = stop v
  then_samples tl cfg (go w) = check_samples tl cfg w (latest_samples [] tl.samples)

  unfoldable pub evaluate : Timeline F → Config F → Option (Verdict F)
  evaluate tl cfg =
      conclude cfg (then_samples tl cfg (check_observations tl cfg no_worst tl.observations))
