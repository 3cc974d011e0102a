-- ===== src/App/ClockStamp.antt =====
-- internal/app/clocktracker.go: observations and samples are stamped with the last clock reading, as
-- `LastKnownGood` of the tracker gives it. An instant after `.UTC()` is in UTC.
use whymiss.Prelude.{
  Bool, true, false, ◌||◌, not, Option, none, some, ◌≡◌, arith, if◌then◌else◌, ap, refl,
}
use whymiss.Prelude.Int.{pos, ◌+ℤ◌, ◌≤ℤ◌, eqb_ℤ, ltb_ℤ, leb_ℤ, int_laws, clamp64}
use whymiss.Prelude.Time.{Time, Duration, is_zero, sub_time}
use whymiss.Domain.Slot.{SourceId, derived}
use whymiss.Domain.Kinds.{slot_start}
use whymiss.Domain.Observation.{Observation}
use whymiss.Domain.Sample.{MetricSample}
use whymiss.Domain.Timeline.{is_kind, abs_duration}
use whymiss.Clock.{Reading}

-- `t.Add(d).UTC()`
abbrev pub corrected : Time → Duration → Time
corrected t d = record { ns = t.ns +ℤ d; utc = true }

-- `absoluteDuration` is `absDuration` of the rules.
abbrev pub too_old : Duration → Time → Time → Bool
too_old max_age now sampled =
    leb_ℤ max_age (pos 0) || ltb_ℤ max_age (abs_duration (sub_time now sampled))

abbrev pub has_provenance : Bool → Duration → Time → Bool
has_provenance measured offset sample_at =
    measured || (not (eqb_ℤ offset (pos 0)) || not (is_zero sample_at))

unfoldable pub stamp_clock_provenance : Option Reading → Duration → Bool → Observation → Observation
stamp_clock_provenance none max_age correct_at o = o
stamp_clock_provenance (some r) max_age correct_at o =
    if has_provenance o.clock_measured o.clock_offset o.clock_sample_at
    then o
    else if too_old max_age o.at r.at
    then o
    else record o {
      at = if correct_at then corrected o.at r.offset else o.at;
      clock_offset = r.offset;
      clock_measured = true;
      clock_sample_at = corrected r.at r.offset;
    }

unfoldable pub stamp_clock : Option Reading → Duration → Observation → Observation
unfolding stamp_clock_provenance
stamp_clock last max_age o = stamp_clock_provenance last max_age (not (is_kind slot_start o)) o

abbrev is_derived : SourceId → Bool
is_derived derived = true
is_derived _ = false

module _ {F : Type 0} where
  unfoldable pub stamp_sample_clock : Option Reading → Duration → MetricSample F → MetricSample F
  stamp_sample_clock none max_age m = m
  stamp_sample_clock (some r) max_age m =
      if has_provenance m.clock_measured m.clock_offset m.clock_sample_at
      then m
      else if is_derived m.source
      then m
      else if too_old max_age m.at r.at
      then m
      else record m {
        at = corrected m.at r.offset;
        clock_offset = r.offset;
        clock_measured = true;
        clock_sample_at = corrected r.at r.offset;
      }

-- Correcting both instants keeps their distance.
distance : (a b : Time) (d : Duration) → sub_time (corrected a d) (corrected b d) ≡ sub_time a b
unfolding sub_time
distance a b d = ap clamp64 (omega int_laws)

restamp :
    (last : Option Reading) (max_age : Duration) (correct_at : Bool) (o : Observation)
    → o.clock_measured ≡ true
    → stamp_clock_provenance last max_age correct_at o ≡ o
unfolding stamp_clock_provenance
restamp none max_age correct_at o h = refl
restamp (some r) max_age correct_at o h = rw h refl

-- What a stamp says of the observation `s` made of `o` with the reading `r`.
pub record IsStamp (max_age : Duration) (r : Reading) (o s : Observation) : Type 0 where
  pub measured : s.clock_measured ≡ true
  pub offset : s.clock_offset ≡ r.offset
  pub at : s.at ≡ corrected o.at r.offset
  pub sampled : s.clock_sample_at ≡ corrected r.at r.offset
  pub fresh : abs_duration (sub_time s.at s.clock_sample_at) ≤ℤ max_age

-- Where an observation other than a slot start has no clock metadata yet, and the tracker's reading
-- was taken at most a positive maximal age before or after it, `stampClock` stamps it: it carries the
-- offset, its instant and the reading's are corrected by it, and they stand at most that age apart;
-- and a second stamp, with whatever reading and age, leaves it as it is.
pub stamp_clock-IsStamp :
    (r : Reading) (max_age : Duration) (o : Observation) (later : Option Reading)
    (other_age : Duration)
    → has_provenance o.clock_measured o.clock_offset o.clock_sample_at ≡ false
    → is_kind slot_start o ≡ false
    → pos 1 ≤ℤ max_age
    → abs_duration (sub_time o.at r.at) ≤ℤ max_age
    → IsStamp max_age r o (stamp_clock (some r) max_age o)
      × (stamp_clock later other_age (stamp_clock (some r) max_age o)
          ≡ stamp_clock (some r) max_age o)
unfolding stamp_clock stamp_clock_provenance
stamp_clock-IsStamp r max_age o later other_age e k p h =
    let f : too_old max_age o.at r.at ≡ false = ground arith in
    (
      rw (e, f, k)
          record {
            measured = refl;
            offset = refl;
            at = refl;
            sampled = refl;
            fresh = rw (distance o.at r.at r.offset) h;
          },
      rw (e, f, k) (restamp later other_age _ _ refl),
    )
