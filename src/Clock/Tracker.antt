-- ===== src/Clock/Tracker.antt =====
-- internal/clock/tracker.go: the last successful reading. The mutex makes each call one step.
use whymiss.Prelude.{
  Bool, true, false, List, [], ◌∷◌, Option, none, some, ◌≡◌, refl, ap, ◌∙◌, or_else,
}
use whymiss.Prelude.Time.{Time, zero_time}
use whymiss.Clock.{Reading}
use whymiss.Clock.Sampler.{SampleResult, sampled, cancelled, all_attempts_failed, out_of_range}

pub record Tracker : Type 0 where
  pub last : Option Reading
  pub sync_at : Time
  pub have : Bool

-- Without a reading, the field `last` holds the zero reading, here `none`.
abbrev pub new_tracker : Tracker
new_tracker = record { last = none; sync_at = zero_time; have = false }

-- `Sample`, by what the wrapped sampler returned.
unfoldable pub track : SampleResult → Tracker → Tracker
track (sampled r) t = record { last = some r; sync_at = r.at; have = true }
track _ t = t

abbrev pub track_all : List SampleResult → Tracker → Tracker
track_all [] t = t
track_all (r ∷ rest) t = track_all rest (track r t)

unfoldable pub last_known_good : Tracker → Option Reading × Time × Bool
last_known_good t = (t.last, t.sync_at, t.have)

abbrev good : SampleResult → Option Reading
good (sampled r) = some r
good _ = none

abbrev pub last_good : List SampleResult → Option Reading
last_good [] = none
last_good (r ∷ rest) = or_else (last_good rest) (good r)

-- The tracker that remembers a reading, or none.
abbrev remembers : Option Reading → Tracker
remembers none = new_tracker
remembers (some r) = record { last = some r; sync_at = r.at; have = true }

abbrev pub report_of : Option Reading → Option Reading × Time × Bool
report_of none = (none, zero_time, false)
report_of (some r) = (some r, r.at, true)

track-remembers :
    (r : SampleResult) (before : Option Reading)
    → track r (remembers before) ≡ remembers (or_else (good r) before)
unfolding track
track-remembers (sampled r) before = refl
track-remembers cancelled before = refl
track-remembers all_attempts_failed before = refl
track-remembers out_of_range before = refl

or_else_assoc : (a b c : Option Reading) → or_else a (or_else b c) ≡ or_else (or_else a b) c
or_else_assoc none b c = refl
or_else_assoc (some a) b c = refl

track_all-remembers :
    (rs : List SampleResult) (before : Option Reading)
    → track_all rs (remembers before) ≡ remembers (or_else (last_good rs) before)
track_all-remembers [] before = refl
track_all-remembers (r ∷ rs) before =
    ap (track_all rs) (track-remembers r before)
    ∙ track_all-remembers rs (or_else (good r) before)
    ∙ ap remembers (or_else_assoc (last_good rs) (good r) before)

or_else-none : (a : Option Reading) → or_else a none ≡ a
or_else-none none = refl
or_else-none (some a) = refl

report-remembers : (a : Option Reading) → last_known_good (remembers a) ≡ report_of a
unfolding last_known_good
report-remembers none = refl
report-remembers (some r) = refl

-- After any sequence of calls of `Sample`, `LastKnownGood` reports the last reading that succeeded
-- and its time, or that none has: a failure overwrites nothing.
pub last_known_good-IsLast :
    (rs : List SampleResult) → last_known_good (track_all rs new_tracker) ≡ report_of (last_good rs)
last_known_good-IsLast rs =
    ap last_known_good (track_all-remembers rs none ∙ ap remembers (or_else-none (last_good rs)))
    ∙ report-remembers (last_good rs)
