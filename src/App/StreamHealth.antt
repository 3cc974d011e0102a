-- ===== src/App/StreamHealth.antt =====
-- internal/app/streamhealth.go: a repeating event-stream failure becomes one line of the log, a
-- periodic reminder, and a line when it clears. The mutex makes each call one step; the clock's
-- reading is an argument.
pub mod Reminders
use whymiss.Prelude.{
  ℕ, suc, ◌+◌, ◌==◌, Bool, not, List, [], ◌∷◌, Option, none, some, String, if◌then◌else◌,
}
use whymiss.Prelude.Int.{ℤ, pos, ltb_ℤ}
use whymiss.Prelude.Text.{str_eq}
use whymiss.Prelude.Time.{Time, Duration, sub_time, zero_time, round_duration, second}

-- 15 min
abbrev pub stream_reminder_interval : ℕ
stream_reminder_interval = 900000000000

pub record StreamHealth : Type 0 where
  pub last : String
  pub since : Time
  pub reported : Time
  pub count : ℕ

-- The lines of the log, with the values that they carry.
pub data Line : Type 0 where
  reconnecting : String → Line
  still_failing : String → ℕ → Duration → Line
  stream_recovered : ℕ → Duration → Line

abbrev pub new_stream_health : StreamHealth
new_stream_health = record { last = ""; since = zero_time; reported = zero_time; count = 0 }

abbrev pub elapsed : Time → Time → Duration
elapsed now t = round_duration second (sub_time now t)

-- A repeated failure, counted and, once the interval has passed, repeated in the log.
unfoldable pub repeated : Time → StreamHealth → StreamHealth × List Line
repeated now h =
    if ltb_ℤ (sub_time now h.reported) (pos stream_reminder_interval)
    then (record h { count = suc h.count }, [])
    else (
      record h { count = suc h.count; reported = now },
      still_failing h.last (suc h.count) (elapsed now h.since) ∷ [],
    )

unfoldable pub failed : Time → Option String → StreamHealth → StreamHealth × List Line
unfolding repeated
failed now none h = (h, [])
failed now (some message) h =
    if not (str_eq message h.last)
    then (
      record { last = message; since = now; reported = now; count = 1 },
      reconnecting message ∷ [],
    )
    else repeated now h

unfoldable pub recovered : Time → StreamHealth → StreamHealth × List Line
recovered now h = if h.count == 0 then (h, []) else (
  record { last = ""; since = zero_time; reported = zero_time; count = 0 },
  stream_recovered h.count (elapsed now h.since) ∷ [],
)
