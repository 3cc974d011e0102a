-- ===== src/App/StreamHealth/Reminders.antt =====
-- internal/app/streamhealth.go: how often a failure is repeated in the log.
use whymiss.Prelude.{
  ℕ, suc, ◌+◌, ◌*◌, ◌≤◌, false, List, [], ◌∷◌, ◌++◌, some, String, ◌≡◌, ◌≢◌, refl, ◌∙◌, arith,
  length, All, Bool-cases, inl, inr,
}
use whymiss.Prelude.Int.{ℤ, pos, negsuc, ltb_ℤ, ◌+ℤ◌, ◌-ℤ◌, ◌≤ℤ◌, clamp64, int_laws}
use whymiss.Prelude.Text.{str_eq, str_eq_iff}
use whymiss.Prelude.Time.{Time, sub_time}
use whymiss.App.StreamHealth.{
  StreamHealth, Line, stream_reminder_interval, new_stream_health, reconnecting, repeated, failed,
}

-- Failures with one message, at given times.
abbrev pub fail_at : String → List Time → StreamHealth → StreamHealth × List Line
fail_at message [] h = (h, [])
fail_at message (now ∷ rest) h =
    let step = failed now (some message) h in
    let later = fail_at message rest step.0 in (later.0, step.1 ++ later.1)

at_least :
    (d : ℤ)
    → ltb_ℤ (clamp64 d) (pos stream_reminder_interval) ≡ false
    → pos stream_reminder_interval ≤ℤ d
unfolding clamp64
at_least (pos n) h = ground arith
at_least (negsuc n) h = absurd (ground arith)

interval_passed :
    (now t : Time)
    → ltb_ℤ (sub_time now t) (pos stream_reminder_interval) ≡ false
    → t.ns +ℤ pos stream_reminder_interval ≤ℤ now.ns
unfolding sub_time
interval_passed now t h =
    let d : pos stream_reminder_interval ≤ℤ now.ns -ℤ t.ns = at_least (now.ns -ℤ t.ns) h in
    omega int_laws

-- What holds of a state and its log after failures with one message: the last report is an interval
-- later for each line, and the failures are counted.
abbrev Reported : StreamHealth → ℕ → StreamHealth × List Line → Type 0
Reported h n (after, lines) =
    (pos (length lines * stream_reminder_interval) +ℤ h.reported.ns ≤ℤ after.reported.ns)
    × (after.last ≡ h.last)
    × (after.count ≡ h.count + n)

repeated-Reported : (now : Time) (h : StreamHealth) → Reported h 1 (repeated now h)
unfolding repeated
repeated-Reported now h =
    elim (Bool-cases (ltb_ℤ (sub_time now h.reported) (pos stream_reminder_interval))) [
      | inl e ↦ rw (e, repeated) (omega int_laws, refl, omega arith)
      | inr e ↦
          let late = interval_passed now h.reported e in
          rw (e, repeated) (omega int_laws, refl, omega arith)
    ]

failed_again :
    (message : String) (now : Time) (h : StreamHealth)
    → h.last ≡ message
    → failed now (some message) h ≡ repeated now h
unfolding failed
failed_again message now h e = rw (e, (str_eq_iff message message).1 refl) refl

length-append : (a b : List Line) → length (a ++ b) ≡ length a + length b
length-append [] b = omega arith
length-append (x ∷ a) b = omega (arith, length-append a b)

Reported-then :
    (h : StreamHealth) (n : ℕ) (p q : StreamHealth × List Line)
    → Reported h 1 p
    → Reported p.0 n q
    → Reported h (suc n) (q.0, p.1 ++ q.1)
Reported-then h n (a, ls) (b, ks) (r, l, c) (s, k, d) =
    (omega (int_laws, length-append ls ks), k ∙ l, omega arith)

fail_at-Reported :
    (message : String) (ts : List Time) (h : StreamHealth)
    → h.last ≡ message
    → Reported h (length ts) (fail_at message ts h)
fail_at-Reported message [] h e = (omega int_laws, refl, omega arith)
fail_at-Reported message (now ∷ ts) h e =
    let first = repeated-Reported now h in
    rw (failed_again message now h e) (
      Reported-then h (length ts) (repeated now h) (fail_at message ts (repeated now h).0) first
        (fail_at-Reported message ts (repeated now h).0 (first.1 ∙ e)))

By : Time → Time → Type 0
By end t = t.ns ≤ℤ end.ns

repeated-By :
    (end now : Time) (h : StreamHealth)
    → By end h.reported
    → By end now
    → By end (repeated now h).0.reported
unfolding By repeated
repeated-By end now h g k = ground arith

fail_at-By :
    (end : Time) (message : String) (ts : List Time) (h : StreamHealth)
    → h.last ≡ message
    → By end h.reported
    → All (By end) ts
    → By end (fail_at message ts h).0.reported
fail_at-By end message [] h e g k = g
fail_at-By end message (now ∷ ts) h e g (k, ks) = rw (failed_again message now h e) (
    fail_at-By end message ts (repeated now h).0 ((repeated-Reported now h).1 ∙ e)
      (repeated-By end now h g k) ks)

started : String → Time → StreamHealth
started message t = record { last = message; since = t; reported = t; count = 1 }

first_failure :
    (message : String) (t : Time)
    → message ≢ ""
    → failed t (some message) new_stream_health ≡ (started message t, reconnecting message ∷ [])
unfolding failed started
first_failure message t n = elim (Bool-cases (str_eq message "")) [
  | inl e ↦ absurd (n ((str_eq_iff message "").0 e))
  | inr e ↦ rw e refl
]

-- When the stream fails with one message at `t` and at the times `ts`, all of them by `end`, then the
-- log gets at least one line and, beyond the first, at most one for each 15 minutes from `t` to
-- `end`; and every failure is counted.
pub reminders-bounded :
    (message : String) (t end : Time) (ts : List Time)
    → message ≢ ""
    → t.ns ≤ℤ end.ns
    → All (λ (u : Time). u.ns ≤ℤ end.ns) ts
    → (1 ≤ length (fail_at message (t ∷ ts) new_stream_health).1)
      × (pos (length (fail_at message (t ∷ ts) new_stream_health).1 * stream_reminder_interval)
            +ℤ t.ns
          ≤ℤ end.ns +ℤ pos stream_reminder_interval)
      × ((fail_at message (t ∷ ts) new_stream_health).0.count ≡ length (t ∷ ts))
unfolding By started
reminders-bounded message t end ts n k ks =
    let h = started message t in
    let (spaced, _, counted) = fail_at-Reported message ts h refl in
    let closed = fail_at-By end message ts h refl k ks in
    rw (first_failure message t n) (omega arith, omega int_laws, omega arith)
