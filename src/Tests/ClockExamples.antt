-- ===== src/Tests/ClockExamples.antt =====
-- The theorems on internal/clock, internal/app and internal/source/beaconapi at concrete values.
use whymiss.Prelude.{
  ℕ, zero, suc, ◌+◌, ◌*◌, ◌^◌, ◌≤◌, ◌<◌, Bool, true, false, List, [], ◌∷◌, ◌++◌, Option, none, some,
  String, ◌≡◌, ◌≢◌, refl, arith, length, ltb,
}
use Prim.Native.Nat.{min}
use whymiss.Prelude.Int.{ℤ, pos, ◌+ℤ◌, ◌≤ℤ◌, pos_part}
use whymiss.Prelude.Text.{codes}
use whymiss.Prelude.Time.{Time, second}
use whymiss.Prelude.Float.{FloatOps}
use whymiss.Clock.{Reading}
use whymiss.Clock.Backoff.{
  backoff_ceiling, backoff_base, backoff_cap, reconnect_ceiling, reconnect_base, reconnect_cap,
  ceilings_exact,
}
use whymiss.Clock.Ntp.{to_ntp, from_ntp_near, era}
use whymiss.Clock.RoundTrip.{nearest_era, RoundsEras, from_ntp_near-to_ntp}
use whymiss.Clock.Packet.{Packet, put_uint64, zeros, receive_timestamp}
use whymiss.Clock.Query.{
  QueryResult, measured, network_failure, received, query, max_trusted_round_trip,
}
use whymiss.Clock.Accuracy.{query-IsAccurate}
use whymiss.Clock.Sampler.{Config, Environment, new, sample, attempts_of, max_attempts}
use whymiss.Clock.Rounds.{answers, first_reading, sample-IsFirst}
use whymiss.App.StreamHealth.{new_stream_health, stream_reminder_interval}
use whymiss.App.StreamHealth.Reminders.{fail_at, reminders-bounded}
use whymiss.Tests.Values.{milli}

ceilings_exact_example :
    (backoff_ceiling 40 ≡ pos (min (backoff_base * 2 ^ 40) backoff_cap))
    × (reconnect_ceiling 40 ≡ pos (min (reconnect_base * 2 ^ 40) reconnect_cap))
ceilings_exact_example = ceilings_exact 40

-- Seconds in place of float64, and eras once divided.
abbrev eras : FloatOps ℤ
eras = record milli { of_int = λ n. n; to_int = λ a. a; div = λ a b. a }

eras-RoundsEras : RoundsEras eras nearest_era
unfolding era
eras-RoundsEras = record { nearest = λ a l h. refl }

-- An instant `n` nanoseconds after the beginning of 2040, in the second era.
abbrev in_2040 : ℕ → Time
in_2040 n = record { ns = pos (64344844800000000000 + n); utc = true }

from_ntp_near-to_ntp_example :
    ((from_ntp_near eras nearest_era (to_ntp (in_2040 123456789)) (in_2040 0)).ns
      ≤ℤ (in_2040 123456789).ns)
    × ((in_2040 123456789).ns
        ≤ℤ (from_ntp_near eras nearest_era (to_ntp (in_2040 123456789)) (in_2040 0)).ns +ℤ pos 1)
unfolding ◌+ℤ◌
from_ntp_near-to_ntp_example =
    from_ntp_near-to_ntp eras nearest_era eras-RoundsEras (in_2040 123456789) (in_2040 0)
      (omega arith, omega arith) (omega arith, omega arith)

-- A server 2.25 s ahead receives after 0.25 s and answers after 0.5 s; the reply is read at 0.75 s.
abbrev reply : Packet
reply =
    36
    ∷ 1
    ∷ (zeros 22
        ++ put_uint64 (to_ntp (in_2040 0))
        ++ put_uint64 (to_ntp (in_2040 2500000000))
        ++ put_uint64 (to_ntp (in_2040 2750000000)))

abbrev reading : Reading
reading = record {
  server = "ntp:123";
  at = in_2040 750000000;
  offset = pos 2250000000;
  round_trip = pos 500000000;
}

query-reply :
    query eras nearest_era "ntp:123" (in_2040 0) (received 48 reply (in_2040 750000000))
    ≡ measured reading
unfolding query whymiss.Clock.Packet.leap_indicator whymiss.Clock.Packet.stratum
    whymiss.Clock.Packet.version whymiss.Clock.Packet.mode whymiss.Clock.Packet.origin_timestamp
    to_ntp whymiss.Prelude.Int.wrap64 ◌+ℤ◌ whymiss.Prelude.Int.◌-ℤ◌ receive_timestamp
    whymiss.Clock.Packet.transmit_timestamp from_ntp_near whymiss.Prelude.Int.◌*ℤ◌
    whymiss.Prelude.Time.sub_time whymiss.Prelude.Int.clamp64
query-reply = refl

query-IsAccurate_example :
    (reading.offset +ℤ reading.offset
      ≤ℤ pos 2250000000 +ℤ pos 2250000000 +ℤ reading.round_trip +ℤ pos 1)
    × (pos 2250000000 +ℤ pos 2250000000
        ≤ℤ reading.offset +ℤ reading.offset +ℤ reading.round_trip +ℤ pos 1)
    × (pos 0 ≤ℤ reading.round_trip)
    × (reading.round_trip ≤ℤ pos max_trusted_round_trip)
unfolding from_ntp_near whymiss.Prelude.Int.◌*ℤ◌ receive_timestamp ◌+ℤ◌ to_ntp
    whymiss.Prelude.Int.wrap64 whymiss.Prelude.Int.◌-ℤ◌ whymiss.Clock.Packet.transmit_timestamp
query-IsAccurate_example =
    query-IsAccurate eras nearest_era "ntp:123" (in_2040 0) 48 reply (in_2040 750000000) reading
      (pos 64344844800250000000) (pos 64344844800500000000) (pos 2250000000) query-reply
      (omega arith) (omega arith) (omega arith) refl refl (omega arith) (omega arith) (omega arith)

abbrev ntp_config : Config
ntp_config = record {
  servers = "a" ∷ "b" ∷ "c" ∷ [];
  timeout = pos 1000000000;
  max_attempts = pos 5;
}

-- The first three attempts fail.
abbrev fourth_answers : ℕ → QueryResult
fourth_answers n = elim (ltb n 3) [ true ↦ network_failure | false ↦ measured reading ]

abbrev environment : Environment
environment = record { waits = λ k. true; asks = λ k server. fourth_answers k; alive = λ k. true }

new-ntp_config : new (λ s. s) ntp_config ≡ some ntp_config
unfolding new whymiss.Prelude.Text.is_blank
new-ntp_config = refl

sample-IsFirst_example :
    (0 < attempts_of ntp_config.max_attempts)
    × (attempts_of ntp_config.max_attempts ≤ max_attempts)
    × (sample environment ntp_config
        ≡ first_reading
            (answers environment ntp_config.servers (attempts_of ntp_config.max_attempts) 0))
sample-IsFirst_example =
    sample-IsFirst (λ s. s) ntp_config ntp_config environment new-ntp_config (λ k. refl) (λ k. refl)

abbrev message : String
message = "event stream: 501"

not_empty : message ≢ ""
not_empty q = cc

-- Four failures over half an hour.
reminders-bounded_example :
    (1
      ≤ length
          (fail_at message
            (in_2040 0 ∷ in_2040 15000000000 ∷ in_2040 900000000000 ∷ in_2040 1800000000000 ∷ [])
            new_stream_health).1)
    × (pos (
            length
              (fail_at message
                (in_2040 0
                  ∷ in_2040 15000000000
                  ∷ in_2040 900000000000
                  ∷ in_2040 1800000000000
                  ∷ [])
                new_stream_health).1
            * stream_reminder_interval)
          +ℤ (in_2040 0).ns
        ≤ℤ (in_2040 1800000000000).ns +ℤ pos stream_reminder_interval)
    × ((fail_at message
          (in_2040 0 ∷ in_2040 15000000000 ∷ in_2040 900000000000 ∷ in_2040 1800000000000 ∷ [])
          new_stream_health).0.count
        ≡ 4)
reminders-bounded_example =
    reminders-bounded message (in_2040 0) (in_2040 1800000000000)
      (in_2040 15000000000 ∷ in_2040 900000000000 ∷ in_2040 1800000000000 ∷ []) not_empty
      (omega arith) (omega arith, (omega arith, (omega arith, tt)))
