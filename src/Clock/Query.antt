-- ===== src/Clock/Query.antt =====
-- internal/clock/query.go: one SNTP exchange. What the network did is a value: no reply, for whatever
-- reason, or a number of bytes read into the packet at an instant.
use whymiss.Prelude.{ℕ, ◌==◌, Bool, ◌||◌, not, String, ltb, if◌then◌else◌}
use whymiss.Prelude.Int.{pos, ◌+ℤ◌, ◌-ℤ◌, wrap64, quot, ltb_ℤ}
use whymiss.Prelude.Time.{Time, Duration, before, sub_time}
use whymiss.Prelude.Float.{FloatOps}
use whymiss.Clock.{Reading}
use whymiss.Clock.Ntp.{to_ntp, from_ntp_near}
use whymiss.Clock.Packet.{
  Packet, leap_unsync, mode_server, leap_indicator, stratum, version, mode, origin_timestamp,
  receive_timestamp, transmit_timestamp,
}

pub data Reply : Type 0 where
  no_reply : Reply
  received : ℕ → Packet → Time → Reply

pub data QueryResult : Type 0 where
  measured : Reading → QueryResult
  network_failure invalid_response : QueryResult

-- 1 s
abbrev pub max_trusted_round_trip : ℕ
max_trusted_round_trip = 1000000000

-- The formulas of RFC 5905; each operation is one on int64.
unfoldable pub sntp_offset : Time → Time → Time → Time → Duration
sntp_offset t1 t2 t3 t4 = quot (wrap64 (sub_time t2 t1 +ℤ sub_time t3 t4)) 2

unfoldable pub sntp_delay : Time → Time → Time → Time → Duration
sntp_delay t1 t2 t3 t4 = wrap64 (sub_time t4 t1 -ℤ sub_time t3 t2)

-- The checks on the header.
unfoldable pub refuses : ℕ → Packet → Time → Bool
refuses n resp t1 =
    ltb n 48
    || leap_indicator resp == leap_unsync
    || stratum resp == 0
    || ltb 15 (stratum resp)
    || ltb (version resp) 3
    || ltb 4 (version resp)
    || not (mode resp == mode_server)
    || not (origin_timestamp resp == to_ntp t1)
    || receive_timestamp resp == 0
    || transmit_timestamp resp == 0

module _ {F : Type 0} (fl : FloatOps F) (round : F → F) where
  -- The measurement, with the instants of the server decoded near the time of receipt.
  unfoldable pub measure : String → Time → Time → Time → Time → QueryResult
  unfolding sntp_offset sntp_delay
  measure addr t1 t2 t3 t4 =
      if before t3 t2
      then invalid_response
      else if ltb_ℤ (sntp_delay t1 t2 t3 t4) (pos 0)
          || ltb_ℤ (pos max_trusted_round_trip) (sntp_delay t1 t2 t3 t4)
      then invalid_response
      else measured (record {
        server = addr;
        at = t4;
        offset = sntp_offset t1 t2 t3 t4;
        round_trip = sntp_delay t1 t2 t3 t4;
      })

  unfoldable pub query : String → Time → Reply → QueryResult
  unfolding refuses measure
  query addr t1 no_reply = network_failure
  query addr t1 (received n resp t4) =
      if refuses n resp t1
      then invalid_response
      else measure addr t1 (from_ntp_near fl round (receive_timestamp resp) t4)
          (from_ntp_near fl round (transmit_timestamp resp) t4) t4
