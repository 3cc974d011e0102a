-- ===== src/Clock/Ntp.antt =====
-- internal/clock/packet.go: instants as 64-bit NTP timestamps, and back near a pivot.
use whymiss.Prelude.{ℕ, ◌+◌, ◌-◌, ◌*◌, ◌/◌, ◌%◌, true}
use whymiss.Prelude.Int.{ℤ, pos, negsuc, ◌+ℤ◌, ◌-ℤ◌, ◌*ℤ◌, wrap64, to_u64}
use whymiss.Prelude.Time.{Time}
use whymiss.Prelude.Float.{FloatOps}

-- `Unix` and `Nanosecond` of an instant, and `time.Unix(sec, nsec).UTC()`. Go counts seconds from
-- its zero time, 62135596800 seconds before the Unix epoch, and rounds them down.
abbrev pub zero_to_unix : ℕ
zero_to_unix = 62135596800

abbrev pub floor_seconds : ℤ → ℤ
floor_seconds (pos n) = pos (n / 1000000000)
floor_seconds (negsuc n) = negsuc (n / 1000000000)

abbrev pub nanosecond : Time → ℕ
nanosecond t = elim t.ns [ pos n ↦ n % 1000000000 | negsuc n ↦ 999999999 - n % 1000000000 ]

unfoldable pub unix : Time → ℤ
unix t = floor_seconds t.ns -ℤ pos zero_to_unix

unfoldable pub from_unix : ℤ → ℕ → Time
from_unix sec nsec = record {
  ns = (sec +ℤ pos zero_to_unix) *ℤ pos 1000000000 +ℤ pos nsec;
  utc = true;
}

abbrev pub ntp_epoch_offset : ℕ
ntp_epoch_offset = 2208988800

-- 2 ^ 32
abbrev pub ntp_era_seconds : ℕ
ntp_era_seconds = 4294967296

-- The upper half of the uint64 drops out of `sec<<32`.
unfoldable pub to_ntp : Time → ℕ
unfolding unix
to_ntp t =
    to_u64 (wrap64 (unix t +ℤ pos ntp_epoch_offset)) % 4294967296 * 4294967296
    + nanosecond t * 4294967296 / 1000000000

unfoldable pub ntp_time : ℤ → ℕ → Time
unfolding from_unix
ntp_time sec v = from_unix sec (v % 4294967296 * 1000000000 / 4294967296)

unfoldable pub from_ntp : ℕ → Time
unfolding ntp_time
from_ntp v = ntp_time (pos (v / 4294967296) -ℤ pos ntp_epoch_offset) v

-- `math.Round` is a parameter beside the operations of float64.
module _ {F : Type 0} (fl : FloatOps F) (round : F → F) where
  unfoldable pub era : ℤ → ℤ
  era seconds = fl.to_int (round (fl.div (fl.of_int seconds) (fl.of_int (pos ntp_era_seconds))))

  unfoldable pub from_ntp_near : ℕ → Time → Time
  unfolding ntp_time unix era
  from_ntp_near v pivot =
      let base = pos (v / 4294967296) -ℤ pos ntp_epoch_offset in
      let eras = wrap64 (era (wrap64 (unix pivot -ℤ base)) *ℤ pos ntp_era_seconds) in
      ntp_time (wrap64 (base +ℤ eras)) v
