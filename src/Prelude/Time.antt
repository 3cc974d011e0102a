-- ===== src/Prelude/Time.antt =====
-- Go's `time.Time` and `time.Duration`, as far as the program uses them. An instant is counted in
-- nanoseconds from Go's zero time; a duration is an int64 of nanoseconds. Monotonic readings, and
-- the wrap of instants some 292 billion years away, are left out.
use Prim.Native.Nat.{ℕ, suc, ◌+◌, ◌-◌, ◌%◌}
use mathlib.Core.Path.{◌≡◌, refl}
use mathlib.Core.Bool.{Bool, true}
use whymiss.Prelude.Tests.{ltb, leb, if◌then◌else◌}
use whymiss.Prelude.Int.{
  ℤ, pos, negsuc, sub_ℕ, max_int64, min_int64, ◌+ℤ◌, ◌-ℤ◌, ltb_ℤ, eqb_ℤ, clamp64, clamp64_id,
  IsInt64, int_laws,
}

abbrev pub Duration : Type 0
Duration = ℤ

pub record Time : Type 0 where
  pub ns : ℤ
  pub utc : Bool

abbrev pub zero_time : Time
zero_time = record { ns = pos 0; utc = true }

abbrev pub is_zero : Time → Bool
is_zero t = eqb_ℤ t.ns (pos 0)

abbrev pub before : Time → Time → Bool
before a b = ltb_ℤ a.ns b.ns

abbrev pub after : Time → Time → Bool
after a b = ltb_ℤ b.ns a.ns

unfoldable pub add_time : Time → Duration → Time
add_time t d = record t { ns = t.ns +ℤ d }

-- `Sub` saturates at the ends of int64.
unfoldable pub sub_time : Time → Time → Duration
sub_time a b = clamp64 (a.ns -ℤ b.ns)

abbrev pub second : ℕ
second = 1000000000

abbrev pub millisecond : ℕ
millisecond = 1000000

-- `Round`: to the nearest multiple of `m`, halves away from zero, saturated.
unfoldable pub round_duration : ℕ → Duration → Duration
round_duration m (pos n) =
    if ltb (n % m + n % m) m
    then pos (n - n % m)
    else if ltb (n + m - n % m) 9223372036854775808
    then pos (n + m - n % m)
    else max_int64
round_duration m (negsuc n) =
    if ltb (suc n % m + suc n % m) m
    then sub_ℕ 0 (suc n - suc n % m)
    else if leb (suc n + m - suc n % m) 9223372036854775808
    then sub_ℕ 0 (suc n + m - suc n % m)
    else min_int64

pub add-sub_time : (a b : Time) → IsInt64 (a.ns -ℤ b.ns) → (add_time b (sub_time a b)).ns ≡ a.ns
unfolding add_time sub_time
add-sub_time a b h = rw (clamp64_id (a.ns -ℤ b.ns) h) (omega int_laws)

round_half : round_duration 1000000000 (pos 1500000000) ≡ pos 2000000000
unfolding round_duration
round_half = refl
