-- ===== src/Clock/RoundTrip.antt =====
-- internal/clock/packet.go: an instant survives the 64-bit NTP timestamp, across the rollovers of its
-- 32-bit seconds.
use whymiss.Prelude.{
  ℕ, Bool, suc, ◌+◌, ◌-◌, ◌*◌, ◌/◌, ◌%◌, ◌≤◌, ◌<◌, ◌≡◌, refl, ap, sym, subst, ◌∙◌, arith,
}
use whymiss.Prelude.Int.{
  ℤ, pos, negsuc, sub_ℕ, ◌+ℤ◌, ◌-ℤ◌, ◌*ℤ◌, ◌≤ℤ◌, pos_part, neg_part, wrap64, wrap64_id, to_u64,
  int_laws, eq_of_parts,
}
use whymiss.Prelude.Time.{Time}
use whymiss.Prelude.Float.{FloatOps}
use whymiss.Clock.Ntp.{
  unix, zero_to_unix, ntp_epoch_offset, ntp_era_seconds, to_ntp, ntp_time, era, from_ntp_near,
}

-- The number of eras of 2 ^ 32 seconds nearest to a number of seconds, halves away from zero.
abbrev pub nearest_era : ℤ → ℤ
nearest_era (pos n) = pos ((n + 2147483648) / 4294967296)
nearest_era (negsuc n) = sub_ℕ 0 ((suc n + 2147483648) / 4294967296)

-- float64 holds an integer below 2 ^ 53 and its quotient by 2 ^ 32 exactly, and `math.Round` rounds
-- that to the nearest integer.
pub record RoundsEras {F : Type 0} (fl : FloatOps F) (round : F → F) : Type 0 where
  pub nearest :
      (a : ℤ)
      → negsuc 9007199254740991 ≤ℤ a
      → a ≤ℤ pos 9007199254740992
      → era fl round a ≡ nearest_era a

-- From the year 1900 to the year 36000, in nanoseconds from Go's zero time.
abbrev pub IsModern : Time → Type 0
IsModern t = (pos 59926608000000000000 ≤ℤ t.ns) × (t.ns ≤ℤ pos 1135000000000000000000)

-- At most 2 ^ 31 - 2 seconds apart.
abbrev pub IsNear : Time → Time → Type 0
IsNear t u = (t.ns ≤ℤ u.ns +ℤ pos 2147483646000000000) × (u.ns ≤ℤ t.ns +ℤ pos 2147483646000000000)

nanos :
    (m : ℕ)
    → m < 1000000000
    → (m * 4294967296 / 1000000000 < 4294967296)
      × (m * 4294967296 / 1000000000 * 1000000000 / 4294967296 ≤ m)
      × (m ≤ m * 4294967296 / 1000000000 * 1000000000 / 4294967296 + 1)
nanos m h = (omega arith, omega arith, omega arith)

-- Seconds since 1900 as a uint64.
ntp_seconds :
    (s : ℕ)
    → 59926608000 ≤ s
    → s ≤ 1135000000000
    → to_u64 (wrap64 (pos s -ℤ pos zero_to_unix +ℤ pos ntp_epoch_offset)) ≡ s - 59926608000
unfolding wrap64 ◌+ℤ◌ ◌-ℤ◌
ntp_seconds s l h = ground arith

halves :
    (s f : ℕ)
    → f < 4294967296
    → ((s % 4294967296 * 4294967296 + f) / 4294967296 ≡ s % 4294967296)
      × ((s % 4294967296 * 4294967296 + f) % 4294967296 ≡ f)
halves s f h = (omega arith, omega arith)

ntp_halves :
    (n : ℕ) (u : Bool)
    → 59926608000000000000 ≤ n
    → n ≤ 1135000000000000000000
    → (to_ntp (record { ns = pos n; utc = u }) / 4294967296
        ≡ (n / 1000000000 - 59926608000) % 4294967296)
      × (to_ntp (record { ns = pos n; utc = u }) % 4294967296
          ≡ n % 1000000000 * 4294967296 / 1000000000)
unfolding to_ntp
ntp_halves n u l h = rw (ntp_seconds (n / 1000000000) (omega arith) (omega arith)) (
    halves (n / 1000000000 - 59926608000) (n % 1000000000 * 4294967296 / 1000000000)
      (nanos (n % 1000000000) (omega arith)).0)

-- The era of an instant `s` seconds after 1900 is what a pivot near it gives.
near_era :
    (s : ℕ) (p : ℤ)
    → s ≤ 1135000000000
    → (pos s -ℤ pos 2147483647 ≤ℤ p)
    → (p ≤ℤ pos s +ℤ pos 2147483647)
    → nearest_era (p -ℤ pos (s % 4294967296)) ≡ pos (s / 4294967296)
unfolding ◌+ℤ◌ ◌-ℤ◌
near_era s p h l g = ground arith

times_era : (k : ℕ) → pos k *ℤ pos ntp_era_seconds ≡ pos (k * 4294967296)
unfolding ◌*ℤ◌
times_era k = ground arith

base_back :
    (s : ℕ)
    → s ≤ 1135000000000
    → wrap64 (
        pos (s % 4294967296)
        -ℤ pos ntp_epoch_offset
        +ℤ wrap64 (pos (s / 4294967296) *ℤ pos ntp_era_seconds))
      ≡ pos s -ℤ pos ntp_epoch_offset
base_back s h =
    rw (times_era (s / 4294967296), wrap64_id (pos (s / 4294967296 * 4294967296)) (ground arith))
      (wrap64_id _ (omega int_laws, omega int_laws) ∙ eq_of_parts _ _ (omega int_laws))

from_base :
    (s : ℕ) (q : ℤ)
    → s ≤ 1135000000000
    → (pos s -ℤ pos 2147483647 ≤ℤ q +ℤ pos ntp_epoch_offset)
    → (q +ℤ pos ntp_epoch_offset ≤ℤ pos s +ℤ pos 2147483647)
    → wrap64 (q -ℤ (pos (s % 4294967296) -ℤ pos ntp_epoch_offset))
      ≡ q +ℤ pos ntp_epoch_offset -ℤ pos (s % 4294967296)
from_base s q h l g =
    wrap64_id _ (omega int_laws, omega int_laws) ∙ eq_of_parts _ _ (omega int_laws)

unix_near :
    (n m : ℕ) (u w : Bool)
    → n ≤ m + 2147483646000000000
    → m ≤ n + 2147483646000000000
    → 59926608000000000000 ≤ n
    → (pos (n / 1000000000 - 59926608000) -ℤ pos 2147483647
        ≤ℤ unix (record { ns = pos m; utc = w }) +ℤ pos ntp_epoch_offset)
      × (unix (record { ns = pos m; utc = w }) +ℤ pos ntp_epoch_offset
          ≤ℤ pos (n / 1000000000 - 59926608000) +ℤ pos 2147483647)
unfolding unix
unix_near n m u w l h g = (omega int_laws, omega int_laws)

module _ {F : Type 0} (fl : FloatOps F) (round : F → F) (r : RoundsEras fl round) where
  decoded :
      (v s : ℕ) (pivot : Time)
      → v / 4294967296 ≡ s % 4294967296
      → s ≤ 1135000000000
      → (pos s -ℤ pos 2147483647 ≤ℤ unix pivot +ℤ pos ntp_epoch_offset)
      → (unix pivot +ℤ pos ntp_epoch_offset ≤ℤ pos s +ℤ pos 2147483647)
      → from_ntp_near fl round v pivot ≡ ntp_time (pos s -ℤ pos ntp_epoch_offset) v
  unfolding from_ntp_near
  decoded v s pivot e h l g =
      rw
        (
          e,
          from_base s (unix pivot) h l g,
          r.nearest (unix pivot +ℤ pos ntp_epoch_offset -ℤ pos (s % 4294967296)) (omega int_laws)
              (omega int_laws),
          near_era s (unix pivot +ℤ pos ntp_epoch_offset) h l g,
          base_back s h,
        )
        refl

natural_part : (a : ℤ) → pos 0 ≤ℤ a → neg_part a ≡ 0
natural_part (pos n) h = refl
natural_part (negsuc n) h = absurd (omega arith)

-- An instant after Go's zero time, by its nanoseconds.
abbrev since : Time → Time
since t = record { ns = pos (pos_part t.ns); utc = t.utc }

natural : (t : Time) → pos 0 ≤ℤ t.ns → t ≡ since t
natural t h =
    ap (λ (a : ℤ). record { ns = a; utc = t.utc })
      (eq_of_parts t.ns (pos (pos_part t.ns)) (omega (arith, natural_part t.ns h)))

times_second : (k : ℕ) → pos k *ℤ pos 1000000000 ≡ pos (k * 1000000000)
unfolding ◌*ℤ◌
times_second k = ground arith

-- The seconds since 1900 and the fraction of an instant, put together again.
ntp_time_back :
    (n v : ℕ)
    → 59926608000000000000 ≤ n
    → v % 4294967296 ≡ n % 1000000000 * 4294967296 / 1000000000
    → ((ntp_time (pos (n / 1000000000 - 59926608000) -ℤ pos ntp_epoch_offset) v).ns ≤ℤ pos n)
      × (pos n
          ≤ℤ (ntp_time (pos (n / 1000000000 - 59926608000) -ℤ pos ntp_epoch_offset) v).ns +ℤ pos 1)
unfolding ntp_time
ntp_time_back n v l e =
    let seconds : pos (n / 1000000000 - 59926608000) -ℤ pos ntp_epoch_offset +ℤ pos zero_to_unix
        ≡ pos (n / 1000000000) =
      eq_of_parts _ _ (omega int_laws) in
    let (_, low, high) = nanos (n % 1000000000) (omega arith) in
    rw (e, seconds, times_second (n / 1000000000)) (omega int_laws, omega int_laws)

module _ {F : Type 0} (fl : FloatOps F) (round : F → F) (r : RoundsEras fl round) where
  abbrev IsBack : Time → Time → Type 0
  IsBack t pivot =
      ((from_ntp_near fl round (to_ntp t) pivot).ns ≤ℤ t.ns)
      × (t.ns ≤ℤ (from_ntp_near fl round (to_ntp t) pivot).ns +ℤ pos 1)

  nanosecond_off :
      (n m : ℕ) (u w : Bool)
      → 59926608000000000000 ≤ n
      → n ≤ 1135000000000000000000
      → n ≤ m + 2147483646000000000
      → m ≤ n + 2147483646000000000
      → IsBack (record { ns = pos n; utc = u }) (record { ns = pos m; utc = w })
  nanosecond_off n m u w l h g p =
      let t : Time = record { ns = pos n; utc = u } in
      let pivot : Time = record { ns = pos m; utc = w } in
      let (upper, lower) = ntp_halves n u l h in
      let (low, high) = unix_near n m u w g p l in
      rw
        (decoded fl round r (to_ntp t) (n / 1000000000 - 59926608000) pivot upper (omega arith) low
          high)
        (ntp_time_back n (to_ntp t) l lower)

  -- The timestamp of an instant of the years 1900 to 36000, decoded near a pivot at most
  -- 2 ^ 31 - 2 seconds away, is the instant or the nanosecond before, in whatever era of 2 ^ 32
  -- seconds it lies. The hypothesis on float64 is that the rounded quotient of an integer below
  -- 2 ^ 53 by 2 ^ 32 is the nearest integer.
  pub from_ntp_near-to_ntp :
      (t pivot : Time)
      → IsModern t
      → IsNear t pivot
      → ((from_ntp_near fl round (to_ntp t) pivot).ns ≤ℤ t.ns)
        × (t.ns ≤ℤ (from_ntp_near fl round (to_ntp t) pivot).ns +ℤ pos 1)
  from_ntp_near-to_ntp t pivot (l, h) (n, p) =
      let t_late : pos 0 ≤ℤ t.ns = omega int_laws in
      let pivot_late : pos 0 ≤ℤ pivot.ns = omega (int_laws, natural_part t.ns t_late) in
      let et = natural t t_late in
      let ep = natural pivot pivot_late in
      let t_at = natural_part t.ns t_late in
      let pivot_at = natural_part pivot.ns pivot_late in
      subst (λ (x : Time). IsBack x pivot) (sym et)
        (subst (IsBack (since t)) (sym ep) (
          nanosecond_off (pos_part t.ns) (pos_part pivot.ns) t.utc pivot.utc (omega int_laws)
            (omega int_laws) (omega int_laws) (omega int_laws)))
