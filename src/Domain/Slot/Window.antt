-- ===== src/Domain/Slot/Window.antt =====
-- The inclusion window of internal/domain/slot.go stays inside uint64 and int64.
use whymiss.Prelude.{◌⊎◌, ℕ, ◌+◌, ◌-◌, ◌*◌, ◌/◌, ◌≤◌, ◌<◌, ◌≡◌, ap, arith}
use whymiss.Prelude.Int.{IsInt64, pos, ◌*ℤ◌, wrap64, wrap64_id}
use whymiss.Prelude.Time.{Time, add_time}
use whymiss.Domain.Slot.{
  slots_per_epoch, max_uint64, epoch, last_attestation_inclusion_slot, window_slots,
  collection_window_end,
}

-- For every uint64 slot, the last inclusion slot lies at or after it, at most 63 slots later and in
-- uint64; below the two last epochs of uint64 it is the last slot of the epoch that follows the
-- slot's own.
pub last_inclusion_window :
    (s : ℕ)
    → s ≤ max_uint64
    → (s ≤ last_attestation_inclusion_slot s)
      × (last_attestation_inclusion_slot s ≤ max_uint64)
      × (last_attestation_inclusion_slot s ≤ s + 63)
      × ((max_uint64 / slots_per_epoch ≤ epoch s + 1)
          ⊎ (last_attestation_inclusion_slot s ≡ (epoch s + 1) * slots_per_epoch + 31))
unfolding last_attestation_inclusion_slot
last_inclusion_window s h = ground arith

pub window_slots-eq :
    (s : ℕ) → s ≤ max_uint64 → s + window_slots s ≡ last_attestation_inclusion_slot s
unfolding window_slots
window_slots-eq s h = ground arith

pub window_slots-le : (s : ℕ) → s ≤ max_uint64 → window_slots s ≤ 63
window_slots-le s h = omega (arith, window_slots-eq s h, last_inclusion_window s h)

product_IsInt64 : (n d : ℕ) → n ≤ 64 → d ≤ 60000000000 → n * d ≤ 9223372036854775807
product_IsInt64 n d h k = grind arith

pos-*ℤ-pos : (n d : ℕ) → pos n *ℤ pos d ≡ pos (n * d)
unfolding ◌*ℤ◌
pos-*ℤ-pos n d = ground arith

window_slots-sub : (s : ℕ) → s ≤ max_uint64 → window_slots s ≡ last_attestation_inclusion_slot s - s
window_slots-sub s h = omega (arith, window_slots-eq s h)

in_range : (s d : ℕ) → s ≤ max_uint64 → d ≤ 60000000000 → IsInt64 (pos ((window_slots s + 1) * d))
in_range s d h k =
    omega (arith, product_IsInt64 (window_slots s + 1) d (omega (arith, window_slots-le s h)) k)

-- For a uint64 slot and a slot duration that is positive and at most the supported minute, the end
-- of the collection window is the slot's start plus one slot duration for each slot from it to the
-- last inclusion slot, both counted: no product overflows int64.
pub collection_window_end_exact :
    (s : ℕ) (t : Time) (d : ℕ)
    → s ≤ max_uint64
    → 0 < d
    → d ≤ 60000000000
    → collection_window_end s t (pos d)
      ≡ add_time t (pos ((last_attestation_inclusion_slot s - s + 1) * d))
unfolding collection_window_end
collection_window_end_exact s t d h p k =
    let e : wrap64 (pos (window_slots s + 1) *ℤ pos d)
        ≡ pos ((last_attestation_inclusion_slot s - s + 1) * d) =
      rw (pos-*ℤ-pos (window_slots s + 1) d) (
        rw (wrap64_id (pos ((window_slots s + 1) * d)) (in_range s d h k))
          (ap (λ (n : ℕ). pos ((n + 1) * d)) (window_slots-sub s h))) in
    ground (arith, window_slots-le s h, e)
