-- ===== src/Domain/Schedule/Rules.antt =====
-- What internal/domain/schedule.go accepts, against a statement of the timing model.
use whymiss.Prelude.{◌≡◌, ◌↔◌, ◌⊎◌, none, arith}
use whymiss.Prelude.Int.{pos, ◌≤ℤ◌, ◌<ℤ◌}
use whymiss.Domain.Schedule.{SlotSchedule, validate, max_supported_slot_duration}

-- The payload half: no payload deadline and no committee deadline, or a payload deadline after the
-- attestation deadline and inside the slot with a committee deadline, if any, after it in the slot.
abbrev pub PayloadOrder : SlotSchedule → Type 0
PayloadOrder s =
    ((s.payload_reveal_deadline ≡ pos 0) × (s.ptc_deadline ≡ pos 0))
    ⊎ ((s.attestation_deadline <ℤ s.payload_reveal_deadline)
        × (s.payload_reveal_deadline ≤ℤ s.seconds_per_slot)
        × ((s.ptc_deadline ≡ pos 0)
            ⊎ ((s.payload_reveal_deadline <ℤ s.ptc_deadline)
                × (s.ptc_deadline ≤ℤ s.seconds_per_slot))))

pub record IsOrdered (s : SlotSchedule) : Type 0 where
  pub attestation_pos : pos 0 <ℤ s.attestation_deadline
  pub attestation_le : s.attestation_deadline ≤ℤ s.aggregation_deadline
  pub aggregation_le : s.aggregation_deadline ≤ℤ s.seconds_per_slot
  pub slot_le : s.seconds_per_slot ≤ℤ max_supported_slot_duration
  pub payload : PayloadOrder s

pub validate-IsOrdered : (s : SlotSchedule) → validate s ≡ none → IsOrdered s
unfolding validate
validate-IsOrdered s h = ground arith

IsOrdered-validate : (s : SlotSchedule) → IsOrdered s → validate s ≡ none
unfolding validate
IsOrdered-validate s h = ground arith

-- `Validate` returns nil exactly when the deadlines are positive, in order, inside a slot of at
-- most a minute, and the payload deadlines are absent or in order after the attestation deadline.
schedule_validate-none_iff : (s : SlotSchedule) → (validate s ≡ none) ↔ IsOrdered s
schedule_validate-none_iff s = (validate-IsOrdered s, IsOrdered-validate s)
