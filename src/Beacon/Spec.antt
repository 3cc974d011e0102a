-- ===== src/Beacon/Spec.antt =====
-- internal/source/beaconapi/spec.go: the slot schedule that a node's own specification states. The
-- response is decoded by `encoding/json`: a value is a text, or something that is not one.
pub mod Numbers
pub mod Deadlines
use whymiss.Prelude.{
  ℕ, ◌*◌, ◌/◌, ◌==◌, Bool, true, false, ◌&&◌, ◌||◌, not, List, [], ◌∷◌, Option, none, some, String,
  ltb, leb, if◌then◌else◌,
}
use whymiss.Prelude.Int.{ℤ, pos, ◌*ℤ◌}
use whymiss.Prelude.Text.{str_eq, byte_len, parse_uint}
use whymiss.Prelude.Time.{Duration, round_duration, second, millisecond}
use whymiss.Domain.Errors.{Result, ok, err, invalid}
use whymiss.Domain.Schedule.{SlotSchedule}
use whymiss.Domain.Schedule

pub data SpecValue : Type 0 where
  text : String → SpecValue
  no_text : SpecValue

abbrev pub Spec : Type 0
Spec = List (String × SpecValue)

abbrev pub spec_get : Spec → String → Option SpecValue
spec_get [] key = none
spec_get ((k, v) ∷ rest) key = if str_eq k key then some v else spec_get rest key

unfoldable pub spec_uint : Spec → String → Option ℕ
spec_uint spec key = elim (spec_get spec key) [
  | none ↦ none
  | some no_text ↦ none
  | some (text raw) ↦ if str_eq raw "" || ltb 20 (byte_len raw) then none else parse_uint 64 raw
]

-- 2 ^ 64 - 1
abbrev pub fork_unscheduled : ℕ
fork_unscheduled = 18446744073709551615

abbrev pub basis_points : ℕ
basis_points = 10000

abbrev pub max_supported_slot_seconds : ℕ
max_supported_slot_seconds = 60

-- A slot is at most 60 s and `bps` at most 10000 here, so that the product is an int64.
unfoldable pub deadline_from_bps : ℕ → ℕ → Duration
deadline_from_bps slot bps =
    if ltb basis_points bps
    then pos slot
    else round_duration millisecond (pos (slot * bps / basis_points))

abbrev pub or_default : Option ℕ → ℕ → ℕ
or_default none d = d
or_default (some n) d = n

-- `haveGloas && gloasEpoch != forkUnscheduled && headEpoch >= gloasEpoch`
abbrev pub gloas_reached : Option ℕ → ℕ → Bool
gloas_reached none head_epoch = false
gloas_reached (some epoch) head_epoch = not (epoch == fork_unscheduled) && leb epoch head_epoch

unfoldable pub post_epbs : Spec → ℕ → Bool
unfolding spec_uint
post_epbs spec head_epoch = gloas_reached (spec_uint spec "GLOAS_FORK_EPOCH") head_epoch

abbrev pub validated : SlotSchedule → Result (Option SlotSchedule)
validated s = elim (Schedule.validate s) [ some e ↦ err invalid | none ↦ ok (some s) ]

-- The schedule of a slot of `slot` nanoseconds.
unfoldable pub schedule_of : Spec → Bool → ℕ → ℕ → ℕ → Result (Option SlotSchedule)
unfolding spec_uint deadline_from_bps
schedule_of spec false slot attestation aggregate = validated (record {
  seconds_per_slot = pos slot;
  attestation_deadline = deadline_from_bps slot attestation;
  aggregation_deadline = deadline_from_bps slot aggregate;
  payload_reveal_deadline = pos 0;
  ptc_deadline = pos 0;
})
schedule_of spec true slot attestation aggregate = elim (spec_uint spec "PAYLOAD_DUE_BPS") [
  | none ↦ ok none
  | some payload ↦ elim (spec_uint spec "PAYLOAD_ATTESTATION_DUE_BPS") [
    | none ↦ ok none
    | some ptc ↦ validated (record {
      seconds_per_slot = pos slot;
      attestation_deadline =
          deadline_from_bps slot
            (or_default (spec_uint spec "ATTESTATION_DUE_BPS_GLOAS") attestation);
      aggregation_deadline = deadline_from_bps slot aggregate;
      payload_reveal_deadline = deadline_from_bps slot payload;
      ptc_deadline = deadline_from_bps slot ptc;
    })
  ]
]

abbrev unusable_slot : ℕ → Bool
unusable_slot seconds = seconds == 0 || ltb max_supported_slot_seconds seconds

-- What the request returned: an error, no document, or the members of its data.
pub data Response : Type 0 where
  request_failed not_found : Response
  found : Spec → Response

-- `FetchSchedule`; `ok none` is a node that does not publish enough.
unfoldable pub fetch_schedule : Response → ℕ → Result (Option SlotSchedule)
unfolding spec_uint post_epbs schedule_of
fetch_schedule request_failed head_epoch = err invalid
fetch_schedule not_found head_epoch = ok none
fetch_schedule (found []) head_epoch = ok none
fetch_schedule (found (e ∷ rest)) head_epoch = elim (spec_uint (e ∷ rest) "SECONDS_PER_SLOT") [
  | none ↦ ok none
  | some seconds ↦
      if unusable_slot seconds
      then ok none
      else (elim (spec_uint (e ∷ rest) "ATTESTATION_DUE_BPS") [
        | none ↦ ok none
        | some attestation ↦ elim (spec_uint (e ∷ rest) "AGGREGATE_DUE_BPS") [
          | none ↦ ok none
          | some aggregate ↦
              schedule_of (e ∷ rest) (post_epbs (e ∷ rest) head_epoch) (seconds * second)
                attestation aggregate
        ]
      ])
]
