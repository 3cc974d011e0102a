-- ===== src/Domain/Observation.antt =====
-- internal/domain/observation.go: one timestamped fact. The attribute map is an association list
-- with one entry for a key, in the order in which `Validate` meets the entries.
pub mod WellFormed
use Prim.Native.Char.{Char, code}
use whymiss.Prelude.{
  ℕ, ◌==◌, Bool, true, false, ◌&&◌, ◌||◌, not, List, [], ◌∷◌, map, Option, none, some, String, ltb,
  if◌then◌else◌,
}
use whymiss.Prelude.Int.{ℤ, pos, eqb_ℤ}
use whymiss.Prelude.Text.{str_eq, byte_len}
use whymiss.Prelude.Time.{Time, Duration, is_zero, sub_time}
use whymiss.Prelude.Float.{FloatOps}
use whymiss.Domain.Errors.{
  Err, Result, ok, err, invalid_kind, invalid_attr, missing_timestamp, not_utc, invalid_clock,
  missing_source, invalid_source,
}
use whymiss.Domain.Slot.{SourceId, source_valid}
use whymiss.Domain.Kinds.{ObservationKind, kind_valid}
use whymiss.Domain.Attrs.{
  AttrKey, block_root, head_correct, target_correct, payload_present, attr_eq, permitted_for,
  source_permitted_for, validate_observation_attr,
}

abbrev pub Attrs : Type 0
Attrs = List (AttrKey × String)

pub record Observation : Type 0 where
  pub slot : ℕ
  pub kind : ObservationKind
  pub at : Time
  pub clock_offset : Duration
  pub clock_measured : Bool
  pub clock_sample_at : Time
  pub source : SourceId
  pub attrs : Attrs

unfoldable pub lookup_attr : AttrKey → Attrs → Option String
lookup_attr key [] = none
lookup_attr key ((k, v) ∷ rest) = if attr_eq k key then some v else lookup_attr key rest

abbrev pub attr : Observation → AttrKey → Option String
attr o key = lookup_attr key o.attrs

unfoldable pub offset : Observation → Time → Duration
offset o slot_start = sub_time o.at slot_start

abbrev pub max_observation_attr_value_bytes : ℕ
max_observation_attr_value_bytes = 256

-- The clock metadata that observations and samples share.
unfoldable pub clock_fault : Bool → Duration → Time → Option Err
clock_fault true offset sample_at =
    if is_zero sample_at
    then some invalid_clock
    else if not sample_at.utc
    then some invalid_clock
    else none
clock_fault false offset sample_at =
    if not (eqb_ℤ offset (pos 0)) || not (is_zero sample_at) then some invalid_clock else none

abbrev is_flag : AttrKey → Bool
is_flag key = attr_eq key head_correct || attr_eq key target_correct || attr_eq key payload_present

-- `strings.ToLower` on the digits that a validated block root has.
unfoldable pub lower_hex : Char → Char
lower_hex c =
    if code c == 65
    then "a"
    else if code c == 66
    then "b"
    else if code c == 67
    then "c"
    else if code c == 68
    then "d"
    else if code c == 69
    then "e"
    else if code c == 70
    then "f"
    else c

unfoldable pub to_lower : String → String
unfolding lower_hex
to_lower String.[] = String.[]
to_lower (String.◌∷◌ c s) = String.◌∷◌ (lower_hex c) (to_lower s)

unfoldable pub lower_root : Attrs → Attrs
lower_root [] = []
lower_root ((k, v) ∷ rest) = (k, if attr_eq k block_root then to_lower v else v) ∷ lower_root rest

module _ {F : Type 0} (fl : FloatOps F) where
  -- One round of the loop over the attributes.
  unfoldable pub attr_fault : ObservationKind → AttrKey × String → Option Err
  attr_fault kind (key, value) =
      if not (permitted_for key kind)
      then some invalid_attr
      else if str_eq value ""
      then some invalid_attr
      else if ltb max_observation_attr_value_bytes (byte_len value)
      then some invalid_attr
      else if is_flag key && (not (str_eq value "true") && not (str_eq value "false"))
      then some invalid_attr
      else if not (validate_observation_attr fl key value)
      then some invalid_attr
      else none

  unfoldable pub attrs_fault : ObservationKind → Attrs → Option Err
  attrs_fault kind [] = none
  attrs_fault kind (a ∷ rest) = elim (attr_fault kind a) [
    | some e ↦ some e
    | none ↦ attrs_fault kind rest
  ]

  unfoldable pub validate : Observation → Option Err
  validate o =
      if not (kind_valid o.kind)
      then some invalid_kind
      else if is_zero o.at
      then some missing_timestamp
      else if not o.at.utc
      then some not_utc
      else if not (source_valid o.source)
      then some missing_source
      else if not (source_permitted_for o.source o.kind)
      then some invalid_source
      else elim (clock_fault o.clock_measured o.clock_offset o.clock_sample_at) [
        | some e ↦ some e
        | none ↦ attrs_fault o.kind o.attrs
      ]

  unfoldable pub new_observation : Observation → Result Observation
  new_observation draft = elim (validate draft) [
    | some e ↦ err e
    | none ↦ ok (record draft { attrs = lower_root draft.attrs })
  ]
