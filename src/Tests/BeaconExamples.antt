-- ===== src/Tests/BeaconExamples.antt =====
-- The theorems on internal/source/beaconapi at concrete values.
use whymiss.Prelude.{
  ℕ, ◌*◌, ◌≤◌, ◌==◌, ◌&&◌, not, All, Bool, true, false, List, [], ◌∷◌, Option, none, some, String,
  ◌≡◌, ◌≢◌, refl, arith,
}
use whymiss.Prelude.Int.{pos_part}
use whymiss.Prelude.Text.{codes, is_hex_pairs}
use whymiss.Prelude.Time.{second}
use whymiss.Domain.Errors.{ok}
use whymiss.Domain.Schedule.{mainnet_pre_epbs}
use whymiss.Beacon.Cache.{trim_head_polls, trim_canonical_root_cache, trim_committee_cache}
use whymiss.Beacon.Cache.Eviction.{HasKey, IsMap, Trimmed, trims-end}
use whymiss.Beacon.Spec.{Spec, text, no_text, fetch_schedule, found, deadline_from_bps}
use whymiss.Beacon.Spec.Deadlines.{
  IsDerived, IsNearest, fetch_schedule-IsDerived, deadline_from_bps-IsNearest,
}
use whymiss.Beacon.Bitlist.{bit_set, bitvector_indices}
use whymiss.Beacon.Committees.{offset_before}
use whymiss.Beacon.Committees.Offsets.{sum_below, offset_before-IsSum}

-- A cache with an entry that is still being fetched; an entry is whether it is complete.
abbrev cache : List (ℕ × Bool)
cache =
    (5, true)
    ∷ (3, false)
    ∷ (9, true)
    ∷ (4, true)
    ∷ (7, true)
    ∷ (8, true)
    ∷ (10, true)
    ∷ (11, true)
    ∷ (12, true)
    ∷ (13, true)
    ∷ []

abbrev fetched : Bool → Bool
fetched b = b

trim-cache :
    trim_head_polls fetched 11 cache
    ≡ some (
        (3, false)
        ∷ (9, true)
        ∷ (7, true)
        ∷ (8, true)
        ∷ (10, true)
        ∷ (11, true)
        ∷ (12, true)
        ∷ (13, true)
        ∷ [])
unfolding trim_head_polls
trim-cache = refl

-- Distinct slots, by computation.
abbrev is_fresh : ℕ → List (ℕ × Bool) → Bool
is_fresh k [] = true
is_fresh k ((j, _) ∷ rest) = not (j == k) && is_fresh k rest

abbrev is_map : List (ℕ × Bool) → Bool
is_map [] = true
is_map ((k, _) ∷ rest) = is_fresh k rest && is_map rest

fresh-HasKey : (k : ℕ) (m : List (ℕ × Bool)) → is_fresh k m ≡ true → All (HasKey fetched k) m
fresh-HasKey k [] h = tt
fresh-HasKey k ((j, b) ∷ m) h = (λ q. ground arith, fresh-HasKey k m (ground arith))

distinct-IsMap : (m : List (ℕ × Bool)) → is_map m ≡ true → IsMap fetched m
distinct-IsMap [] h = tt
distinct-IsMap ((k, b) ∷ m) h = (fresh-HasKey k m (ground arith), distinct-IsMap m (ground arith))

cache-IsMap : IsMap fetched cache
cache-IsMap = distinct-IsMap cache refl

trims-end_example :
    Trimmed fetched 8 cache (trim_head_polls fetched 11 cache)
    × Trimmed fetched 16 cache (trim_canonical_root_cache fetched 11 cache)
    × Trimmed fetched 64 cache (trim_committee_cache fetched 11 cache)
trims-end_example = trims-end fetched 11 cache cache-IsMap (omega arith)

-- A node before Gloas, which publishes the payload deadline all the same.
abbrev spec : Spec
spec =
    ("SECONDS_PER_SLOT", text "12")
    ∷ ("ATTESTATION_DUE_BPS", text "3333")
    ∷ ("AGGREGATE_DUE_BPS", text "6667")
    ∷ ("PAYLOAD_DUE_BPS", text "7500")
    ∷ ("GLOAS_FORK_EPOCH", text "18446744073709551615")
    ∷ ("BLOB_SCHEDULE", no_text)
    ∷ []

fetch_schedule-spec : fetch_schedule (found spec) 1000 ≡ ok (some mainnet_pre_epbs)
unfolding fetch_schedule whymiss.Prelude.Text.parse_uint whymiss.Domain.Schedule.validate
    whymiss.Prelude.Time.round_duration
fetch_schedule-spec = refl

fetch_schedule-IsDerived_example : IsDerived spec 1000 mainnet_pre_epbs
fetch_schedule-IsDerived_example =
    fetch_schedule-IsDerived spec 1000 mainnet_pre_epbs fetch_schedule-spec

deadline_from_bps-IsNearest_example :
    IsNearest (12 * second * 3333) (deadline_from_bps (12 * second) 3333)
    × (pos_part (deadline_from_bps (12 * second) 3333) ≤ 12 * second)
deadline_from_bps-IsNearest_example =
    deadline_from_bps-IsNearest 12 3333 (omega arith) (omega arith)

-- Committees 0, 1 and 3 in one aggregation.
abbrev committee_bits : List ℕ
committee_bits = codes "0x0b00000000000000"

abbrev sizes : List (ℕ × ℕ)
sizes = (0, 128) ∷ (1, 127) ∷ (2, 128) ∷ (3, 126) ∷ []

indices-committee_bits : bitvector_indices committee_bits 64 ≡ some (0 ∷ 1 ∷ 3 ∷ [])
unfolding bitvector_indices is_hex_pairs
indices-committee_bits = refl

offset_before-IsSum_example :
    offset_before sizes 2 0 (0 ∷ 1 ∷ 3 ∷ []) ≡ some (sum_below sizes 3 (0 ∷ 1 ∷ 3 ∷ []))
offset_before-IsSum_example =
    offset_before-IsSum committee_bits (0 ∷ 1 ∷ 3 ∷ []) sizes 3 2 indices-committee_bits refl (
      (128, refl, omega arith, omega arith),
      ((127, refl, omega arith, omega arith), ((126, refl, omega arith, omega arith), tt)),
    )

-- A byte that is no hexadecimal text is read up to its first digit.
lenient_byte : bit_set (codes "0x1g03") 0 ≡ some true
unfolding bit_set
lenient_byte = refl
