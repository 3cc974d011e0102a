-- ===== src/Beacon/Roots.antt =====
-- internal/source/beaconapi/canonical_roots.go and payload.go: canonical roots by looking back, the
-- evidence for an attestation's rewards, and the majority of the payload votes. What the node answers
-- for a slot is a function of the slot.
use Prim.Native.Nat.{◌-◌}
use whymiss.Prelude.{
  ℕ, zero, suc, ◌*◌, ◌==◌, Bool, true, false, ◌&&◌, not, List, [], ◌∷◌, Option, none, some, String,
  ltb, if◌then◌else◌,
}
use whymiss.Prelude.Text.{byte_len, str_eq, has_prefix, codes, drop_two, is_hex_pairs, parse_uint}
use whymiss.Domain.Slot.{epoch, first_slot}
use whymiss.Beacon.Committees.{ApiAttestation}

-- The header of a slot: a failed request, no block, or its root.
pub data HeaderAnswer : Type 0 where
  header_failed no_block : HeaderAnswer
  header_root : String → HeaderAnswer

abbrev pub max_canonical_root_lookback : ℕ
max_canonical_root_lookback = 64

unfoldable pub valid_beacon_root : String → Bool
valid_beacon_root root =
    has_prefix root "0x" && byte_len root == 66 && is_hex_pairs (drop_two (codes root))

-- The loop with `left` slots to look at, at a lookback not beyond the slot; `none` is an error.
abbrev pub look_back : (ℕ → HeaderAnswer) → ℕ → ℕ → ℕ → Option String
look_back header zero lookback slot = none
look_back header (suc left) lookback slot = elim (ltb slot lookback) [
  | true ↦ none
  | false ↦ elim (header (slot - lookback)) [
    | header_failed ↦ none
    | no_block ↦ look_back header left (suc lookback) slot
    | header_root root ↦ if valid_beacon_root root then some root else none
  ]
]

unfoldable pub fetch_canonical_root_at_slot : (ℕ → HeaderAnswer) → ℕ → Option String
unfolding valid_beacon_root
fetch_canonical_root_at_slot header slot = look_back header (suc max_canonical_root_lookback) 0 slot

-- The two flags: whether the head and the target are the canonical ones.
abbrev pub compare_roots : ApiAttestation → Option String → Option String → Option (Bool × Bool)
compare_roots att none target = none
compare_roots att (some head) none = none
compare_roots att (some head) (some target) =
    some (str_eq att.beacon_block_root head, str_eq att.target_root target)

unfoldable pub attestation_reward_evidence :
    (ℕ → Option String) → ℕ → ApiAttestation → Option (Bool × Bool)
unfolding valid_beacon_root
attestation_reward_evidence canonical duty_slot att =
    if not (valid_beacon_root att.beacon_block_root)
    then none
    else if not (valid_beacon_root att.target_root)
    then none
    else elim (parse_uint 64 att.target_epoch) [
      | none ↦ none
      | some target ↦
          if not (target == epoch duty_slot)
          then none
          else compare_roots att (canonical duty_slot) (canonical (first_slot target))
    ]

-- payload.go: one vote of the committee.
pub record PayloadVote : Type 0 where
  pub vote_slot : String
  pub vote_present : Bool

abbrev pub votes_on : ℕ → PayloadVote → Bool
votes_on slot v = elim (parse_uint 64 v.vote_slot) [ none ↦ false | some s ↦ s == slot ]

-- The votes on the slot, and those of them that say that the payload was present.
abbrev pub counted : ℕ → List PayloadVote → ℕ × ℕ
counted slot [] = (0, 0)
counted slot (v ∷ rest) =
    let (n, p) = counted slot rest in
    if votes_on slot v then (suc n, if v.vote_present then suc p else p) else (n, p)

-- `payload_present` and `ptc_votes`, where there is a vote on the slot.
unfoldable pub payload_majority : ℕ → List PayloadVote → Option (Bool × ℕ)
payload_majority slot votes =
    let (n, p) = counted slot votes in if n == 0 then none else some (ltb n (p * 2), n)
