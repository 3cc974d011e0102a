-- ===== src/Beacon/Cache.antt =====
-- internal/source/beaconapi/heads.go, canonical_roots.go and attestation_bits.go: the three caches
-- that hold one entry for a slot, and drop their oldest completed entries beyond a limit. A map is an
-- association list with one entry for a key.
pub mod Eviction
use whymiss.Prelude.{
  ℕ, zero, suc, ◌==◌, Bool, true, false, ◌&&◌, ◌||◌, not, List, [], ◌∷◌, Option, none, some, length,
  ltb, leb, if◌then◌else◌,
}

abbrev pub max_head_poll_entries : ℕ
max_head_poll_entries = 8

abbrev pub max_canonical_root_cache : ℕ
max_canonical_root_cache = 16

abbrev pub max_committee_cache_entries : ℕ
max_committee_cache_entries = 64

module _ {V : Type 0} (complete : V → Bool) where
  abbrev pub is_older : ℕ → Option ℕ → Bool
  is_older slot none = true
  is_older slot (some oldest) = ltb slot oldest

  -- The loop over the entries.
  abbrev pub oldest_complete : Option ℕ → List (ℕ × V) → Option ℕ
  oldest_complete oldest [] = oldest
  oldest_complete oldest ((slot, entry) ∷ rest) =
      oldest_complete (if complete entry && is_older slot oldest then some slot else oldest) rest

  abbrev pub delete : ℕ → List (ℕ × V) → List (ℕ × V)
  delete slot [] = []
  delete slot ((k, entry) ∷ rest) =
      let others = delete slot rest in if k == slot then others else (k, entry) ∷ others

  -- `for len(cache) > limit { … }`, by rounds: `none` is a loop that has not ended after `fuel` of
  -- them. The last round is the test that fails or the return.
  unfoldable pub trim_rounds : ℕ → ℕ → List (ℕ × V) → Option (List (ℕ × V))
  trim_rounds zero limit cache = none
  trim_rounds (suc fuel) limit cache = elim (ltb limit (length cache)) [
    | false ↦ some cache
    | true ↦ elim (oldest_complete none cache) [
      | none ↦ some cache
      | some oldest ↦ trim_rounds fuel limit (delete oldest cache)
    ]
  ]

  unfoldable pub trim_head_polls : ℕ → List (ℕ × V) → Option (List (ℕ × V))
  unfolding trim_rounds
  trim_head_polls fuel cache = trim_rounds fuel max_head_poll_entries cache

  unfoldable pub trim_canonical_root_cache : ℕ → List (ℕ × V) → Option (List (ℕ × V))
  unfolding trim_rounds
  trim_canonical_root_cache fuel cache = trim_rounds fuel max_canonical_root_cache cache

  unfoldable pub trim_committee_cache : ℕ → List (ℕ × V) → Option (List (ℕ × V))
  unfolding trim_rounds
  trim_committee_cache fuel cache = trim_rounds fuel max_committee_cache_entries cache
