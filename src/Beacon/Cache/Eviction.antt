-- ===== src/Beacon/Cache/Eviction.antt =====
-- internal/source/beaconapi/heads.go, canonical_roots.go and attestation_bits.go: what the loops that
-- trim the caches end with.
use whymiss.Prelude.{
  ℕ, zero, suc, ◌≤◌, ◌<◌, ◌==◌, ==_iff, Bool, true, false, ◌&&◌, not, List, [], ◌∷◌, Option, none,
  some, length, ltb, ◌≡◌, ◌≢◌, ◌⊎◌, refl, ap, subst, ◌∙◌, arith, All, Bool-cases, Option-cases, inl,
  inr, keep, any,
}
use whymiss.Beacon.Cache.{
  oldest_complete, delete, trim_rounds, trim_head_polls, trim_canonical_root_cache,
  trim_committee_cache, max_head_poll_entries, max_canonical_root_cache,
  max_committee_cache_entries,
}

module _ {V : Type 0} (complete : V → Bool) where
  abbrev pub HasKey : ℕ → ℕ × V → Type 0
  HasKey k e = e.0 ≢ k

  -- One entry for a slot.
  abbrev pub IsMap : List (ℕ × V) → Type 0
  IsMap [] = Unit
  IsMap ((k, _) ∷ rest) = All (HasKey k) rest × IsMap rest

  abbrev pub is_complete : ℕ × V → Bool
  is_complete e = complete e.1

  abbrev pub pending : ℕ × V → Bool
  pending e = not (complete e.1)

  delete_other : (s : ℕ) (m : List (ℕ × V)) → All (HasKey s) m → delete complete s m ≡ m
  delete_other s [] h = refl
  delete_other s ((k, e) ∷ m) (h, hs) = ground (arith, delete_other s m hs)

  delete-All :
      (P : ℕ × V → Type 0) (s : ℕ) (m : List (ℕ × V)) → All P m → All P (delete complete s m)
  delete-All P s [] h = tt
  delete-All P s ((k, e) ∷ m) (h, hs) = elim (Bool-cases (k == s)) [
    | inl q ↦ rw q (delete-All P s m hs)
    | inr q ↦ rw q (h, delete-All P s m hs)
  ]

  delete-IsMap : (s : ℕ) (m : List (ℕ × V)) → IsMap m → IsMap (delete complete s m)
  delete-IsMap s [] h = tt
  delete-IsMap s ((k, e) ∷ m) (h, hs) = elim (Bool-cases (k == s)) [
    | inl q ↦ rw q (delete-IsMap s m hs)
    | inr q ↦ rw q (delete-All (HasKey k) s m h, delete-IsMap s m hs)
  ]

  abbrev at : ℕ → ℕ × V → Bool
  at s e = e.0 == s && complete e.1

  any_other : (s : ℕ) (m : List (ℕ × V)) → All (HasKey s) m → any (at s) m ≡ false
  any_other s [] h = refl
  any_other s ((k, e) ∷ m) (h, hs) = ground (arith, any_other s m hs)

  -- Dropping a complete entry shortens the map and leaves the pending ones.
  delete-found :
      (s : ℕ) (m : List (ℕ × V))
      → IsMap m
      → any (at s) m ≡ true
      → (suc (length (delete complete s m)) ≡ length m)
        × (keep pending (delete complete s m) ≡ keep pending m)
  delete-found s [] h f = absurd (ground arith)
  delete-found s ((k, e) ∷ m) (h, hs) f = elim (Bool-cases (k == s)) [
    | inl q ↦
        let others = subst (λ (j : ℕ). All (HasKey j) m) ((==_iff k s).0 q) h in
        let here : complete e ≡ true = ground (arith, any_other s m others) in
        rw (q, delete_other s m others, here) (refl, refl)
    | inr q ↦
        let later : any (at s) m ≡ true = ground arith in
        let (shorter, kept) = delete-found s m hs later in rw (q, kept) (ap suc shorter, refl)
  ]

  -- What the search finds, from the slot found so far.
  abbrev Outcome : Option ℕ → List (ℕ × V) → Option ℕ → Type 0
  Outcome none m none = any is_complete m ≡ false
  Outcome none m (some s) = any (at s) m ≡ true
  Outcome (some a) m none = ⊥
  Outcome (some a) m (some s) = (s ≡ a) ⊎ (any (at s) m ≡ true)

  Outcome-first :
      (k : ℕ) (e : V) (m : List (ℕ × V)) (r : Option ℕ)
      → complete e ≡ true
      → Outcome (some k) m r
      → Outcome none ((k, e) ∷ m) r
  Outcome-first k e m none c h = absurd h
  Outcome-first k e m (some s) c (inl q) = ground arith
  Outcome-first k e m (some s) c (inr q) = ground arith

  Outcome-newer :
      (a k : ℕ) (e : V) (m : List (ℕ × V)) (r : Option ℕ)
      → complete e ≡ true
      → Outcome (some k) m r
      → Outcome (some a) ((k, e) ∷ m) r
  Outcome-newer a k e m none c h = absurd h
  Outcome-newer a k e m (some s) c (inl q) = inr (ground arith)
  Outcome-newer a k e m (some s) c (inr q) = inr (ground arith)

  Outcome-skip :
      (a : Option ℕ) (k : ℕ) (e : V) (m : List (ℕ × V)) (r : Option ℕ)
      → (complete e ≡ false) ⊎ (a ≢ none)
      → Outcome a m r
      → Outcome a ((k, e) ∷ m) r
  Outcome-skip none k e m none (inl c) h = ground arith
  Outcome-skip none k e m none (inr c) h = absurd (c refl)
  Outcome-skip none k e m (some s) c h = ground arith
  Outcome-skip (some a) k e m none c h = absurd h
  Outcome-skip (some a) k e m (some s) c (inl q) = inl q
  Outcome-skip (some a) k e m (some s) c (inr q) = inr (ground arith)

  oldest-Outcome : (a : Option ℕ) (m : List (ℕ × V)) → Outcome a m (oldest_complete complete a m)
  oldest-Outcome none [] = refl
  oldest-Outcome (some a) [] = inl refl
  oldest-Outcome none ((k, e) ∷ m) = elim (Bool-cases (complete e)) [
    | inl c ↦ rw c (Outcome-first k e m _ c (oldest-Outcome (some k) m))
    | inr c ↦ rw c (Outcome-skip none k e m _ (inl c) (oldest-Outcome none m))
  ]
  oldest-Outcome (some a) ((k, e) ∷ m) = elim (Bool-cases (complete e && ltb k a)) [
    | inl c ↦ rw c (Outcome-newer a k e m _ (ground arith) (oldest-Outcome (some k) m))
    | inr c ↦ rw c (Outcome-skip (some a) k e m _ (inr (λ q. cc)) (oldest-Outcome (some a) m))
  ]

  -- The loop ended, by its condition or since no entry is complete; and no pending entry was dropped.
  abbrev pub Trimmed : ℕ → List (ℕ × V) → Option (List (ℕ × V)) → Type 0
  Trimmed limit before result =
      (after : List (ℕ × V)) × (result ≡ some after)
      × ((length after ≤ limit) ⊎ (any is_complete after ≡ false))
      × (keep pending after ≡ keep pending before)

  trim_rounds-Trimmed :
      (fuel limit : ℕ) (m : List (ℕ × V))
      → IsMap m
      → length m < fuel
      → Trimmed limit m (trim_rounds complete fuel limit m)
  unfolding trim_rounds
  trim_rounds-Trimmed zero limit m h g = absurd (omega arith)
  trim_rounds-Trimmed (suc fuel) limit m h g = elim (Bool-cases (ltb limit (length m))) [
    | inr q ↦ rw (q, trim_rounds) (m, refl, inl (ground arith), refl)
    | inl q ↦ elim (Option-cases (oldest_complete complete none m)) [
      | inl e ↦
          rw (q, e, trim_rounds)
            (m, refl, inr (subst (Outcome none m) e (oldest-Outcome none m)), refl)
      | inr (s, e) ↦
          let (shorter, kept) =
            delete-found s m h (subst (Outcome none m) e (oldest-Outcome none m)) in
          let (after, ended, ends, rest) =
            trim_rounds-Trimmed fuel limit (delete complete s m) (delete-IsMap s m h)
              (omega (arith, shorter)) in
          rw (q, e, trim_rounds) (after, ended, ends, rest ∙ kept)
    ]
  ]

  -- On a cache with one entry for a slot, the loops that trim the caches of head polls, canonical
  -- roots and committees end within one round more than there are entries: with at most 8, 16 and 64
  -- entries or with no completed entry left; and no entry that is still being fetched is dropped.
  pub trims-end :
      (fuel : ℕ) (m : List (ℕ × V))
      → IsMap m
      → length m < fuel
      → Trimmed 8 m (trim_head_polls complete fuel m)
        × Trimmed 16 m (trim_canonical_root_cache complete fuel m)
        × Trimmed 64 m (trim_committee_cache complete fuel m)
  unfolding trim_head_polls trim_canonical_root_cache trim_committee_cache
  trims-end fuel m h g = (
    trim_rounds-Trimmed fuel max_head_poll_entries m h g,
    trim_rounds-Trimmed fuel max_canonical_root_cache m h g,
    trim_rounds-Trimmed fuel max_committee_cache_entries m h g,
  )
