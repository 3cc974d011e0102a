-- ===== src/Assembly/Store.antt =====
-- internal/timeline/assembler.go: what the maps of an assembler hold, as one list of observations.
use whymiss.Prelude.{
  ℕ, ◌==◌, ==_iff, Bool, ◌&&◌, not, List, [], ◌∷◌, ◌++◌, ◌≡◌, ◌≢◌, refl, ap, sym, subst, ◌∙◌, arith,
  All, Bool-cases, inl, inr, keep, keep-append, if◌then◌else◌,
}
use whymiss.Domain.Kinds.{reorg}
use whymiss.Domain.Observation.{Observation}
use whymiss.Domain.Timeline.{is_kind}
use whymiss.Assembly.{bucket, file, later_reorgs, outside_window}
use mathlib.Core.List.{Perm, perm_middle, append_assoc, append-nil}
use mathlib.Core.List.Perm

abbrev pub stored : List (ℕ × List Observation) → List Observation
stored [] = []
stored ((k, os) ∷ rest) = os ++ stored rest

abbrev pub AllIn : ℕ → List Observation → Type 0
AllIn k = All (λ (o : Observation). o.slot ≡ k)

-- Every observation is filed under its slot, and a slot has one entry.
abbrev pub IsFiled : List (ℕ × List Observation) → Type 0
IsFiled [] = Unit
IsFiled ((k, os) ∷ rest) =
    AllIn k os × All (λ (e : ℕ × List Observation). e.0 ≢ k) rest × IsFiled rest

AllIn-append : (k : ℕ) (os ps : List Observation) → AllIn k os → AllIn k ps → AllIn k (os ++ ps)
AllIn-append k [] ps h g = g
AllIn-append k (o ∷ os) ps (h, hs) g = (h, AllIn-append k os ps hs g)

file_keys :
    (o : Observation) (k : ℕ) (es : List (ℕ × List Observation))
    → o.slot ≢ k
    → All (λ (e : ℕ × List Observation). e.0 ≢ k) es
    → All (λ (e : ℕ × List Observation). e.0 ≢ k) (file o es)
file_keys o k [] n h = (n, tt)
file_keys o k ((j, os) ∷ rest) n (h, hs) = elim (Bool-cases (j == o.slot)) [
  | inl e ↦ rw e (h, hs)
  | inr e ↦ rw e (h, file_keys o k rest n hs)
]

pub file-IsFiled :
    (o : Observation) (es : List (ℕ × List Observation)) → IsFiled es → IsFiled (file o es)
file-IsFiled o [] h = ((refl, tt), tt, tt)
file-IsFiled o ((k, os) ∷ rest) (h, d, hs) = elim (Bool-cases (k == o.slot)) [
  | inl e ↦ rw e (AllIn-append k os (o ∷ []) h (sym ((==_iff k o.slot).0 e), tt), d, hs)
  | inr e ↦ rw e (h, file_keys o k rest (λ q. ground arith) d, file-IsFiled o rest hs)
]

-- Filing adds the observation, wherever it stands.
pub stored-file :
    (o : Observation) (es : List (ℕ × List Observation)) → Perm (stored (file o es)) (o ∷ stored es)
stored-file o [] = Perm.rfl
stored-file o ((k, os) ∷ rest) = elim (Bool-cases (k == o.slot)) [
  | inl e ↦ rw (e, append_assoc) (perm_middle os (stored rest))
  | inr e ↦
      rw e (Perm.trans (Perm.append_left os (stored-file o rest)) (perm_middle os (stored rest)))
]

abbrev pub of_slot : ℕ → Observation → Bool
of_slot slot o = o.slot == slot

keep_all : (k : ℕ) (os : List Observation) → AllIn k os → keep (of_slot k) os ≡ os
keep_all k [] h = refl
keep_all k (o ∷ os) (h, hs) = rw ((==_iff o.slot k).1 h) (ap (◌∷◌ o) (keep_all k os hs))

keep_none : (j k : ℕ) (os : List Observation) → j ≢ k → AllIn j os → keep (of_slot k) os ≡ []
keep_none j k [] n h = refl
keep_none j k (o ∷ os) n (h, hs) = ground (arith, keep_none j k os n hs)

keep_other :
    (k : ℕ) (es : List (ℕ × List Observation))
    → IsFiled es
    → All (λ (e : ℕ × List Observation). e.0 ≢ k) es
    → keep (of_slot k) (stored es) ≡ []
keep_other k [] h d = refl
keep_other k ((j, os) ∷ rest) (h, _, hs) (n, d) =
    keep-append (of_slot k) os (stored rest)
    ∙ ap (λ (l : List Observation). l ++ keep (of_slot k) (stored rest)) (keep_none j k os n h)
    ∙ keep_other k rest hs d

-- The entry of a slot is what the store holds for the slot.
pub bucket-eq :
    (slot : ℕ) (es : List (ℕ × List Observation))
    → IsFiled es
    → bucket slot es ≡ keep (of_slot slot) (stored es)
bucket-eq slot [] h = refl
bucket-eq slot ((k, os) ∷ rest) (h, d, hs) = elim (Bool-cases (k == slot)) [
  | inl e ↦
      let q : k ≡ slot = (==_iff k slot).0 e in
      rw (e, keep-append)
        (sym (
          rw
            (
              keep_all slot os (subst (λ (j : ℕ). AllIn j os) q h),
              keep_other slot rest hs
                  (subst (λ (j : ℕ). All (λ (e : ℕ × List Observation). e.0 ≢ j) rest) q d),
            )
            (append-nil os)))
  | inr e ↦
      let n : k ≢ slot = λ q. ground arith in
      rw (e, keep-append, keep_none k slot os n h) (bucket-eq slot rest hs)
]

abbrev pub later_reorg : ℕ → Observation → Bool
later_reorg slot o = not (outside_window slot o.slot) && is_kind reorg o

keep_reorgs :
    (slot k : ℕ) (os : List Observation)
    → AllIn k os
    → (if outside_window slot k then [] else keep (is_kind reorg) os) ≡ keep (later_reorg slot) os
keep_reorgs slot k [] h = ground arith
keep_reorgs slot k (o ∷ os) (h, hs) = ground (arith, keep_reorgs slot k os hs)

pub later_reorgs-eq :
    (slot : ℕ) (es : List (ℕ × List Observation))
    → IsFiled es
    → later_reorgs slot es ≡ keep (later_reorg slot) (stored es)
later_reorgs-eq slot [] h = refl
later_reorgs-eq slot ((k, os) ∷ rest) (h, d, hs) =
    rw (keep_reorgs slot k os h, later_reorgs-eq slot rest hs)
      (sym (keep-append (later_reorg slot) os (stored rest)))
