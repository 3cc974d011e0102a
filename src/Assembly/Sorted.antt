-- ===== src/Assembly/Sorted.antt =====
-- internal/timeline/assembler.go: `sortObservations` puts the observations in the order of time.
use whymiss.Prelude.{◌≡◌, true, false, List, [], ◌∷◌, arith, All, All-map, Bool-cases, inl, inr}
use whymiss.Prelude.Int.{ℤ, ◌≤ℤ◌}
use whymiss.Prelude.Sorting.{insert_by, sort_by}
use whymiss.Domain.Observation.{Observation}
use whymiss.Domain.Timeline.Loops.{IsSorted}
use whymiss.Assembly.Compare.{observation_less, sort_observations}

less-le : (x y : Observation) → observation_less x y ≡ true → x.at.ns ≤ℤ y.at.ns
unfolding observation_less
less-le x y h = ground arith

not_less-le : (x y : Observation) → observation_less x y ≡ false → y.at.ns ≤ℤ x.at.ns
unfolding observation_less
not_less-le x y h = ground arith

abbrev FromOn : ℤ → List Observation → Type 0
FromOn t = All (λ (p : Observation). t ≤ℤ p.at.ns)

FromOn-le : (a b : ℤ) (os : List Observation) → a ≤ℤ b → FromOn b os → FromOn a os
FromOn-le a b os h k = All-map (λ o l. omega arith) os k

insert_by-FromOn :
    (t : ℤ) (x : Observation) (os : List Observation)
    → t ≤ℤ x.at.ns
    → FromOn t os
    → FromOn t (insert_by observation_less x os)
insert_by-FromOn t x [] h k = (h, tt)
insert_by-FromOn t x (o ∷ os) h (k, ks) = elim (Bool-cases (observation_less o x)) [
  | inl e ↦ rw e (k, insert_by-FromOn t x os h ks)
  | inr e ↦ rw e (h, (k, ks))
]

insert_by-IsSorted :
    (x : Observation) (os : List Observation)
    → IsSorted os
    → IsSorted (insert_by observation_less x os)
insert_by-IsSorted x [] s = (tt, tt)
insert_by-IsSorted x (o ∷ os) (k, s) = elim (Bool-cases (observation_less o x)) [
  | inl e ↦ rw e (insert_by-FromOn o.at.ns x os (less-le o x e) k, insert_by-IsSorted x os s)
  | inr e ↦
      let b : x.at.ns ≤ℤ o.at.ns = not_less-le o x e in
      rw e ((b, FromOn-le x.at.ns o.at.ns os b k), (k, s))
]

pub sort_observations-IsSorted : (os : List Observation) → IsSorted (sort_observations os)
unfolding sort_observations
sort_observations-IsSorted [] = tt
sort_observations-IsSorted (o ∷ os) =
    insert_by-IsSorted o (sort_by observation_less os) (sort_observations-IsSorted os)
