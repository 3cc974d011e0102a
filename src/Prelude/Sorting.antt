-- ===== src/Prelude/Sorting.antt =====
-- `sort.SliceStable` and `slices.SortFunc`: stable insertion, whose result is the only stable one.
-- Sorting by a key that is totally ordered does not depend on the order of the input.
use mathlib.Core.Path.{◌≡◌, refl, sym, ap, ◌∙◌, subst}
use mathlib.Core.Logic.{inl, inr}
use mathlib.Core.Bool.{Bool, true, false}
use mathlib.Core.List.{List, [], ◌∷◌, ◌++◌, map, foldr, Perm}
use mathlib.Core.List.Perm
use mathlib.Core.List
use mathlib.Core.HLevel.{hedberg}
use native.Mathlib.Omega.{arith}
use whymiss.Prelude.Tests.{if◌then◌else◌, Bool-cases, true_ne_false}
use whymiss.Prelude.Order.{StrictOrder}

module _ {A : Type 0} (less : A → A → Bool) where
  -- Before the first element that is not less.
  abbrev pub insert_by : A → List A → List A
  insert_by x [] = x ∷ []
  insert_by x (y ∷ ys) = let rest = insert_by x ys in if less y x then y ∷ rest else x ∷ y ∷ ys

  abbrev pub sort_by : List A → List A
  sort_by [] = []
  sort_by (x ∷ xs) = insert_by x (sort_by xs)

  insert_by-perm : (x : A) (l : List A) → Perm (insert_by x l) (x ∷ l)
  insert_by-perm x [] = Perm.rfl
  insert_by-perm x (y ∷ ys) = elim (Bool-cases (less y x)) [
    | inl e ↦ rw e (Perm.trans (Perm.cons y (insert_by-perm x ys)) (Perm.swap x y ys))
    | inr e ↦ rw e Perm.rfl
  ]

  pub sort_by-perm : (l : List A) → Perm (sort_by l) l
  sort_by-perm [] = Perm.rfl
  sort_by-perm (x ∷ xs) = Perm.trans (insert_by-perm x (sort_by xs)) (Perm.cons x (sort_by-perm xs))

-- Sorting by a key sorts the keys.
module _ {A K : Type 0} (key : A → K) (lt : K → K → Bool) where
  abbrev pub by_key : A → A → Bool
  by_key a b = lt (key a) (key b)

  map-insert_by :
      (x : A) (l : List A) → map key (insert_by by_key x l) ≡ insert_by lt (key x) (map key l)
  map-insert_by x [] = refl
  map-insert_by x (y ∷ ys) = ground (arith, map-insert_by x ys)

  pub map-sort_by : (l : List A) → map key (sort_by by_key l) ≡ sort_by lt (map key l)
  map-sort_by [] = refl
  map-sort_by (x ∷ xs) =
      map-insert_by x (sort_by by_key xs) ∙ ap (insert_by lt (key x)) (map-sort_by xs)

module _ {K : Type 0} (o : StrictOrder K) where
  asym : (a b : K) → o.lt a b ≡ true → o.lt b a ≡ false
  asym a b h = ground (arith, o.trans a b a, o.irrefl a)

  -- What is not above a smaller element is smaller too.
  lt_of_not_lt : (x y z : K) → o.lt z y ≡ false → o.lt z x ≡ true → o.lt y x ≡ true
  lt_of_not_lt x y z h g = elim (Bool-cases (o.lt y z)) [
    | inl e ↦ o.trans y z x e g
    | inr e ↦ subst (λ (w : K). o.lt w x ≡ true) (o.connected z y h e) g
  ]

  insert_by_swap :
      (x y : K) (l : List K)
      → o.lt x y ≡ true
      → insert_by o.lt x (insert_by o.lt y l) ≡ insert_by o.lt y (insert_by o.lt x l)
  insert_by_swap x y [] h = ground (arith, asym x y)
  insert_by_swap x y (z ∷ zs) h = ground (arith, asym x y, insert_by_swap x y zs, o.trans z x y)

  insert_by_comm :
      (x y : K) (l : List K)
      → insert_by o.lt x (insert_by o.lt y l) ≡ insert_by o.lt y (insert_by o.lt x l)
  insert_by_comm x y l = elim (Bool-cases (o.lt x y)) [
    | inl e ↦ insert_by_swap x y l e
    | inr e ↦ elim (Bool-cases (o.lt y x)) [
      | inl d ↦ sym (insert_by_swap y x l d)
      | inr d ↦ rw (o.connected x y e d) refl
    ]
  ]

  foldr-sort_by : (l : List K) → foldr (insert_by o.lt) [] l ≡ sort_by o.lt l
  foldr-sort_by [] = refl
  foldr-sort_by (x ∷ xs) = ap (insert_by o.lt x) (foldr-sort_by xs)

  keys_discrete : Discrete K
  keys_discrete a b = elim (Bool-cases (o.eq a b)) [
    | inl e ↦ yes (o.eq_sound a b e)
    | inr e ↦ no λ q. true_ne_false (sym (o.eq_self a) ∙ ap (o.eq a) q ∙ e)
  ]

  keys_set : IsSet K
  keys_set = hedberg keys_discrete

  -- The order of the input does not matter.
  pub sort_by-eq : {l m : List K} → Perm l m → sort_by o.lt l ≡ sort_by o.lt m
  sort_by-eq {l} {m} p =
      sym (foldr-sort_by l)
      ∙ Perm.foldr-eq (List.is_set keys_set) (insert_by o.lt) insert_by_comm p []
      ∙ foldr-sort_by m

-- Two orders of the same elements, sorted by a key that is totally ordered, have the same keys.
pub map-sort_by-eq :
    {A K : Type 0} (o : StrictOrder K) (key : A → K) (l m : List A)
    → Perm l m
    → map key (sort_by (by_key key o.lt) l) ≡ map key (sort_by (by_key key o.lt) m)
map-sort_by-eq o key l m p =
    map-sort_by key o.lt l ∙ sort_by-eq o (Perm.map key p) ∙ sym (map-sort_by key o.lt m)
