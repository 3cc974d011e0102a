-- ===== src/Prelude/Permuted.antt =====
-- What does not depend on the order of a list: the elements that pass a test, whether one does, and
-- how many do.
use Prim.Native.Nat.{ℕ, suc, ◌≤◌}
use mathlib.Core.Path.{◌≡◌, refl, ap, sym, ◌∙◌}
use mathlib.Core.Bool.{Bool, true, false, ◌||◌, Bool-set, Bool-discrete}
use mathlib.Core.Option.{Option, none}
use mathlib.Core.List.{List, [], ◌∷◌, Perm, filter, foldr}
use mathlib.Core.List.Perm
use mathlib.Core.Logic.{inl, inr, if_pos, if_neg}
use native.Mathlib.Nat.{ℕ_set}
use native.Mathlib.Omega.{arith}
use whymiss.Prelude.Lists.{keep, any, count_of, All}
use whymiss.Prelude.Tests.{is_some, Bool-cases, true_ne_false, if◌then◌else◌}

module _ {A : Type 0} (p : A → Bool) where
  passes : (a : A) → Dec (p a ≡ true)
  passes a = Bool-discrete (p a) true

  not_pass : (a : A) → p a ≡ false → ¬ (p a ≡ true)
  not_pass a e q = true_ne_false (sym q ∙ e)

  keep-filter : (l : List A) → keep p l ≡ filter passes l
  keep-filter [] = refl
  keep-filter (x ∷ xs) = elim (Bool-cases (p x)) [
    | inl e ↦ simp (if_pos, e, keep-filter xs)
    | inr e ↦ simp (if_neg, e, not_pass x e, keep-filter xs)
  ]

  pub keep-perm : {l m : List A} → Perm l m → Perm (keep p l) (keep p m)
  keep-perm {l} {m} q = rw (keep-filter l, keep-filter m) (Perm.filter passes q)

  or_test : A → Bool → Bool
  or_test a b = p a || b

  foldr-any : (l : List A) → foldr or_test false l ≡ any p l
  unfolding or_test
  foldr-any [] = refl
  foldr-any (x ∷ xs) = ap (◌||◌ (p x)) (foldr-any xs)

  or_test_comm : (a b : A) (c : Bool) → or_test a (or_test b c) ≡ or_test b (or_test a c)
  unfolding or_test
  or_test_comm a b c = ground arith

  pub any-eq : {l m : List A} → Perm l m → any p l ≡ any p m
  any-eq {l} {m} q =
      sym (foldr-any l) ∙ Perm.foldr-eq Bool-set or_test or_test_comm q false ∙ foldr-any m

  count_test : A → ℕ → ℕ
  count_test a n = if p a then suc n else n

  foldr-count_of : (l : List A) → foldr count_test 0 l ≡ count_of p l
  unfolding count_test
  foldr-count_of [] = refl
  foldr-count_of (x ∷ xs) = ground (arith, foldr-count_of xs)

  count_test_comm :
      (a b : A) (n : ℕ) → count_test a (count_test b n) ≡ count_test b (count_test a n)
  unfolding count_test
  count_test_comm a b n = ground arith

  pub count_of-eq : {l m : List A} → Perm l m → count_of p l ≡ count_of p m
  count_of-eq {l} {m} q =
      sym (foldr-count_of l) ∙ Perm.foldr-eq ℕ_set count_test count_test_comm q 0 ∙ foldr-count_of m

  -- At most one element passes where the number is what `any` says.
  pub count_of-any : (l : List A) → count_of p l ≤ 1 → count_of p l ≡ (if any p l then 1 else 0)
  count_of-any [] h = refl
  count_of-any (x ∷ xs) h = ground (arith, count_of-any xs)

-- A function that fails on no element of a list fails on none of it in another order.
module _ {A E : Type 0} (f : A → Option E) where
  abbrev fails : A → Bool
  fails a = is_some (f a)

  any-All : (l : List A) → any fails l ≡ false → All (λ (a : A). f a ≡ none) l
  any-All [] h = tt
  any-All (x ∷ xs) h = (ground arith, any-All xs (ground arith))

  All-any : (l : List A) → All (λ (a : A). f a ≡ none) l → any fails l ≡ false
  All-any [] h = refl
  All-any (x ∷ xs) (h, hs) = ground (arith, All-any xs hs)

  pub All-perm :
      {l m : List A} → Perm l m → All (λ (a : A). f a ≡ none) l → All (λ (a : A). f a ≡ none) m
  All-perm {l} {m} q h = any-All m (sym (any-eq fails q) ∙ All-any l h)
