-- ===== src/Prelude/Order.antt =====
-- Strict total orders given by Boolean tests, as the comparison functions of sorts read them: on
-- numbers, flags and texts, and the lexicographic order of a chain of comparisons.
use Prim.Native.Nat.{ℕ}
use mathlib.Core.Path.{◌≡◌, refl, sym, ap, ap₂, ◌∙◌, subst}
use mathlib.Core.Logic.{◌⊎◌, inl, inr}
use mathlib.Core.Bool.{Bool, true, false, ◌&&◌, not}
use mathlib.Core.List.{List, [], ◌∷◌}
use native.Mathlib.Omega.{arith}
use whymiss.Prelude.Tests.{Bool-cases, true_ne_false, ltb, ◌==◌, ==_iff, if◌then◌else◌}
use whymiss.Prelude.Int.{ℤ, ltb_ℤ, eqb_ℤ, eq_of_parts}

pub record StrictOrder (K : Type 0) : Type 0 where
  pub lt : K → K → Bool
  pub eq : K → K → Bool
  pub eq_sound : (a b : K) → eq a b ≡ true → a ≡ b
  pub eq_self : (a : K) → eq a a ≡ true
  pub irrefl : (a : K) → lt a a ≡ false
  pub trans : (a b c : K) → lt a b ≡ true → lt b c ≡ true → lt a c ≡ true
  pub connected : (a b : K) → lt a b ≡ false → lt b a ≡ false → a ≡ b

-- `if a.K != b.K { return a.K < b.K }`, and then the rest of the chain.
abbrev pub chain : Bool → Bool → Bool → Bool
chain same less rest = if not same then less else rest

-- Texts by their characters; Go compares UTF-8 bytes, which order the texts in the same way.
abbrev pub codes_lt : List ℕ → List ℕ → Bool
codes_lt [] [] = false
codes_lt [] (y ∷ ys) = true
codes_lt (x ∷ xs) [] = false
codes_lt (x ∷ xs) (y ∷ ys) = let rest = codes_lt xs ys in if x == y then rest else ltb x y

abbrev pub codes_eq : List ℕ → List ℕ → Bool
codes_eq [] [] = true
codes_eq [] (y ∷ ys) = false
codes_eq (x ∷ xs) [] = false
codes_eq (x ∷ xs) (y ∷ ys) = x == y && codes_eq xs ys

-- false < true
abbrev pub flag_lt : Bool → Bool → Bool
flag_lt a b = not a && b

abbrev pub flag_eq : Bool → Bool → Bool
flag_eq true b = b
flag_eq false b = not b

pub codes_eq_sound : (a b : List ℕ) → codes_eq a b ≡ true → a ≡ b
codes_eq_sound [] [] h = refl
codes_eq_sound [] (y ∷ ys) h = cc
codes_eq_sound (x ∷ xs) [] h = cc
codes_eq_sound (x ∷ xs) (y ∷ ys) h =
    ap₂ ◌∷◌ ((==_iff x y).0 (ground arith)) (codes_eq_sound xs ys (ground arith))

pub codes_eq_self : (a : List ℕ) → codes_eq a a ≡ true
codes_eq_self [] = refl
codes_eq_self (x ∷ xs) = ground (arith, codes_eq_self xs)

pub codes_lt_irrefl : (a : List ℕ) → codes_lt a a ≡ false
codes_lt_irrefl [] = refl
codes_lt_irrefl (x ∷ xs) = ground (arith, codes_lt_irrefl xs)

pub codes_lt_trans :
    (a b c : List ℕ) → codes_lt a b ≡ true → codes_lt b c ≡ true → codes_lt a c ≡ true
codes_lt_trans [] [] c h k = cc
codes_lt_trans [] (y ∷ ys) [] h k = cc
codes_lt_trans [] (y ∷ ys) (z ∷ zs) h k = refl
codes_lt_trans (x ∷ xs) [] c h k = cc
codes_lt_trans (x ∷ xs) (y ∷ ys) [] h k = cc
codes_lt_trans (x ∷ xs) (y ∷ ys) (z ∷ zs) h k = ground (arith, codes_lt_trans xs ys zs)

pub codes_lt_connected : (a b : List ℕ) → codes_lt a b ≡ false → codes_lt b a ≡ false → a ≡ b
codes_lt_connected [] [] h k = refl
codes_lt_connected [] (y ∷ ys) h k = cc
codes_lt_connected (x ∷ xs) [] h k = cc
codes_lt_connected (x ∷ xs) (y ∷ ys) h k =
    ap₂ ◌∷◌ (ground arith) (codes_lt_connected xs ys (ground arith) (ground arith))

abbrev pub text_order : StrictOrder (List ℕ)
text_order = record {
  lt = codes_lt;
  eq = codes_eq;
  eq_sound = codes_eq_sound;
  eq_self = codes_eq_self;
  irrefl = codes_lt_irrefl;
  trans = codes_lt_trans;
  connected = codes_lt_connected;
}

pub ltb_ℤ_irrefl : (a : ℤ) → ltb_ℤ a a ≡ false
ltb_ℤ_irrefl a = ground arith

pub ltb_ℤ_trans : (a b c : ℤ) → ltb_ℤ a b ≡ true → ltb_ℤ b c ≡ true → ltb_ℤ a c ≡ true
ltb_ℤ_trans a b c h k = ground arith

pub ltb_ℤ_connected : (a b : ℤ) → ltb_ℤ a b ≡ false → ltb_ℤ b a ≡ false → a ≡ b
ltb_ℤ_connected a b h k = ground (arith, eq_of_parts a b)

pub eqb_ℤ_sound : (a b : ℤ) → eqb_ℤ a b ≡ true → a ≡ b
eqb_ℤ_sound a b h = ground (arith, eq_of_parts a b)

pub eqb_ℤ_self : (a : ℤ) → eqb_ℤ a a ≡ true
eqb_ℤ_self a = ground arith

abbrev pub int_order : StrictOrder ℤ
int_order = record {
  lt = ltb_ℤ;
  eq = eqb_ℤ;
  eq_sound = eqb_ℤ_sound;
  eq_self = eqb_ℤ_self;
  irrefl = ltb_ℤ_irrefl;
  trans = ltb_ℤ_trans;
  connected = ltb_ℤ_connected;
}

pub flag_lt_trans : (a b c : Bool) → flag_lt a b ≡ true → flag_lt b c ≡ true → flag_lt a c ≡ true
flag_lt_trans a b c h k = ground arith

pub flag_lt_connected : (a b : Bool) → flag_lt a b ≡ false → flag_lt b a ≡ false → a ≡ b
flag_lt_connected a b h k = ground arith

pub flag_eq_sound : (a b : Bool) → flag_eq a b ≡ true → a ≡ b
flag_eq_sound a b h = ground arith

pub flag_eq_self : (a : Bool) → flag_eq a a ≡ true
flag_eq_self a = ground arith

pub flag_lt_irrefl : (a : Bool) → flag_lt a a ≡ false
flag_lt_irrefl a = ground arith

abbrev pub flag_order : StrictOrder Bool
flag_order = record {
  lt = flag_lt;
  eq = flag_eq;
  eq_sound = flag_eq_sound;
  eq_self = flag_eq_self;
  irrefl = flag_lt_irrefl;
  trans = flag_lt_trans;
  connected = flag_lt_connected;
}

module _ {K L : Type 0} (k : StrictOrder K) (l : StrictOrder L) where
  abbrev lex_lt : K × L → K × L → Bool
  lex_lt (a, b) (c, d) = chain (k.eq a c) (k.lt a c) (l.lt b d)

  abbrev lex_eq : K × L → K × L → Bool
  lex_eq (a, b) (c, d) = k.eq a c && l.eq b d

  pub lex_eq_sound : (p q : K × L) → lex_eq p q ≡ true → p ≡ q
  lex_eq_sound p q h =
      ap₂ (λ (a : K) (b : L). (a, b)) (k.eq_sound p.0 q.0 (ground arith))
        (l.eq_sound p.1 q.1 (ground arith))

  eq_of_lt : (a b : K) → k.lt a b ≡ true → k.eq a b ≡ false
  eq_of_lt a b h = elim (Bool-cases (k.eq a b)) [
    | inl e ↦
        absurd (true_ne_false (sym h ∙ ap (λ (x : K). k.lt x b) (k.eq_sound a b e) ∙ k.irrefl b))
    | inr e ↦ e
  ]

  -- The first part decides, or it is the same and the second decides.
  lex_lt-cases :
      (p q : K × L)
      → lex_lt p q ≡ true
      → (k.lt p.0 q.0 ≡ true) ⊎ ((p.0 ≡ q.0) × (l.lt p.1 q.1 ≡ true))
  lex_lt-cases p q h = elim (Bool-cases (k.eq p.0 q.0)) [
    | inl e ↦ inr (k.eq_sound p.0 q.0 e, ground arith)
    | inr e ↦ inl (ground arith)
  ]

  lex_lt-first : (p q : K × L) → k.lt p.0 q.0 ≡ true → lex_lt p q ≡ true
  lex_lt-first p q h = ground (arith, eq_of_lt p.0 q.0 h)

  lex_lt-second : (p q : K × L) → p.0 ≡ q.0 → l.lt p.1 q.1 ≡ true → lex_lt p q ≡ true
  lex_lt-second p q e h = rw (e, k.eq_self q.0) h

  pub lex_trans : (p q r : K × L) → lex_lt p q ≡ true → lex_lt q r ≡ true → lex_lt p r ≡ true
  lex_trans p q r h g = elim (lex_lt-cases p q h) [
    | inl a ↦ elim (lex_lt-cases q r g) [
      | inl b ↦ lex_lt-first p r (k.trans p.0 q.0 r.0 a b)
      | inr (e, b) ↦ lex_lt-first p r (subst (λ (x : K). k.lt p.0 x ≡ true) e a)
    ]
    | inr (d, a) ↦ elim (lex_lt-cases q r g) [
      | inl b ↦ lex_lt-first p r (subst (λ (x : K). k.lt x r.0 ≡ true) (sym d) b)
      | inr (e, b) ↦ lex_lt-second p r (d ∙ e) (l.trans p.1 q.1 r.1 a b)
    ]
  ]

  not_first : (p q : K × L) → lex_lt p q ≡ false → k.lt p.0 q.0 ≡ false
  not_first p q h = ground (arith, lex_lt-first p q)

  not_second : (p q : K × L) → p.0 ≡ q.0 → lex_lt p q ≡ false → l.lt p.1 q.1 ≡ false
  not_second p q e h = ground (arith, lex_lt-second p q e)

  pub lex_connected : (p q : K × L) → lex_lt p q ≡ false → lex_lt q p ≡ false → p ≡ q
  lex_connected p q h g =
      let e : p.0 ≡ q.0 = k.connected p.0 q.0 (not_first p q h) (not_first q p g) in
      ap₂ (λ (a : K) (b : L). (a, b)) e
        (l.connected p.1 q.1 (not_second p q e h) (not_second q p (sym e) g))

  pub lex_eq_self : (p : K × L) → lex_eq p p ≡ true
  lex_eq_self p = ground (arith, k.eq_self p.0, l.eq_self p.1)

  pub lex_irrefl : (p : K × L) → lex_lt p p ≡ false
  lex_irrefl p = ground (arith, k.eq_self p.0, l.irrefl p.1)

  abbrev pub lex : StrictOrder (K × L)
  lex = record {
    lt = lex_lt;
    eq = lex_eq;
    eq_sound = lex_eq_sound;
    eq_self = lex_eq_self;
    irrefl = lex_irrefl;
    trans = lex_trans;
    connected = lex_connected;
  }
