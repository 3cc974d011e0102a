-- ===== src/Prelude/Float.antt =====
-- float64 as a parameter of the model: the operations that the program uses, and the facts of
-- IEEE 754 and of `strconv` that a theorem relies on, as named hypotheses.
use Prim.Native.Nat.{ℕ}
use Prim.Native.String.{String}
use mathlib.Core.Path.{◌≡◌}
use mathlib.Core.Bool.{Bool, true, false, ◌||◌}
use mathlib.Core.Option.{Option}
use whymiss.Prelude.Int.{ℤ, pos, quot, rem}

pub record FloatOps (F : Type 0) : Type 0 where
  pub of_int : ℤ → F
  -- Conversion to an int64, truncated.
  pub to_int : F → ℤ
  pub add : F → F → F
  pub mul : F → F → F
  pub div : F → F → F
  pub lt : F → F → Bool
  pub eq : F → F → Bool
  pub is_nan : F → Bool
  pub is_inf : F → Bool
  -- `strconv.ParseFloat`; `none` is an error.
  pub parse : String → Option F
  -- The literal m / 10 ^ k.
  pub lit : ℤ → ℕ → F

module _ {F : Type 0} (fl : FloatOps F) where
  abbrev pub le_f : F → F → Bool
  le_f a b = fl.lt a b || fl.eq a b

  abbrev pub not_finite : F → Bool
  not_finite a = fl.is_nan a || fl.is_inf a

  -- `time.Duration.Seconds`, and the source's `d.Seconds() * 1000`.
  unfoldable pub seconds : ℤ → F
  seconds d =
      fl.add (fl.of_int (quot d 1000000000))
        (fl.div (fl.of_int (rem d 1000000000)) (fl.lit (pos 1000000000) 0))

  unfoldable pub millis : ℤ → F
  unfolding seconds
  millis d = fl.mul (seconds d) (fl.lit (pos 1000) 0)

  -- float64(math.MaxInt64) / float64(time.Millisecond)
  unfoldable pub max_millis : F
  max_millis = fl.div (fl.of_int (pos 9223372036854775807)) (fl.of_int (pos 1000000))

-- `<` on float64; a comparison with NaN is false.
pub record FloatOrder {F : Type 0} (fl : FloatOps F) : Type 0 where
  pub lt_trans : (a b c : F) → fl.lt a b ≡ true → fl.lt b c ≡ true → fl.lt a c ≡ true
  pub lt_irrefl : (a : F) → fl.lt a a ≡ false
