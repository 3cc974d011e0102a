-- ===== src/Tests/Values.antt =====
-- Concrete numbers for the examples: float64 replaced by thousandths.
use whymiss.Prelude.{ℕ, suc, ◌^◌, false, Option, none, some, arith}
use whymiss.Prelude.Int.{ℤ, pos, negsuc, quot, ◌+ℤ◌, ◌-ℤ◌, ◌*ℤ◌, ltb_ℤ, eqb_ℤ}
use whymiss.Prelude.Text.{parse_uint}
use whymiss.Prelude.Float.{FloatOps, FloatOrder}

abbrev over : ℤ → ℤ → ℤ
over a (pos n) = quot a n
over a (negsuc n) = pos 0 -ℤ quot a (suc n)

abbrev whole : Option ℕ → Option ℤ
whole none = none
whole (some n) = some (pos n *ℤ pos 1000)

abbrev pub milli : FloatOps ℤ
milli = record {
  of_int = λ n. n *ℤ pos 1000;
  to_int = λ a. quot a 1000;
  add = λ a b. a +ℤ b;
  mul = λ a b. quot (a *ℤ b) 1000;
  div = λ a b. over (a *ℤ pos 1000) b;
  lt = ltb_ℤ;
  eq = eqb_ℤ;
  is_nan = λ a. false;
  is_inf = λ a. false;
  parse = λ s. whole (parse_uint 64 s);
  lit = λ m k. quot (m *ℤ pos 1000) (10 ^ k);
}

pub milli-FloatOrder : FloatOrder milli
milli-FloatOrder = record { lt_trans = λ a b c h k. ground arith; lt_irrefl = λ a. ground arith }
