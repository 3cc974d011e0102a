-- ===== src/Clock/Backoff.antt =====
-- internal/clock/backoff.go and internal/source/beaconapi/backoff.go: the ceilings of the two
-- exponential backoffs. A shift of an int64 wraps.
use whymiss.Prelude.{
  ℕ, zero, suc, ◌+◌, ◌*◌, ◌^◌, ◌≤◌, ◌<◌, ◌||◌, ◌≡◌, refl, ap, ◌∙◌, arith, ◌-◌, leb, Bool-cases, inl,
  inr, true, if◌then◌else◌,
}
use Prim.Native.Nat.{min}
use native.Mathlib.Nat.{add-zero, pow-le-pow_right, pow-suc, one-le-pow}
use whymiss.Prelude.Int.{wrap64_id, pos, wrap64, leb_ℤ, ltb_ℤ}
use whymiss.Prelude.Time.{Duration}

abbrev pub shift_left : ℕ → ℕ → Duration
shift_left base attempt = wrap64 (pos (base * 2 ^ attempt))

-- `d := base << attempt; if d <= 0 || d > cap { return cap }; return d`
abbrev pub ceiling : ℕ → ℕ → ℕ → Duration
ceiling base cap attempt =
    if leb_ℤ (shift_left base attempt) (pos 0) || ltb_ℤ (pos cap) (shift_left base attempt)
    then pos cap
    else shift_left base attempt

abbrev pub backoff_base : ℕ
backoff_base = 200000000

abbrev pub backoff_cap : ℕ
backoff_cap = 10000000000

unfoldable pub backoff_ceiling : ℕ → Duration
backoff_ceiling attempt = ceiling backoff_base backoff_cap attempt

abbrev pub reconnect_base : ℕ
reconnect_base = 1000000000

abbrev pub reconnect_cap : ℕ
reconnect_cap = 30000000000

unfoldable pub reconnect_ceiling : ℕ → Duration
reconnect_ceiling attempt = ceiling reconnect_base reconnect_cap attempt

-- Multiples of 2 ^ 43 wrap to multiples of 2 ^ 43, which no positive cap below 2 ^ 43 admits.
wrapped :
    (cap m : ℕ)
    → cap < 2 ^ 43
    → (leb_ℤ (wrap64 (pos (m * 2 ^ 43))) (pos 0) || ltb_ℤ (pos cap) (wrap64 (pos (m * 2 ^ 43))))
      ≡ true
unfolding wrap64
wrapped cap m h = ground arith

fits : (n : ℕ) → n < 2 ^ 63 → wrap64 (pos n) ≡ pos n
fits n h = wrap64_id (pos n) (ground arith)

product_lt : (base x : ℕ) → base ≤ 1000000000 → x ≤ 2 ^ 33 → base * x < 2 ^ 63
product_lt base x h g = grind arith

pow_add : (n j : ℕ) → 2 ^ (n + j) ≡ 2 ^ n * 2 ^ j
pow_add n zero = omega (arith, ap (λ (m : ℕ). 2 ^ m) (add-zero n))
pow_add n (suc j) =
    let e : 2 ^ (n + suc j) ≡ 2 ^ suc (n + j) = ap (λ (m : ℕ). 2 ^ m) (omega arith) in
    e ∙ pow-suc 2 (n + j) ∙ ap (λ (x : ℕ). x * 2) (pow_add n j) ∙ grind arith

split_pow : (base m k : ℕ) → base ≡ m * 512 → 34 ≤ k → base * 2 ^ k ≡ m * 2 ^ (k - 34) * 2 ^ 43
split_pow base m k e h =
    let p : 2 ^ k ≡ 2 ^ (34 + (k - 34)) = ap (λ (n : ℕ). 2 ^ n) (omega arith) in
    rw (e, p, pow_add 34 (k - 34)) (omega arith)

module _ (base m cap : ℕ) (whole : base ≡ m * 512) (some_base : 1 ≤ m) (small : base ≤ 1000000000)
    (low : cap < 2 ^ 43) where
  positive : (k : ℕ) → 1 ≤ base * 2 ^ k
  positive k = grind (arith, one-le-pow k 2 (omega arith))

  capped :
      (t : ℕ)
      → 1 ≤ t
      → (if leb_ℤ (pos t) (pos 0) || ltb_ℤ (pos cap) (pos t) then pos cap else pos t)
        ≡ pos (min t cap)
  capped t h = ground arith

  early : (k : ℕ) → k ≤ 33 → ceiling base cap k ≡ pos (min (base * 2 ^ k) cap)
  early k h =
      let small_pow : 2 ^ k ≤ 2 ^ 33 = pow-le-pow_right {n = 2} (omega arith) h in
      let w = fits (base * 2 ^ k) (product_lt base (2 ^ k) small small_pow) in
      rw w (capped (base * 2 ^ k) (positive k))

  late : (k : ℕ) → 34 ≤ k → ceiling base cap k ≡ pos (min (base * 2 ^ k) cap)
  late k h =
      let x = m * 2 ^ (k - 34) in
      let some_x : 1 ≤ x = grind (arith, one-le-pow (k - 34) 2 (omega arith)) in
      rw (split_pow base m k whole h, wrapped cap x low) (ap pos (omega (arith, some_x)))

  all : (k : ℕ) → ceiling base cap k ≡ pos (min (base * 2 ^ k) cap)
  all k = elim (Bool-cases (leb k 33)) [
    | inl e ↦ early k (ground arith)
    | inr e ↦ late k (ground arith)
  ]

-- For every attempt, the ceiling of each backoff is its base doubled as often as attempts were made,
-- or its cap where that is less: the overflow of the shift never shows.
pub ceilings_exact :
    (attempt : ℕ)
    → (backoff_ceiling attempt ≡ pos (min (backoff_base * 2 ^ attempt) backoff_cap))
      × (reconnect_ceiling attempt ≡ pos (min (reconnect_base * 2 ^ attempt) reconnect_cap))
unfolding backoff_ceiling reconnect_ceiling
ceilings_exact attempt = (
  all backoff_base 390625 backoff_cap refl (omega arith) (omega arith) (omega arith) attempt,
  all reconnect_base 1953125 reconnect_cap refl (omega arith) (omega arith) (omega arith) attempt,
)
