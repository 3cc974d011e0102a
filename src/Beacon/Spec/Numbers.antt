-- ===== src/Beacon/Spec/Numbers.antt =====
-- internal/source/beaconapi/spec.go: the numbers of the document, and what they say of Gloas.
use whymiss.Prelude.{
  ℕ, ◌≤◌, true, false, ◌||◌, Option, none, some, String, ◌≡◌, ◌≢◌, refl, ap, sym, ◌∙◌, arith,
  Bool-cases, Option-cases, inl, inr, ltb, if◌then◌else◌, none_ne_some, true_ne_false,
}
use whymiss.Prelude.Text.{str_eq, str_eq_iff, byte_len, parse_uint}
use whymiss.Beacon.Spec.{
  Spec, SpecValue, text, no_text, spec_get, spec_uint, gloas_reached, post_epbs,
}

-- The document has the number under the key: a uint64 as a decimal text of at most 20 bytes.
abbrev pub Publishes : Spec → String → ℕ → Type 0
Publishes spec key n =
    (raw : String) × (spec_get spec key ≡ some (text raw))
    × (raw ≢ "")
    × (byte_len raw ≤ 20)
    × (parse_uint 64 raw ≡ some n)

-- The document schedules the Gloas fork, and the head has reached its epoch.
abbrev pub IsGloas : Spec → ℕ → Type 0
IsGloas spec head_epoch =
    (epoch : ℕ) × Publishes spec "GLOAS_FORK_EPOCH" epoch
    × (epoch ≢ 18446744073709551615)
    × (epoch ≤ head_epoch)

abbrev number : Option SpecValue → Option ℕ
number none = none
number (some no_text) = none
number (some (text raw)) =
    if str_eq raw "" || ltb 20 (byte_len raw) then none else parse_uint 64 raw

number_of : (spec : Spec) (key : String) → spec_uint spec key ≡ number (spec_get spec key)
unfolding spec_uint
number_of spec key = by_value (spec_get spec key)
  where
    by_value :
        (v : Option SpecValue)
        → (elim v [
          | none ↦ none
          | some no_text ↦ none
          | some (text raw) ↦
              if str_eq raw "" || ltb 20 (byte_len raw) then none else parse_uint 64 raw
        ])
          ≡ number v
    by_value none = refl
    by_value (some no_text) = refl
    by_value (some (text raw)) = refl

number-published :
    (v : Option SpecValue) (n : ℕ)
    → number v ≡ some n
    → (raw : String) × (v ≡ some (text raw))
      × (raw ≢ "")
      × (byte_len raw ≤ 20)
      × (parse_uint 64 raw ≡ some n)
number-published none n h = absurd (none_ne_some h)
number-published (some no_text) n h = absurd (none_ne_some h)
number-published (some (text raw)) n h = elim (Bool-cases (str_eq raw "")) [
  | inl e ↦ absurd (none_ne_some (rw e at h))
  | inr e ↦ elim (Bool-cases (ltb 20 (byte_len raw))) [
    | inl l ↦ absurd (none_ne_some (rw (e, l) at h))
    | inr l ↦ (
      raw,
      refl,
      (λ q. true_ne_false (sym ((str_eq_iff raw "").1 q) ∙ e)),
      ground arith,
      rw (e, l) at h,
    )
  ]
]

published-number :
    (v : Option SpecValue) (raw : String) (n : ℕ)
    → v ≡ some (text raw)
    → raw ≢ ""
    → byte_len raw ≤ 20
    → parse_uint 64 raw ≡ some n
    → number v ≡ some n
published-number v raw n q some_raw short p = elim (Bool-cases (str_eq raw "")) [
  | inl e ↦ absurd (some_raw ((str_eq_iff raw "").0 e))
  | inr e ↦ let l : ltb 20 (byte_len raw) ≡ false = ground arith in ap number q ∙ rw (e, l) p
]

pub spec_uint-published :
    (spec : Spec) (key : String) (n : ℕ) → spec_uint spec key ≡ some n → Publishes spec key n
spec_uint-published spec key n h =
    number-published (spec_get spec key) n (sym (number_of spec key) ∙ h)

pub published-spec_uint :
    (spec : Spec) (key : String) (n : ℕ) → Publishes spec key n → spec_uint spec key ≡ some n
published-spec_uint spec key n (raw, q, some_raw, short, p) =
    number_of spec key ∙ published-number (spec_get spec key) raw n q some_raw short p

-- The test for Gloas.
pub post_epbs-IsGloas : (spec : Spec) (head : ℕ) → post_epbs spec head ≡ true → IsGloas spec head
unfolding post_epbs
post_epbs-IsGloas spec head h = elim (Option-cases (spec_uint spec "GLOAS_FORK_EPOCH")) [
  | inl e ↦ absurd (true_ne_false (sym (rw (e, post_epbs) at h)))
  | inr (n, e) ↦
      let g : gloas_reached (some n) head ≡ true = rw (e, post_epbs) at h in
      (n, spec_uint-published spec "GLOAS_FORK_EPOCH" n e, ground arith, ground arith)
]

pub post_epbs-none : (spec : Spec) (head : ℕ) → post_epbs spec head ≡ false → IsGloas spec head → ⊥
unfolding post_epbs
post_epbs-none spec head h (n, p, some_epoch, reached) =
    let e = published-spec_uint spec "GLOAS_FORK_EPOCH" n p in
    let g : gloas_reached (some n) head ≡ false = rw (e, post_epbs) at h in
    some_epoch (ground arith)
