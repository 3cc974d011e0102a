-- ===== src/Clock/Rounds.antt =====
-- internal/clock/sampler.go and tracker.go: a sample is the first success of the attempts over the
-- servers in turn, and the tracker remembers the last success.
use whymiss.Prelude.{
  ℕ, zero, suc, ◌%◌, ◌<◌, ◌≤◌, true, false, List, [], ◌∷◌, none, some, String, ◌≡◌, refl, ap, sym,
  subst, ◌∙◌, some_inj, none_ne_some, arith, length, Option-cases, inl, inr,
}
use whymiss.Prelude.Int.{ℤ, pos, ltb_ℤ}
use whymiss.Clock.Query.{QueryResult, measured, network_failure, invalid_response}
use whymiss.Clock.Sampler.{
  Config, Environment, SampleResult, sampled, all_attempts_failed, max_attempts, nth, validate, new,
  with_ports, attempts_of, sample_loop, sample,
}

-- The servers, one after the other and from the first again.
abbrev pub turn : List String → ℕ → String
turn servers k = elim (nth (k % length servers) servers) [ none ↦ "" | some s ↦ s ]

abbrev pub answers : Environment → List String → ℕ → ℕ → List QueryResult
answers env servers zero k = []
answers env servers (suc left) k = env.asks k (turn servers k) ∷ answers env servers left (suc k)

abbrev pub first_reading : List QueryResult → SampleResult
first_reading [] = all_attempts_failed
first_reading (measured r ∷ rest) = sampled r
first_reading (network_failure ∷ rest) = first_reading rest
first_reading (invalid_response ∷ rest) = first_reading rest

nth-some : (n : ℕ) (l : List String) → n < length l → (s : String) × (nth n l ≡ some s)
nth-some n [] h = absurd (omega arith)
nth-some zero (s ∷ l) h = (s, refl)
nth-some (suc n) (s ∷ l) h = nth-some n l (omega arith)

mod_lt : (k n : ℕ) → 0 < n → k % n < n
mod_lt k n h = grind arith

length-with_ports :
    (address : String → String) (l : List String) → length (with_ports address l) ≡ length l
length-with_ports address [] = refl
length-with_ports address (s ∷ l) = ap suc (length-with_ports address l)

module _ (env : Environment) (waits : (k : ℕ) → env.waits k ≡ true)
    (alive : (k : ℕ) → env.alive k ≡ true) where
  sample_loop-IsFirst :
      (servers : List String) (left k : ℕ)
      → 0 < length servers
      → sample_loop env servers left k ≡ first_reading (answers env servers left k)
  unfolding sample_loop
  sample_loop-IsFirst servers zero k h = refl
  sample_loop-IsFirst servers (suc left) k h =
      let (s, e) = nth-some (k % length servers) servers (mod_lt k (length servers) h) in
      ground (arith, waits k, alive k, e, sample_loop-IsFirst servers left (suc k) h)

attempts_range :
    (a : ℤ)
    → ltb_ℤ a (pos 1) ≡ false
    → ltb_ℤ (pos max_attempts) a ≡ false
    → (0 < attempts_of a) × (attempts_of a ≤ max_attempts)
attempts_range (pos n) h g = (ground arith, ground arith)
attempts_range (ℤ.negsuc n) h g = absurd (ground arith)

validate-bounds :
    (c : Config)
    → validate c ≡ none
    → (0 < length c.servers)
      × (0 < attempts_of c.max_attempts)
      × (attempts_of c.max_attempts ≤ max_attempts)
unfolding validate
validate-bounds c h =
    let (low, high) = attempts_range c.max_attempts (ground arith) (ground arith) in
    (ground arith, low, high)

new-config :
    (address : String → String) (given c : Config)
    → new address given ≡ some c
    → (validate given ≡ none) × (record given { servers = with_ports address given.servers } ≡ c)
unfolding new
new-config address given c h = elim (Option-cases (validate given)) [
  | inl e ↦ (e, some_inj (sym (rw (e, new)) ∙ h))
  | inr (a, e) ↦ absurd (none_ne_some (sym (rw (e, new)) ∙ h))
]

-- With a sampler that `New` made, and no cancellation, `Sample` returns the first reading that one of
-- its 1 to 16 attempts measures, where attempt k asks the server k places on from the first, in
-- turn; or, where none measures one, that all attempts failed.
pub sample-IsFirst :
    (address : String → String) (given c : Config) (env : Environment)
    → new address given ≡ some c
    → ((k : ℕ) → env.waits k ≡ true)
    → ((k : ℕ) → env.alive k ≡ true)
    → (0 < attempts_of c.max_attempts)
      × (attempts_of c.max_attempts ≤ max_attempts)
      × (sample env c ≡ first_reading (answers env c.servers (attempts_of c.max_attempts) 0))
unfolding sample
sample-IsFirst address given c env h waits alive =
    let (valid, e) = new-config address given c h in
    let (some_server, low, high) = validate-bounds given valid in
    subst
      (λ (d : Config).
        (0 < attempts_of d.max_attempts)
        × (attempts_of d.max_attempts ≤ max_attempts)
        × (sample env d ≡ first_reading (answers env d.servers (attempts_of d.max_attempts) 0)))
      e
      (
        low,
        high,
        sample_loop-IsFirst env waits alive (with_ports address given.servers)
            (attempts_of given.max_attempts) 0
            (rw (length-with_ports address given.servers) some_server),
      )
