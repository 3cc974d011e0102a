-- ===== src/Clock/Sampler.antt =====
-- internal/clock/sampler.go: attempts over the configured servers, in turn. Whether a wait between
-- attempts ran to its end, what each query measured and whether the context still stood after it are
-- the environment's.
use whymiss.Prelude.{
  ℕ, zero, suc, ◌%◌, ◌==◌, Bool, true, false, ◌&&◌, ◌||◌, not, List, [], ◌∷◌, Option, none, some,
  String, ltb, length, if◌then◌else◌,
}
use whymiss.Prelude.Int.{ℤ, pos, ltb_ℤ, leb_ℤ}
use whymiss.Prelude.Text.{byte_len, is_blank}
use whymiss.Prelude.Time.{Duration}
use whymiss.Clock.{Reading}
use whymiss.Clock.Query.{QueryResult, measured, network_failure, invalid_response}

pub record Config : Type 0 where
  pub servers : List String
  pub timeout : Duration
  pub max_attempts : ℤ

pub data ConfigError : Type 0 where
  no_servers invalid_config : ConfigError

abbrev pub max_servers : ℕ
max_servers = 8

abbrev pub max_server_address : ℕ
max_server_address = 255

abbrev pub max_attempts : ℕ
max_attempts = 16

-- 30 s
abbrev pub max_timeout : ℕ
max_timeout = 30000000000

abbrev bad_server : String → Bool
bad_server s = is_blank s || ltb max_server_address (byte_len s)

abbrev some_bad_server : List String → Bool
some_bad_server [] = false
some_bad_server (s ∷ rest) = bad_server s || some_bad_server rest

unfoldable pub validate : Config → Option ConfigError
validate c =
    if length c.servers == 0
    then some no_servers
    else if ltb max_servers (length c.servers)
    then some invalid_config
    else if some_bad_server c.servers
    then some invalid_config
    else if leb_ℤ c.timeout (pos 0) || ltb_ℤ (pos max_timeout) c.timeout
    then some invalid_config
    else if ltb_ℤ c.max_attempts (pos 1) || ltb_ℤ (pos max_attempts) c.max_attempts
    then some invalid_config
    else none

abbrev pub with_ports : (String → String) → List String → List String
with_ports address [] = []
with_ports address (s ∷ rest) = address s ∷ with_ports address rest

-- `New`. `withDefaultPort(strings.TrimSpace(s))` splits the address by package net: a parameter.
unfoldable pub new : (String → String) → Config → Option Config
unfolding validate
new address c = elim (validate c) [
  | some e ↦ none
  | none ↦ some (record c { servers = with_ports address c.servers })
]

pub record Environment : Type 0 where
  pub waits : ℕ → Bool
  pub asks : ℕ → String → QueryResult
  pub alive : ℕ → Bool

-- `out_of_range` is the panic of an index outside the servers.
pub data SampleResult : Type 0 where
  sampled : Reading → SampleResult
  cancelled all_attempts_failed out_of_range : SampleResult

abbrev pub nth : ℕ → List String → Option String
nth n [] = none
nth zero (s ∷ rest) = some s
nth (suc n) (s ∷ rest) = nth n rest

abbrev pub attempt_of : Environment → List String → ℕ → Option QueryResult
attempt_of env servers attempt = elim (nth (attempt % length servers) servers) [
  | none ↦ none
  | some server ↦ some (env.asks attempt server)
]

-- The loop with `left` attempts to go.
unfoldable pub sample_loop : Environment → List String → ℕ → ℕ → SampleResult
sample_loop env servers zero attempt = all_attempts_failed
sample_loop env servers (suc left) attempt = elim (ltb 0 attempt && not (env.waits attempt)) [
  | true ↦ cancelled
  | false ↦ elim (attempt_of env servers attempt) [
    | none ↦ out_of_range
    | some (measured r) ↦ sampled r
    | some network_failure ↦ elim (env.alive attempt) [
      | true ↦ sample_loop env servers left (suc attempt)
      | false ↦ cancelled
    ]
    | some invalid_response ↦ elim (env.alive attempt) [
      | true ↦ sample_loop env servers left (suc attempt)
      | false ↦ cancelled
    ]
  ]
]

abbrev pub attempts_of : ℤ → ℕ
attempts_of (pos n) = n
attempts_of (ℤ.negsuc n) = 0

unfoldable pub sample : Environment → Config → SampleResult
unfolding sample_loop
sample env c = sample_loop env c.servers (attempts_of c.max_attempts) 0
