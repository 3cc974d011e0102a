-- ===== src/Clock/Packet.antt =====
-- internal/clock/packet.go: the 48-byte NTP header.
use whymiss.Prelude.{ℕ, zero, suc, ◌+◌, ◌*◌, ◌/◌, ◌%◌, ◌^◌, List, [], ◌∷◌, ◌++◌}
use whymiss.Prelude.Time.{Time}
use whymiss.Clock.Ntp.{to_ntp}

abbrev pub mode_client : ℕ
mode_client = 3

abbrev pub mode_server : ℕ
mode_server = 4

abbrev pub leap_unsync : ℕ
leap_unsync = 3

-- The bytes of the packet.
abbrev pub Packet : Type 0
Packet = List ℕ

abbrev pub byte_at : ℕ → Packet → ℕ
byte_at i [] = 0
byte_at zero (b ∷ p) = b
byte_at (suc i) (b ∷ p) = byte_at i p

-- `binary.BigEndian.PutUint64` and `Uint64`.
abbrev pub put_uint64 : ℕ → List ℕ
put_uint64 v =
    v / 2 ^ 56 % 256
    ∷ v / 2 ^ 48 % 256
    ∷ v / 2 ^ 40 % 256
    ∷ v / 2 ^ 32 % 256
    ∷ v / 2 ^ 24 % 256
    ∷ v / 2 ^ 16 % 256
    ∷ v / 2 ^ 8 % 256
    ∷ v % 256
    ∷ []

abbrev pub uint64_at : ℕ → Packet → ℕ
uint64_at i p =
    byte_at i p * 2 ^ 56
    + byte_at (i + 1) p * 2 ^ 48
    + byte_at (i + 2) p * 2 ^ 40
    + byte_at (i + 3) p * 2 ^ 32
    + byte_at (i + 4) p * 2 ^ 24
    + byte_at (i + 5) p * 2 ^ 16
    + byte_at (i + 6) p * 2 ^ 8
    + byte_at (i + 7) p

abbrev pub zeros : ℕ → List ℕ
zeros zero = []
zeros (suc n) = 0 ∷ zeros n

unfoldable pub new_request : Time → Packet
new_request t1 = (4 * 8 + mode_client) ∷ (zeros 39 ++ put_uint64 (to_ntp t1))

unfoldable pub leap_indicator : Packet → ℕ
leap_indicator p = byte_at 0 p / 64

unfoldable pub version : Packet → ℕ
version p = byte_at 0 p / 8 % 8

unfoldable pub mode : Packet → ℕ
mode p = byte_at 0 p % 8

unfoldable pub stratum : Packet → ℕ
stratum p = byte_at 1 p

unfoldable pub origin_timestamp : Packet → ℕ
origin_timestamp p = uint64_at 24 p

unfoldable pub receive_timestamp : Packet → ℕ
receive_timestamp p = uint64_at 32 p

unfoldable pub transmit_timestamp : Packet → ℕ
transmit_timestamp p = uint64_at 40 p
