-- ===== src/Domain/Kinds.antt =====
-- internal/domain/observation.go: the closed vocabulary of observation kinds. A text outside it is
-- `other_kind`.
use whymiss.Prelude.{ℕ, ◌==◌, Bool, true, false, ◌≡◌, refl, ap, ◌↔◌, List, [], ◌∷◌, String, arith}
use whymiss.Prelude.Text.{str_eq, str_eq_iff}

pub data ObservationKind : Type 0 where
  slot_start duty_assigned block_seen block_skipped head_updated : ObservationKind
  attestation_published attestation_included block_proposed reorg : ObservationKind
  peer_count_sampled engine_call host_sampled clock_sampled : ObservationKind
  collection_completed network_baseline_sampled payload_attested : ObservationKind
  other_kind : String → ObservationKind

unfoldable pub observation_kinds : List ObservationKind
observation_kinds =
    slot_start ∷ duty_assigned ∷ block_seen ∷ block_skipped ∷ head_updated ∷ attestation_published
    ∷ attestation_included ∷ block_proposed ∷ reorg ∷ peer_count_sampled ∷ engine_call
    ∷ host_sampled ∷ clock_sampled ∷ collection_completed ∷ network_baseline_sampled
    ∷ payload_attested ∷ []

unfoldable pub kind_valid : ObservationKind → Bool
kind_valid (other_kind _) = false
kind_valid _ = true

-- The number of a kind in the vocabulary, by which kinds are compared.
abbrev tag : ObservationKind → ℕ
tag slot_start = 0
tag duty_assigned = 1
tag block_seen = 2
tag block_skipped = 3
tag head_updated = 4
tag attestation_published = 5
tag attestation_included = 6
tag block_proposed = 7
tag reorg = 8
tag peer_count_sampled = 9
tag engine_call = 10
tag host_sampled = 11
tag clock_sampled = 12
tag collection_completed = 13
tag network_baseline_sampled = 14
tag payload_attested = 15
tag (other_kind _) = 16

unfoldable pub kind_eq : ObservationKind → ObservationKind → Bool
kind_eq (other_kind s) (other_kind t) = str_eq s t
kind_eq j k = tag j == tag k

kind_eq-eq : (j k : ObservationKind) → kind_eq j k ≡ true → j ≡ k
unfolding kind_eq
kind_eq-eq (other_kind s) (other_kind t) h = ap other_kind ((str_eq_iff s t).0 h)
kind_eq-eq j k h = ground arith

kind_eq_self : (k : ObservationKind) → kind_eq k k ≡ true
unfolding kind_eq
kind_eq_self (other_kind s) = (str_eq_iff s s).1 refl
kind_eq_self k = refl

pub kind_eq_iff : (j k : ObservationKind) → (kind_eq j k ≡ true) ↔ (j ≡ k)
kind_eq_iff j k = (kind_eq-eq j k, λ e. rw e (kind_eq_self k))
