-- ===== src/Domain/Attrs/Vocabulary.antt =====
-- The closed vocabulary of internal/domain/observation.go as a whole.
use whymiss.Prelude.{Bool, true, false, ◌≡◌, ◌⊎◌, refl, ap, ◌↔◌, List, [], ◌∷◌, arith, ◌||◌, not}
use whymiss.Prelude.Text.{str_eq_iff}
use whymiss.Domain.Slot.{SourceId, source_valid}
use whymiss.Domain.Kinds.{ObservationKind, other_kind, observation_kinds, kind_valid, kind_eq}
use whymiss.Domain.Attrs.{
  AttrKey, other_attr, payload_present, ptc_votes, attr_keys, attr_eq, permitted_for,
  source_permitted_for,
}

attr_eq-eq : (a b : AttrKey) → attr_eq a b ≡ true → a ≡ b
unfolding attr_eq
attr_eq-eq (other_attr s) (other_attr t) h = ap other_attr ((str_eq_iff s t).0 h)
attr_eq-eq a b h = ground arith

attr_eq_self : (a : AttrKey) → attr_eq a a ≡ true
unfolding attr_eq
attr_eq_self (other_attr s) = (str_eq_iff s s).1 refl
attr_eq_self a = refl

pub attr_eq_iff : (a b : AttrKey) → (attr_eq a b ≡ true) ↔ (a ≡ b)
attr_eq_iff a b = (attr_eq-eq a b, λ e. rw e (attr_eq_self b))

-- A kind, key or source outside the vocabulary is accepted nowhere: a kind that some source may
-- produce, or that some key may stand on, is valid, and a source that some kind permits is valid.
pub vocabulary_closed :
    (k : ObservationKind) (a : AttrKey) (s : SourceId)
    → ((permitted_for a k ≡ false) ⊎ (kind_valid k ≡ true))
      × ((source_permitted_for s k ≡ false) ⊎ ((kind_valid k ≡ true) × (source_valid s ≡ true)))
unfolding permitted_for source_permitted_for kind_valid source_valid
vocabulary_closed (other_kind x) a s = ground arith
vocabulary_closed k a s = ground arith

abbrev pub mem_key : AttrKey → List AttrKey → Bool
mem_key a [] = false
mem_key a (b ∷ bs) = attr_eq a b || mem_key a bs

abbrev pub mem_kind : ObservationKind → List ObservationKind → Bool
mem_kind a [] = false
mem_kind a (b ∷ bs) = kind_eq a b || mem_kind a bs

-- `ObservationKinds` lists exactly the kinds that `Valid` accepts.
pub observation_kinds-kind_valid :
    (k : ObservationKind) → mem_kind k observation_kinds ≡ kind_valid k
unfolding observation_kinds kind_valid kind_eq
observation_kinds-kind_valid (other_kind x) = refl
observation_kinds-kind_valid k = refl

-- A documented key for which some kind exists, but `payload_present` and `ptc_votes`, is listed by
-- `AttrKeys`; these two stand on `payload_attested` and are not listed.
pub attr_keys_incomplete :
    (a : AttrKey) (k : ObservationKind)
    → permitted_for a k ≡ true
    → mem_key a attr_keys ≡ not (attr_eq a payload_present || attr_eq a ptc_votes)
unfolding attr_keys permitted_for attr_eq
attr_keys_incomplete (other_attr x) k h = ground arith
attr_keys_incomplete a k h = refl
