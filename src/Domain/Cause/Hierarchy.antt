-- ===== src/Domain/Cause/Hierarchy.antt =====
-- The hierarchy of causes of internal/domain/verdict.go.
use whymiss.Prelude.{Bool, true, false, ◌&&◌, ◌||◌, ◌≡◌, ◌⊎◌, refl, ap, ◌↔◌, List, [], ◌∷◌, arith}
use whymiss.Prelude.Text.{str_eq_iff}
use whymiss.Domain.Cause.{
  CauseId, other_cause, no_cause, el_slow, el_slow_syncing, el_slow_snapshot, el_slow_pruning,
  el_slow_disk_saturation, cause_ids, cause_valid, cause_eq, is_sub_cause_of,
}

cause_eq-eq : (a b : CauseId) → cause_eq a b ≡ true → a ≡ b
unfolding cause_eq
cause_eq-eq (other_cause s) (other_cause t) h = ap other_cause ((str_eq_iff s t).0 h)
cause_eq-eq a b h = ground arith

cause_eq_self : (a : CauseId) → cause_eq a a ≡ true
unfolding cause_eq
cause_eq_self (other_cause s) = (str_eq_iff s s).1 refl
cause_eq_self a = refl

pub cause_eq_iff : (a b : CauseId) → (cause_eq a b ≡ true) ↔ (a ≡ b)
cause_eq_iff a b = (cause_eq-eq a b, λ e. rw e (cause_eq_self b))

abbrev pub mem_cause : CauseId → List CauseId → Bool
mem_cause a [] = false
mem_cause a (b ∷ bs) = cause_eq a b || mem_cause a bs

-- `CauseIDs` lists exactly the causes that `Valid` accepts.
pub cause_ids-cause_valid : (c : CauseId) → mem_cause c cause_ids ≡ cause_valid c
unfolding cause_ids cause_valid cause_eq
cause_ids-cause_valid (other_cause s) = refl
cause_ids-cause_valid c = refl

abbrev pub IsEngineDetail : CauseId → Type 0
IsEngineDetail c =
    (c ≡ el_slow_syncing)
    ⊎ ((c ≡ el_slow_snapshot) ⊎ ((c ≡ el_slow_pruning) ⊎ (c ≡ el_slow_disk_saturation)))

abbrev is_engine_detail : CauseId → Bool
is_engine_detail el_slow_syncing = true
is_engine_detail el_slow_snapshot = true
is_engine_detail el_slow_pruning = true
is_engine_detail el_slow_disk_saturation = true
is_engine_detail _ = false

is_engine_detail_iff : (c : CauseId) → (is_engine_detail c ≡ true) ↔ IsEngineDetail c
is_engine_detail_iff (other_cause s) = ground arith
is_engine_detail_iff c = ground arith

sub_cause_table :
    (c p : CauseId)
    → cause_valid c ≡ true
    → cause_valid p ≡ true
    → is_sub_cause_of c p ≡ (is_engine_detail c && cause_eq p el_slow)
unfolding is_sub_cause_of cause_valid
sub_cause_table (other_cause s) p h k = cc
sub_cause_table no_cause p h k = cc
sub_cause_table c (other_cause s) h k = cc
sub_cause_table c no_cause h k = cc
sub_cause_table c p h k = refl

-- Among the causes of the taxonomy, `IsSubCauseOf` holds exactly of the four refinements of
-- `local.el_slow`, with `local.el_slow` as the parent.
pub is_sub_cause_of_iff :
    (c p : CauseId)
    → cause_valid c ≡ true
    → cause_valid p ≡ true
    → (is_sub_cause_of c p ≡ true) ↔ (IsEngineDetail c × (p ≡ el_slow))
is_sub_cause_of_iff c p h k =
    ground (arith, sub_cause_table c p h k, is_engine_detail_iff c, cause_eq_iff p el_slow)
