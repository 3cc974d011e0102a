-- ===== src/Beacon/Inclusion/Sound.antt =====
-- What an inclusion that the search of internal/source/beaconapi/blocks.go reports rests on.
use whymiss.Prelude.{
  ℕ, zero, suc, ◌+◌, ◌-◌, ◌≤◌, ◌<◌, Bool, true, false, List, [], ◌∷◌, Option, none, some, leb, ◌≡◌,
  refl, ◌∙◌, ◌⊎◌, inl, inr, arith, Option-cases, Bool-cases, some_inj, ap, subst, Any,
}
use whymiss.Prelude.Text.{decimal}
use whymiss.Prelude.Order.{codes_eq, codes_eq_sound}
use whymiss.Prelude.Time.{Time}
use whymiss.Prelude.Float.{FloatOps}
use whymiss.Domain.Errors.{Result, ok, err}
use whymiss.Domain.Kinds.{attestation_included}
use whymiss.Domain.Attrs.{validator_index, inclusion_delay, head_correct, target_correct}
use whymiss.Domain.Observation.{Observation, new_observation, lookup_attr, lower_root}
use whymiss.Domain.Observation
use whymiss.Beacon.Committees.{
  ApiAttestation, AttesterDuty, Lengths, Inclusion, included, not_included, need_committees, failed,
  or_no_lengths, attestation_includes_validator, attestations_include_validator,
}
use whymiss.Beacon.Committees.Vote.{HasVote, includes-HasVote}
use whymiss.Beacon.Inclusion.{
  Block, block_failed, no_body, block_body, Search, search_failed, nowhere, included_at, Round,
  ends, goes_on, look_again, with_fetched, look, round_at, search_window, observed, checked,
  conclude, format_uint, format_bool, inclusion_draft, check_inclusion,
}

-- The block of the slot `u` has the attestation `att`, which is for the duty's slot and has the
-- validator's vote, by the sizes of the committees in the table.
pub record IsIncluded (block : ℕ → Block) (table : Lengths) (slot : ℕ) (d : AttesterDuty) (u : ℕ)
    (att : ApiAttestation) : Type 0 where
  pub atts : List ApiAttestation
  pub body : block u ≡ block_body atts
  pub listed : Any (λ (a : ApiAttestation). a ≡ att) atts
  pub of_slot : att.data_slot ≡ decimal slot
  pub vote : HasVote (or_no_lengths table) att d

inclusion-cases :
    (i : Inclusion) → (i ≡ included) ⊎ ((i ≡ not_included) ⊎ ((i ≡ need_committees) ⊎ (i ≡ failed)))
inclusion-cases included = inl refl
inclusion-cases not_included = inr (inl refl)
inclusion-cases need_committees = inr (inr (inl refl))
inclusion-cases failed = inr (inr (inr refl))

need_ne : need_committees ≡ included → ⊥
need_ne h = absurd (ground arith)

fail_ne : failed ≡ included → ⊥
fail_ne h = absurd (ground arith)

module _ (slot : ℕ) (d : AttesterDuty) (lengths : Lengths) where
  abbrev Picked : List ApiAttestation → ApiAttestation → Type 0
  Picked atts att =
      Any (λ (a : ApiAttestation). a ≡ att) atts
      × (codes_eq att.data_slot (decimal slot) ≡ true)
      × (attestation_includes_validator att d lengths ≡ included)

  picked :
      (atts : List ApiAttestation) (att : ApiAttestation)
      → attestations_include_validator atts slot d lengths ≡ (included, some att)
      → Picked atts att
  unfolding attestations_include_validator
  picked [] att h = absurd (ground arith)
  picked (a ∷ rest) att h = elim (Bool-cases (codes_eq a.data_slot (decimal slot))) [
    | inl e ↦ elim (inclusion-cases (attestation_includes_validator a d lengths)) [
      | inl i ↦
          let same =
            some_inj (ap (λ (x : Inclusion × Option ApiAttestation). x.1) (rw (e, i) at h)) in
          subst (Picked (a ∷ rest)) same (inl refl, e, i)
      | inr (inl i) ↦ further a rest att (picked rest att (rw (e, i) at h))
      | inr (inr (inl i)) ↦
          absurd (need_ne (ap (λ (x : Inclusion × Option ApiAttestation). x.0) (rw (e, i) at h)))
      | inr (inr (inr i)) ↦
          absurd (fail_ne (ap (λ (x : Inclusion × Option ApiAttestation). x.0) (rw (e, i) at h)))
    ]
    | inr e ↦ further a rest att (picked rest att (rw e at h))
  ]
    where
      further :
          (a : ApiAttestation) (rest : List ApiAttestation) (att : ApiAttestation)
          → Picked rest att
          → Picked (a ∷ rest) att
      further a rest att (m, e, i) = (inr m, e, i)

module _ (block : ℕ → Block) (fetched : Lengths) (slot : ℕ) (d : AttesterDuty) where
  -- The lengths in hand are none or those that were fetched.
  abbrev InHand : Lengths → Type 0
  InHand lengths = (lengths ≡ none) ⊎ (lengths ≡ fetched)

  -- What a round, or the search, has found from the slot `s` on.
  abbrev Found : ℕ → Search → Type 0
  Found s search_failed = Unit
  Found s nowhere = Unit
  Found s (included_at u att) = (u ≡ s) × IsIncluded block fetched slot d u att

  abbrev Good : ℕ → Round → Type 0
  Good s (ends r) = Found s r
  Good s (goes_on lengths) = InHand lengths

  included-Found :
      (s : ℕ) (lengths : Lengths) (atts : List ApiAttestation) (att : ApiAttestation)
      → InHand lengths
      → block s ≡ block_body atts
      → attestations_include_validator atts slot d lengths ≡ (included, some att)
      → Found s (included_at s att)
  included-Found s lengths atts att l e f =
      let (listed, same, i) = picked slot d lengths atts att f in
      (
        refl,
        record {
          atts = atts;
          body = e;
          listed = listed;
          of_slot = codes_eq_sound att.data_slot (decimal slot) same;
          vote = includes-HasVote att d fetched lengths l i;
        },
      )

  look_again-Good :
      (s : ℕ) (lengths : Lengths) (atts : List ApiAttestation)
      (p : Inclusion × Option ApiAttestation)
      → InHand lengths
      → block s ≡ block_body atts
      → attestations_include_validator atts slot d lengths ≡ p
      → Good s (look_again s lengths p)
  look_again-Good s lengths atts (included, some att) l e f =
      included-Found s lengths atts att l e f
  look_again-Good s lengths atts (included, none) l e f = l
  look_again-Good s lengths atts (not_included, a) l e f = l
  look_again-Good s lengths atts (need_committees, a) l e f = l
  look_again-Good s lengths atts (failed, a) l e f = tt

  with_fetched-Good :
      (s : ℕ) (atts : List ApiAttestation) (got : Lengths)
      → got ≡ fetched
      → block s ≡ block_body atts
      → Good s (with_fetched fetched slot d s atts got)
  with_fetched-Good s atts none g e = tt
  with_fetched-Good s atts (some ls) g e =
      look_again-Good s (some ls) atts (attestations_include_validator atts slot d (some ls))
        (inr g) e refl

  look-Good :
      (s : ℕ) (lengths : Lengths) (atts : List ApiAttestation)
      (p : Inclusion × Option ApiAttestation)
      → InHand lengths
      → block s ≡ block_body atts
      → attestations_include_validator atts slot d lengths ≡ p
      → Good s (look fetched slot d s atts lengths p)
  look-Good s lengths atts (included, some att) l e f = included-Found s lengths atts att l e f
  look-Good s lengths atts (included, none) l e f = l
  look-Good s lengths atts (not_included, a) l e f = l
  look-Good s lengths atts (need_committees, a) l e f = with_fetched-Good s atts fetched refl e
  look-Good s lengths atts (failed, a) l e f = tt

  round_at-Good :
      (s : ℕ) (lengths : Lengths) (b : Block)
      → InHand lengths
      → block s ≡ b
      → Good s (round_at fetched slot d s b lengths)
  round_at-Good s lengths block_failed l e = tt
  round_at-Good s lengths no_body l e = l
  round_at-Good s lengths (block_body atts) l e =
      look-Good s lengths atts (attestations_include_validator atts slot d lengths) l e refl

  Round-cases : (r : Round) → ((x : Search) × (r ≡ ends x)) ⊎ ((n : Lengths) × (r ≡ goes_on n))
  Round-cases (ends x) = inl (x, refl)
  Round-cases (goes_on n) = inr (n, refl)

  search_window-IsIncluded :
      (left u s : ℕ) (lengths : Lengths) (att : ApiAttestation)
      → InHand lengths
      → search_window fetched slot d block left s lengths ≡ included_at u att
      → (s ≤ u) × (u < s + left) × IsIncluded block fetched slot d u att
  unfolding search_window
  search_window-IsIncluded zero u s lengths att l h = absurd (ground arith)
  search_window-IsIncluded (suc left) u s lengths att l h =
      let good = round_at-Good s lengths (block s) l refl in
      elim (Round-cases (round_at fetched slot d s (block s) lengths)) [
        | inl (x, e) ↦
            let (same, i) =
              subst (Good s) (e ∙ ap (λ (y : Search). ends y) (rw (e, search_window) at h)) good in
            (omega (arith, same), omega (arith, same), i)
        | inr (n, e) ↦
            let (low, high, i) =
              search_window-IsIncluded left u (suc s) n att (subst (Good s) e good)
                (rw (e, search_window) at h) in
            (omega (arith, low), omega (arith, high), i)
      ]

-- What the observation of an inclusion says: the attestation is in the block of a slot of the window,
-- the canonical roots judged it, and the observation, which is valid, has the duty's slot and
-- validator, the distance of the block and both flags.
pub record IsReported {F : Type 0} (fl : FloatOps F)
    (evidence : ApiAttestation → Option (Bool × Bool)) (block : ℕ → Block) (fetched : Lengths)
    (now : Time) (slot : ℕ) (d : AttesterDuty) (until : ℕ) (o : Observation) : Type 0 where
  pub inclusion_slot : ℕ
  pub att : ApiAttestation
  pub head : Bool
  pub target : Bool
  pub later : slot < inclusion_slot
  pub within : inclusion_slot ≤ until
  pub inclusion : IsIncluded block fetched slot d inclusion_slot att
  pub judged : evidence att ≡ some (head, target)
  pub built : new_observation fl (inclusion_draft now slot d inclusion_slot att head target) ≡ ok o
  pub of_slot : o.slot ≡ slot
  pub kind : o.kind ≡ attestation_included
  pub of_validator : lookup_attr validator_index o.attrs ≡ some (format_uint d.duty.validator_index)
  pub delay : lookup_attr inclusion_delay o.attrs ≡ some (format_uint (inclusion_slot - slot))
  pub head_flag : lookup_attr head_correct o.attrs ≡ some (format_bool head)
  pub target_flag : lookup_attr target_correct o.attrs ≡ some (format_bool target)

module _ {F : Type 0} (fl : FloatOps F) (evidence : ApiAttestation → Option (Bool × Bool)) where
  checked-ok :
      (r : Result Observation) (o : Observation) → checked fl evidence r ≡ observed o → r ≡ ok o
  checked-ok (ok a) o h = cc
  checked-ok (err e) o h = absurd (ground arith)

  new_observation-lowered :
      (draft o : Observation)
      → new_observation fl draft ≡ ok o
      → o ≡ record draft { attrs = lower_root draft.attrs }
  unfolding new_observation
  new_observation-lowered draft o h = elim (Option-cases (Observation.validate fl draft)) [
    | inl e ↦ ground arith
    | inr (a, e) ↦ absurd (ground arith)
  ]

  conclude-IsReported :
      (block : ℕ → Block) (fetched : Lengths) (now : Time) (slot : ℕ) (d : AttesterDuty) (until : ℕ)
      (o : Observation) (r : Search)
      → slot < until
      → search_window fetched slot d block (until - slot) (suc slot) none ≡ r
      → conclude fl evidence now slot d r ≡ observed o
      → IsReported fl evidence block fetched now slot d until o
  unfolding inclusion_draft lookup_attr lower_root whymiss.Domain.Attrs.attr_eq
  conclude-IsReported block fetched now slot d until o search_failed w e h = absurd (ground arith)
  conclude-IsReported block fetched now slot d until o nowhere w e h = absurd (ground arith)
  conclude-IsReported block fetched now slot d until o (included_at s att) w e h =
      elim (Option-cases (evidence att)) [
        | inl p ↦ absurd (ground arith)
        | inr ((head, target), p) ↦
            let (low, high, i) =
              search_window-IsIncluded block fetched slot d (until - slot) s (suc slot) none att
                (inl refl) e in
            let built = checked-ok _ o (rw (p, conclude) at h) in
            let same = new_observation-lowered _ o built in
            record {
              inclusion_slot = s;
              att = att;
              head = head;
              target = target;
              later = omega (arith, low);
              within = omega (arith, high, w);
              inclusion = i;
              judged = p;
              built = built;
              of_slot = ap (λ (x : Observation). x.slot) same;
              kind = ap (λ (x : Observation). x.kind) same;
              of_validator = ap (λ (x : Observation). lookup_attr validator_index x.attrs) same;
              delay = ap (λ (x : Observation). lookup_attr inclusion_delay x.attrs) same;
              head_flag = ap (λ (x : Observation). lookup_attr head_correct x.attrs) same;
              target_flag = ap (λ (x : Observation). lookup_attr target_correct x.attrs) same;
            }
      ]

  -- When `CheckInclusion` reports an inclusion, the head had reached the end of the window; some block
  -- of the window, after the duty's slot and up to its end, has an attestation for that slot in which
  -- the validator's bit is set, the one of its own committee, or, in an aggregation, the one that comes
  -- after the members of the committees with a smaller index by the lengths that were fetched; the
  -- canonical roots gave its two flags; and the observation is the valid one of the slot with the
  -- validator, the distance of that block and the flags.
  pub check_inclusion-IsReported :
      (block : ℕ → Block) (fetched : Lengths) (now : Time) (slot : ℕ) (d : AttesterDuty) (until : ℕ)
      (reached : Bool) (o : Observation)
      → check_inclusion fl evidence block fetched now slot d until reached ≡ observed o
      → (reached ≡ true) × IsReported fl evidence block fetched now slot d until o
  unfolding check_inclusion
  check_inclusion-IsReported block fetched now slot d until false o h = absurd (ground arith)
  check_inclusion-IsReported block fetched now slot d until true o h =
      elim (Bool-cases (leb until slot)) [
        | inl e ↦ absurd (ground arith)
        | inr e ↦ (
          refl,
          conclude-IsReported block fetched now slot d until o
              (search_window fetched slot d block (until - slot) (suc slot) none) (ground arith)
              refl (rw (e, check_inclusion) at h),
        )
      ]
