-- ===== src/Rca/Stages/Dominance.antt =====
-- `dominant` of internal/rca/rules/stages.go: the stage with the greatest share of the time.
use whymiss.Prelude.{
  true_ne_false, sym, true, false, List, [], ◌∷◌, Option, none, some, ◌≡◌, refl, ap, ◌∙◌, subst,
  inl, inr, arith, ◌≤◌, Bool-cases, Option-cases, All,
}
use whymiss.Prelude.Float.{FloatOps, FloatOrder}
use whymiss.Domain.Slot.{Stage, propagation, validation, signing}
use whymiss.Rca.Config.{Config}
use whymiss.Rca.Stages.{Stages, share, better, greatest, dominant, known_stages}

module _ {F : Type 0} (fl : FloatOps F) where
  -- A share that is not greater than `x`, or not known.
  abbrev pub NotAbove : F → Option F → Type 0
  NotAbove x none = Unit
  NotAbove x (some y) = fl.lt x y ≡ false

  abbrev pub HasShare : Stages → Stage → F → Type 0
  HasShare s st x =
      (share fl s st ≡ some x)
      × NotAbove x (share fl s propagation)
      × NotAbove x (share fl s validation)
      × NotAbove x (share fl s signing)

  -- What the loop has after some of the stages.
  abbrev Leads : Option (Stage × F) → List (Option F) → Type 0
  Leads none seen = All (λ (o : Option F). o ≡ none) seen
  Leads (some (b, y)) seen = All (NotAbove y) seen

  NotAbove-up :
      FloatOrder fl → (x y : F) (o : Option F) → fl.lt y x ≡ true → NotAbove y o → NotAbove x o
  NotAbove-up laws x y none h n = tt
  NotAbove-up laws x y (some z) h n = elim (Bool-cases (fl.lt x z)) [
    | inl e ↦ absurd (true_ne_false (sym (laws.lt_trans y x z h e) ∙ n))
    | inr e ↦ e
  ]

  NotAbove-All :
      FloatOrder fl
      → (x y : F) (os : List (Option F)) → fl.lt y x ≡ true
      → All (NotAbove y) os
      → All (NotAbove x) os
  NotAbove-All laws x y [] h n = tt
  NotAbove-All laws x y (o ∷ os) h (n, ns) =
      (NotAbove-up laws x y o h n, NotAbove-All laws x y os h ns)

  none_above :
      (x : F) (os : List (Option F)) → All (λ (o : Option F). o ≡ none) os → All (NotAbove x) os
  none_above x [] h = tt
  none_above x (o ∷ os) (h, hs) = (subst (NotAbove x) (sym h) tt, none_above x os hs)

  asymmetric : FloatOrder fl → (x y : F) → fl.lt y x ≡ true → fl.lt x y ≡ false
  asymmetric laws x y h = elim (Bool-cases (fl.lt x y)) [
    | inl e ↦ absurd (true_ne_false (sym (laws.lt_trans x y x e h) ∙ laws.lt_irrefl x))
    | inr e ↦ e
  ]

  better-Leads :
      FloatOrder fl
      → (best : Option (Stage × F)) (st : Stage) (o : Option F) (seen : List (Option F))
      → Leads best seen
      → Leads (better fl best st o) (o ∷ seen)
  better-Leads laws none st none seen h = (refl, h)
  better-Leads laws (some (b, y)) st none seen h = (tt, h)
  better-Leads laws none st (some x) seen h = (laws.lt_irrefl x, none_above x seen h)
  better-Leads laws (some (b, y)) st (some x) seen h = elim (Bool-cases (fl.lt y x)) [
    | inl e ↦ rw e (laws.lt_irrefl x, NotAbove-All laws x y seen e h)
    | inr e ↦ rw e (e, h)
  ]

  -- The best stage so far has the share that stands with it.
  abbrev Holder : Stages → Option (Stage × F) → Type 0
  Holder s none = Unit
  Holder s (some (b, y)) = share fl s b ≡ some y

  better-Holder :
      (s : Stages) (best : Option (Stage × F)) (st : Stage) (o : Option F)
      → share fl s st ≡ o
      → Holder s best
      → Holder s (better fl best st o)
  better-Holder s best st none e h = h
  better-Holder s none st (some x) e h = e
  better-Holder s (some (b, y)) st (some x) e h = elim (Bool-cases (fl.lt y x)) [
    | inl l ↦ rw l e
    | inr l ↦ rw l h
  ]

  greatest-Holder : (s : Stages) → Holder s (greatest fl s)
  unfolding greatest
  greatest-Holder s =
      better-Holder s _ signing _ refl
        (better-Holder s _ validation _ refl (better-Holder s none propagation _ refl tt))

  greatest-Leads :
      FloatOrder fl
      → (s : Stages)
      → Leads
          (greatest fl s)
          (share fl s signing ∷ share fl s validation ∷ share fl s propagation ∷ [])
  unfolding greatest
  greatest-Leads laws s =
      let p = share fl s propagation in
      let v = share fl s validation in
      let b = better fl none propagation p in
      better-Leads laws (better fl b validation v) signing (share fl s signing) (v ∷ p ∷ [])
        (better-Leads laws b validation v (p ∷ []) (better-Leads laws none propagation p [] tt))

  greatest-HasShare :
      FloatOrder fl
      → (s : Stages) (st : Stage) (x : F) → greatest fl s ≡ some (st, x)
      → HasShare s st x
  greatest-HasShare laws s st x e =
      let holder : Holder s (some (st, x)) = subst (Holder s) e (greatest-Holder s) in
      let (hs, (hv, (hp, _))) =
        subst
          (λ o. Leads o (share fl s signing ∷ share fl s validation ∷ share fl s propagation ∷ []))
          e (greatest-Leads laws s) in
      (holder, hp, hv, hs)

  undominated :
      (s : Stages) (cfg : Config F) (st : Stage)
      → greatest fl s ≡ none
      → dominant fl s cfg ≡ some st
      → ⊥
  unfolding dominant
  undominated s cfg st e h = ground arith

  dominant-holds :
      (s : Stages) (cfg : Config F) (st b : Stage) (x : F)
      → greatest fl s ≡ some (b, x)
      → dominant fl s cfg ≡ some st
      → (2 ≤ known_stages s) × (fl.lt x cfg.dominance ≡ false) × (b ≡ st)
  unfolding dominant
  dominant-holds s cfg st b x e h = ground arith

  -- With a transitive and irreflexive order on float64: a stage that dominates is one of at least two
  -- known stages, its share is not below the configured dominance, and no stage has a greater share.
  pub dominant-greatest :
      FloatOrder fl
      → (s : Stages) (cfg : Config F) (st : Stage) → dominant fl s cfg ≡ some st
      → (2 ≤ known_stages s) × ((x : F) × HasShare s st x × (fl.lt x cfg.dominance ≡ false))
  unfolding dominant
  dominant-greatest laws s cfg st h = elim (Option-cases (greatest fl s)) [
    | inl e ↦ absurd (undominated s cfg st e h)
    | inr ((b, x), e) ↦
        let (two, not_below, same) = dominant-holds s cfg st b x e h in
        (two, (x, greatest-HasShare laws s st x (e ∙ ap (λ c. some (c, x)) same), not_below))
  ]
