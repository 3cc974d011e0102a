-- ===== src/Rca/Engine/Order.antt =====
-- Which rule of internal/rca/rules/order.go decides, and what the engine makes of its draft.
use whymiss.Prelude.{
  none_ne_some, sym, List, [], ◌∷◌, ◌++◌, none, some, ◌≡◌, ◌≢◌, refl, ap, ◌∙◌, ◌↔◌, ◌⊎◌, inl, inr,
  arith, All, Option-cases,
}
use whymiss.Prelude.Float.{FloatOps}
use whymiss.Domain.Timeline.{Timeline}
use whymiss.Domain.Verdict.{Verdict}
use whymiss.Rca.Config.{Config}
use whymiss.Rca.Rules
use whymiss.Rca.Engine.{Rule, first_match, order}

abbrev Declines : {F : Type 0} → Timeline F → Config F → Rule F → Type 0
Declines tl cfg r = r.evaluate tl cfg ≡ none

-- A split of the rules at one that matches, with the rules before it.
abbrev pub Decides : {F : Type 0} → Timeline F → Config F → List (Rule F) → Verdict F → Type 0
Decides {F} tl cfg rules v =
    (before : List (Rule F)) × (r : Rule F) × (after : List (Rule F)) × (rules
      ≡ before ++ (r ∷ after))
    × All (Declines tl cfg) before
    × (r.evaluate tl cfg ≡ some v)

module _ {F : Type 0} (fl : FloatOps F) (tl : Timeline F) (cfg : Config F) where
  first_match-skip :
      (r : Rule F) (rest : List (Rule F))
      → r.evaluate tl cfg ≡ none
      → first_match fl tl cfg (r ∷ rest) ≡ first_match fl tl cfg rest
  unfolding first_match
  first_match-skip r rest h = rw (h, first_match) refl

  first_match-take :
      (r : Rule F) (rest : List (Rule F)) (v : Verdict F)
      → r.evaluate tl cfg ≡ some v
      → first_match fl tl cfg (r ∷ rest) ≡ some v
  unfolding first_match
  first_match-take r rest v h = rw (h, first_match) refl

  first_match-Decides :
      (rules : List (Rule F)) (v : Verdict F)
      → first_match fl tl cfg rules ≡ some v
      → Decides tl cfg rules v
  unfolding first_match
  first_match-Decides [] v h = absurd (none_ne_some h)
  first_match-Decides (r ∷ rest) v h = elim (Option-cases (r.evaluate tl cfg)) [
    | inl e ↦
        let (before, s, after, p, d, q) =
          first_match-Decides rest v (sym (first_match-skip r rest e) ∙ h) in
        (r ∷ before, s, after, ap (λ xs. r ∷ xs) p, (e, d), q)
    | inr (w, e) ↦ ([], r, rest, refl, tt, e ∙ sym (first_match-take r rest w e) ∙ h)
  ]

  Decides-first_match :
      (rules before : List (Rule F)) (r : Rule F) (after : List (Rule F)) (v : Verdict F)
      → rules ≡ before ++ (r ∷ after)
      → All (Declines tl cfg) before
      → r.evaluate tl cfg ≡ some v
      → first_match fl tl cfg rules ≡ some v
  unfolding first_match
  Decides-first_match rules [] r after v p d q = rw p (first_match-take r after v q)
  Decides-first_match rules (s ∷ before) r after v p (e, d) q = rw p (
      first_match-skip s (before ++ (r ∷ after)) e
      ∙ Decides-first_match (before ++ (r ∷ after)) before r after v refl d q)

  -- The loop returns a draft exactly when one of the rules drafts it and every rule before that one
  -- declines.
  pub first_match_iff :
      (rules : List (Rule F)) (v : Verdict F)
      → (first_match fl tl cfg rules ≡ some v) ↔ Decides tl cfg rules v
  first_match_iff rules v = (
    first_match-Decides rules v,
    λ (before, r, after, p, d, q). Decides-first_match rules before r after v p d q,
  )

  first_match-none :
      (rules : List (Rule F)) → first_match fl tl cfg rules ≡ none → All (Declines tl cfg) rules
  unfolding first_match
  first_match-none [] h = tt
  first_match-none (r ∷ rest) h = elim (Option-cases (r.evaluate tl cfg)) [
    | inl e ↦ (e, first_match-none rest (sym (first_match-skip r rest e) ∙ h))
    | inr (w, e) ↦ absurd (none_ne_some (sym h ∙ first_match-take r rest w e))
  ]

  catch_all-matches : Rules.CatchAll.evaluate fl tl cfg ≢ none
  unfolding Rules.CatchAll.evaluate
  catch_all-matches h = ground arith

  -- For every timeline and configuration, some rule of the ordered sequence drafts a verdict, so
  -- that the engine's own draft for a sequence without a match is never used.
  pub first_match-order : first_match fl tl cfg (order fl) ≢ none
  unfolding order
  first_match-order h =
      let declined : Rules.CatchAll.evaluate fl tl cfg ≡ none =
        (first_match-none (order fl) h).1.1.1.1.1.1.1.1.1.1.1.1.0 in
      catch_all-matches declined

  -- The first rule either drafts the verdict or declines, and then the rest drafts it.
  pub first_match-peel :
      (r : Rule F) (rest : List (Rule F)) (v : Verdict F)
      → first_match fl tl cfg (r ∷ rest) ≡ some v
      → (r.evaluate tl cfg ≡ some v)
        ⊎ ((r.evaluate tl cfg ≡ none) × (first_match fl tl cfg rest ≡ some v))
  first_match-peel r rest v h = elim (Option-cases (r.evaluate tl cfg)) [
    | inl e ↦ inr (e, sym (first_match-skip r rest e) ∙ h)
    | inr (w, e) ↦ inl (e ∙ sym (first_match-take r rest w e) ∙ h)
  ]
