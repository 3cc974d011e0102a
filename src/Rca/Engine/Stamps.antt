-- ===== src/Rca/Engine/Stamps.antt =====
-- The fields that internal/rca/engine.go fills in.
use whymiss.Prelude.{
  ◌&&◌, List, [], ◌∷◌, map, Option, none, some, ◌≡◌, refl, sym, subst, inl, inr, All, Bool-cases,
}
use whymiss.Prelude.Int.{pos, ◌-ℤ◌, clamp64, int_laws, eq_of_parts}
use whymiss.Prelude.Time.{Time, sub_time}
use whymiss.Prelude.Text.{str_eq}
use whymiss.Prelude.Float.{FloatOps}
use whymiss.Domain.Errors.{Result-cases}
use whymiss.Domain.Timeline.{Timeline}
use whymiss.Domain.Cause.{cause_eq, no_rule_matched}
use whymiss.Domain.Verdict.{
  Outcome, RewardFlags, Verdict, Evidence, is_no_duty, is_ok, new_verdict, stamped,
}
use whymiss.Domain.Verdict.WellFormed.{new_verdict-ok}
use whymiss.Rca.Config.{Config}
use whymiss.Rca.Outcome.{derive_outcome}
use whymiss.Rca.Engine.{
  engine_version, Rule, with_offset, stamp, safe_fallback, finish, nothing_owed, clean_pass,
  engine_bug, first_match, settle, analyze_with,
}

-- The evidence carries the distance of its instant from the slot's start.
abbrev pub IsPlaced : {F : Type 0} → Time → Evidence F → Type 0
IsPlaced slot_start e = e.offset ≡ sub_time e.at slot_start

sub_time_self : (t : Time) → sub_time t t ≡ pos 0
unfolding sub_time
sub_time_self t =
    let e : (t.ns -ℤ t.ns) ≡ pos 0 = eq_of_parts _ _ (omega int_laws) in
    rw e (unfold clamp64 in refl)

map-IsPlaced :
    {F : Type 0} (fl : FloatOps F) (t : Time) (es : List (Evidence F))
    → All (IsPlaced t) (map (with_offset fl t) es)
map-IsPlaced fl t [] = tt
map-IsPlaced fl t (e ∷ es) = (refl, map-IsPlaced fl t es)

module _ {F : Type 0} (fl : FloatOps F) (tl : Timeline F) where
  -- The slot of the timeline, the version of the engine, and every piece of evidence placed.
  pub record IsStamped (v : Verdict F) : Type 0 where
    pub of_slot : v.slot ≡ tl.slot
    pub versioned : v.engine_version ≡ engine_version
    pub placed : All (IsPlaced tl.slot_start) v.evidence

  stamp-IsStamped :
      (v : Verdict F) (o : Outcome) (f : Option RewardFlags)
      → IsStamped (stamped fl (stamp fl tl v o f))
  stamp-IsStamped v o f = elim (Bool-cases (str_eq v.taxonomy "")) [
    | inl e ↦ rw e (record {
      of_slot = refl;
      versioned = refl;
      placed = map-IsPlaced fl tl.slot_start v.evidence;
    })
    | inr e ↦ rw e (record {
      of_slot = refl;
      versioned = refl;
      placed = map-IsPlaced fl tl.slot_start v.evidence;
    })
  ]

  finish-IsStamped :
      (v : Verdict F) (o : Outcome) (f : Option RewardFlags) → IsStamped (finish fl tl v o f)
  unfolding finish safe_fallback
  finish-IsStamped v o f = elim (Result-cases (new_verdict fl (stamp fl tl v o f))) [
    | inl (e, p) ↦
        rw (p, finish, safe_fallback)
          (record {
            of_slot = refl;
            versioned = refl;
            placed = (sym (sub_time_self tl.slot_start), tt);
          })
    | inr (w, p) ↦
        rw (p, finish) (subst IsStamped (sym (new_verdict-ok fl _ w p).1) (stamp-IsStamped v o f))
  ]

  settle-IsStamped :
      (o : Outcome) (f : Option RewardFlags) (d : Option (Verdict F))
      → IsStamped (settle fl tl o f d)
  settle-IsStamped o f none = finish-IsStamped (engine_bug fl tl) o f
  settle-IsStamped o f (some v) = elim (Bool-cases (is_ok o && cause_eq v.cause no_rule_matched)) [
    | inl e ↦ rw e (finish-IsStamped (clean_pass fl tl) o f)
    | inr e ↦ rw e (finish-IsStamped v o f)
  ]

  -- For any rules, the verdict that is emitted has the slot of the timeline and the version of the
  -- engine, and each piece of its evidence has the distance of its instant from the slot's start.
  pub analyze_with-IsStamped :
      (cfg : Config F) (rules : List (Rule F)) → IsStamped (analyze_with fl tl cfg rules)
  unfolding analyze_with
  analyze_with-IsStamped cfg rules = elim (Bool-cases (is_no_duty (derive_outcome tl).0)) [
    | inl e ↦ rw (e, analyze_with) (finish-IsStamped (nothing_owed fl tl) _ none)
    | inr e ↦ rw (e, analyze_with) (settle-IsStamped _ _ (first_match fl tl cfg rules))
  ]
