-- ===== src/Rca/Facts/Calls.antt =====
-- The Engine API calls that internal/rca/rules/helpers.go reads off a timeline.
use whymiss.Prelude.{
  true_ne_false, sym, ◌==◌, Bool, true, false, ◌&&◌, List, [], ◌∷◌, some, String, ◌≡◌, ap, ◌∙◌, ◌⊎◌,
  inl, inr, arith, ◌<◌, Option-cases, All, length, count_of,
}
use whymiss.Prelude.Int.{pos}
use whymiss.Prelude.Text.{str_eq, str_eq_iff}
use whymiss.Prelude.Float.{FloatOps, not_finite}
use whymiss.Domain.Attrs.{engine_method_new_payload, engine_method_forkchoice_updated}
use whymiss.Domain.Observation.{Observation}
use whymiss.Domain.Timeline.{Timeline}
use whymiss.Rca.Facts.{
  EngineCall, parse_call, calls_of, engine_calls, calls_method, complete_engine_calls,
}

module _ {F : Type 0} (fl : FloatOps F) where
  -- A call of one of the two methods, sampled at least once, with a finite duration that is not
  -- negative.
  pub record IsCall (c : EngineCall F) : Type 0 where
    pub method_known :
        (str_eq c.method engine_method_new_payload ≡ true)
        ⊎ (str_eq c.method engine_method_forkchoice_updated ≡ true)
    pub sampled : 0 < c.calls
    pub nonneg : fl.lt c.duration (fl.lit (pos 0) 0) ≡ false
    pub finite : not_finite fl c.duration ≡ false

  parse_call-IsCall : (o : Observation) (c : EngineCall F) → parse_call fl o ≡ some c → IsCall c
  unfolding parse_call
  parse_call-IsCall o c h = record {
    method_known = ground arith;
    sampled = ground arith;
    nonneg = ground arith;
    finite = ground arith;
  }

  calls_of-All : (os : List Observation) → All IsCall (calls_of fl os)
  unfolding calls_of
  calls_of-All [] = tt
  calls_of-All (o ∷ os) = elim (Option-cases (parse_call fl o)) [
    | inl e ↦ rw (e, calls_of) (calls_of-All os)
    | inr (c, e) ↦ rw (e, calls_of) (parse_call-IsCall o c e, calls_of-All os)
  ]

  abbrev pub IsNewPayload : EngineCall F → Type 0
  IsNewPayload c = c.method ≡ engine_method_new_payload

  abbrev pub IsForkchoiceUpdated : EngineCall F → Type 0
  IsForkchoiceUpdated c = c.method ≡ engine_method_forkchoice_updated

  -- Two calls, one of each method.
  abbrev pub IsPair : List (EngineCall F) → Type 0
  IsPair [] = ⊥
  IsPair (a ∷ []) = ⊥
  IsPair (a ∷ b ∷ []) =
      (IsNewPayload a × IsForkchoiceUpdated b) ⊎ (IsForkchoiceUpdated a × IsNewPayload b)
  IsPair (a ∷ b ∷ c ∷ rest) = ⊥

  abbrev is_complete : List (EngineCall F) → Bool
  is_complete calls =
      length calls == 2
      && (count_of (calls_method fl engine_method_new_payload) calls == 1
          && count_of (calls_method fl engine_method_forkchoice_updated) calls == 1)

  distinct :
      (s : String)
      → str_eq s engine_method_new_payload ≡ true
      → str_eq s engine_method_forkchoice_updated ≡ true
      → ⊥
  distinct s h k =
      let p =
        sym ((str_eq_iff s engine_method_new_payload).0 h)
        ∙ (str_eq_iff s engine_method_forkchoice_updated).0 k in
      true_ne_false (ap (λ t. str_eq t engine_method_new_payload) p)

  is_complete-IsPair : (calls : List (EngineCall F)) → is_complete calls ≡ true → IsPair calls
  is_complete-IsPair [] h = true_ne_false (sym h)
  is_complete-IsPair (a ∷ []) h = true_ne_false (sym h)
  is_complete-IsPair (a ∷ b ∷ []) h = ground (
    arith,
    distinct a.method,
    distinct b.method,
    str_eq_iff a.method engine_method_new_payload,
    str_eq_iff b.method engine_method_new_payload,
    str_eq_iff a.method engine_method_forkchoice_updated,
    str_eq_iff b.method engine_method_forkchoice_updated,
  )
  is_complete-IsPair (a ∷ b ∷ c ∷ rest) h = ground arith

  -- When `completeEngineCalls` succeeds, the calls are one `newPayload` and one
  -- `forkchoiceUpdated`, in either order, and each was sampled at least once and has a finite
  -- duration that is not negative.
  pub complete_engine_calls-IsPair :
      (tl : Timeline F)
      → complete_engine_calls fl tl ≡ true
      → IsPair (engine_calls fl tl) × All IsCall (engine_calls fl tl)
  unfolding complete_engine_calls engine_calls
  complete_engine_calls-IsPair tl h =
      (is_complete-IsPair (engine_calls fl tl) h, calls_of-All tl.observations)
