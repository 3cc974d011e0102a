-- ===== src/App/EngineWindows.antt =====
-- internal/app/blocktiming.go: the tracker that turns snapshots of the Engine counters, one after
-- each canonical head, into the calls of one slot.
use whymiss.Prelude.{
  ℕ, ◌+◌, ◌-◌, ◌≤◌, ◌==◌, Bool, true, ◌||◌, not, List, [], ◌∷◌, Option, none, some, leb, ◌≡◌, refl,
  sym, subst, arith, if◌then◌else◌, ap,
}
use whymiss.Prelude.Float.{FloatOps}
use whymiss.Scrape.{EngineCounters, EngineCallWindow, window, engine_calls_between}

pub record EngineWindowTracker (F : Type 0) : Type 0 where
  pub ready : Bool
  pub slot : ℕ
  pub counters : EngineCounters F

-- The calls of the slot, no evidence, or an error.
pub data Advance (F : Type 0) : Type 0 where
  windows : List (EngineCallWindow F) → Advance F
  warm_up advance_error : Advance F

module _ {F : Type 0} (fl : FloatOps F) (sub : F → F → F) where
  abbrev pub advance_of : Option (List (EngineCallWindow F)) → Advance F
  advance_of none = advance_error
  advance_of (some calls) = windows calls

  -- The new snapshot replaces the previous one whatever is returned.
  unfoldable pub advance :
      ℕ → EngineCounters F → EngineWindowTracker F → EngineWindowTracker F × Advance F
  unfolding engine_calls_between
  advance slot later t = (
    record { ready = true; slot = slot; counters = later },
    if not t.ready
        then warm_up
        else if leb slot t.slot || not (slot - t.slot == 1)
        then warm_up
        else advance_of (engine_calls_between fl sub t.counters later),
  )

  -- The tracker over the snapshots of a run, in their order.
  abbrev pub advance_all :
      List (ℕ × EngineCounters F) → EngineWindowTracker F → EngineWindowTracker F × List (Advance F)
  advance_all [] t = (t, [])
  advance_all ((slot, later) ∷ rest) t =
      let (next, a) = advance slot later t in
      let (end, answers) = advance_all rest next in (end, a ∷ answers)

-- The calls that a run attributes to slots.
module _ {F : Type 0} where
  abbrev pub calls_of : List (EngineCallWindow F) → ℕ
  calls_of [] = 0
  calls_of (w ∷ ws) = w.calls + calls_of ws

  abbrev pub attributed : List (Advance F) → ℕ
  attributed [] = 0
  attributed (windows ws ∷ rest) = calls_of ws + attributed rest
  attributed (warm_up ∷ rest) = attributed rest
  attributed (advance_error ∷ rest) = attributed rest

  -- The calls that a snapshot counts.
  abbrev pub counted : EngineCounters F → ℕ
  counted c = c.new_payload.count + c.forkchoice_updated.count

  -- Neither counter ever goes back.
  abbrev pub Grows : EngineCounters F → List (ℕ × EngineCounters F) → Type 0
  Grows c [] = Unit
  Grows c ((slot, later) ∷ rest) =
      (c.new_payload.count ≤ later.new_payload.count)
      × (c.forkchoice_updated.count ≤ later.forkchoice_updated.count)
      × Grows later rest

module _ {F : Type 0} (fl : FloatOps F) (sub : F → F → F) where
  attributed-cons :
      (a : Advance F) (rest : List (Advance F))
      → attributed (a ∷ rest) ≡ attributed (a ∷ []) + attributed rest
  attributed-cons (windows ws) rest = omega arith
  attributed-cons warm_up rest = omega arith
  attributed-cons advance_error rest = omega arith

  -- One advance attributes no more than the counters grew.
  advance-attributed :
      (slot : ℕ) (later : EngineCounters F) (t : EngineWindowTracker F)
      → t.counters.new_payload.count ≤ later.new_payload.count
      → t.counters.forkchoice_updated.count ≤ later.forkchoice_updated.count
      → attributed ((advance fl sub slot later t).1 ∷ []) + counted t.counters ≤ counted later
  unfolding advance engine_calls_between window
  advance-attributed slot later t p f = ground arith

  advance-kept :
      (slot : ℕ) (later : EngineCounters F) (t : EngineWindowTracker F)
      → (advance fl sub slot later t).0.counters ≡ later
  unfolding advance
  advance-kept slot later t = refl

  -- Over snapshots whose counters never go back, the calls that the tracker attributes to slots, from
  -- whatever state it starts, are at most those by which the two counters grew: no call is counted
  -- for two slots.
  pub advance_all-attributed :
      (xs : List (ℕ × EngineCounters F)) (t : EngineWindowTracker F)
      → Grows t.counters xs
      → attributed (advance_all fl sub xs t).1 + counted t.counters
        ≤ counted (advance_all fl sub xs t).0.counters
  advance_all-attributed [] t h = omega arith
  advance_all-attributed ((slot, later) ∷ rest) t (p, f, g) =
      let (next, a) = advance fl sub slot later t in
      let one = advance-attributed slot later t p f in
      let kept = advance-kept slot later t in
      let rests = advance_all-attributed rest next (subst (λ c. Grows c rest) (sym kept) g) in
      let cons = attributed-cons a (advance_all fl sub rest next).1 in
      let same = ap counted kept in omega (arith, one, rests, cons, same)
