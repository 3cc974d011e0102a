-- ===== src/Scrape.antt =====
-- internal/source/promscrape/engine.go: the Engine API calls between two snapshots of a client's
-- counters. Subtraction on float64 is a parameter beside the operations of Prelude.Float.
use whymiss.Prelude.{ℕ, ◌-◌, ◌||◌, List, [], ◌∷◌, Option, none, some, String, leb, if◌then◌else◌}
use whymiss.Prelude.Int.{pos}
use whymiss.Prelude.Float.{FloatOps, not_finite}
use whymiss.Prelude.Time.{Time, is_zero, before}

pub record EngineCounter (F : Type 0) : Type 0 where
  pub count : ℕ
  pub sum_ms : F

pub record EngineCounters (F : Type 0) : Type 0 where
  pub sampled_at : Time
  pub new_payload : EngineCounter F
  pub forkchoice_updated : EngineCounter F

pub record EngineCallWindow (F : Type 0) : Type 0 where
  pub at : Time
  pub method : String
  pub calls : ℕ
  pub duration_ms : F

module _ {F : Type 0} (fl : FloatOps F) (sub : F → F → F) where
  -- One round of the loop over the two methods; `none` is an error.
  unfoldable pub window :
      String → Time → EngineCounter F → EngineCounter F → Option (EngineCallWindow F)
  window method now earlier later =
      let duration = sub later.sum_ms earlier.sum_ms in
      if leb later.count earlier.count
      then none
      else if fl.lt duration (fl.of_int (pos 0)) || not_finite fl duration
      then none
      else some (record {
        at = now;
        method = method;
        calls = later.count - earlier.count;
        duration_ms = duration;
      })

  abbrev pub both :
      Option (EngineCallWindow F) → Option (EngineCallWindow F) → Option (List (EngineCallWindow F))
  both none second = none
  both (some first) none = none
  both (some first) (some second) = some (first ∷ second ∷ [])

  unfoldable pub engine_calls_between :
      EngineCounters F → EngineCounters F → Option (List (EngineCallWindow F))
  unfolding window
  engine_calls_between earlier later =
      if is_zero earlier.sampled_at
        || (is_zero later.sampled_at || before later.sampled_at earlier.sampled_at)
      then none
      else both (window "newPayload" later.sampled_at earlier.new_payload later.new_payload) (
          window "forkchoiceUpdated" later.sampled_at earlier.forkchoice_updated
            later.forkchoice_updated)
