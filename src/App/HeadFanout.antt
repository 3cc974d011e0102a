-- ===== src/App/HeadFanout.antt =====
-- internal/app/headfanout.go: one head_updated observation is offered to every wired collector. A
-- channel is the queue of its buffer; a nil channel is `none`.
use whymiss.Prelude.{
  ℕ, Bool, true, false, not, List, [], ◌∷◌, ◌++◌, Option, none, some, String, length, ltb,
  if◌then◌else◌,
}
use whymiss.Domain.Kinds.{head_updated}
use whymiss.Domain.Observation.{Observation}
use whymiss.Domain.Timeline.{is_kind}

pub record Channel : Type 0 where
  pub buffer : List Observation
  pub capacity : ℕ

pub record HeadFanout : Type 0 where
  pub timing : Option Channel
  pub baseline : Option Channel

-- A non-blocking send: the channel after it, and whether the head was dropped.
abbrev pub offer : Observation → Option Channel → Option Channel × Bool
offer head none = (none, false)
offer head (some c) =
    if ltb (length c.buffer) c.capacity
    then (some (record c { buffer = c.buffer ++ (head ∷ []) }), false)
    else (some c, true)

abbrev dropped : Bool → String → List String
dropped true what = what ∷ []
dropped false what = []

-- The collectors that the log says dropped the head.
unfoldable pub send : Observation → HeadFanout → HeadFanout × List String
send head f =
    if not (is_kind head_updated head)
    then (f, [])
    else let timing = offer head f.timing in
      let baseline = offer head f.baseline in
      (
        record { timing = timing.0; baseline = baseline.0 },
        dropped timing.1 "block timing" ++ dropped baseline.1 "network baseline",
      )
