-- ===== src/App/BlockTiming.antt =====
-- internal/app/blocktiming.go: the arrival of a block as an observation.
use whymiss.Prelude.{ℕ, ◌==◌, false, not, [], ◌∷◌, Option, none, some, String, if◌then◌else◌}
use whymiss.Prelude.Int.{pos}
use whymiss.Prelude.Time.{Time, Duration, add_time, after, zero_time}
use whymiss.Prelude.Float.{FloatOps}
use whymiss.Domain.Errors.{Result, err, invalid}
use whymiss.Domain.Slot.{promscrape}
use whymiss.Domain.Kinds.{head_updated, block_seen}
use whymiss.Domain.Attrs.{block_root}
use whymiss.Domain.Observation.{Observation, Attrs, lookup_attr, new_observation}
use whymiss.Domain.Timeline.{is_kind}
use whymiss.Beacon.Genesis.{GenesisInfo, start_of_slot}

-- internal/source/promscrape/blocktiming.go
pub record BlockTiming : Type 0 where
  pub slot : ℕ
  pub propagation : Duration
  pub sampled_at : Time

abbrev pub root_of : Option String → Attrs
root_of none = []
root_of (some root) = (block_root, root) ∷ []

unfoldable pub arrival_draft : Observation → Time → Observation
arrival_draft head block_at = record {
  slot = head.slot;
  kind = block_seen;
  at = block_at;
  clock_offset = pos 0;
  clock_measured = false;
  clock_sample_at = zero_time;
  source = promscrape;
  attrs = root_of (lookup_attr block_root head.attrs);
}

module _ {F : Type 0} (fl : FloatOps F) where
  unfoldable pub block_seen_from_timing :
      Observation → BlockTiming → GenesisInfo → Result Observation
  unfolding start_of_slot arrival_draft
  block_seen_from_timing head timing genesis =
      let block_at = add_time (start_of_slot genesis head.slot) timing.propagation in
      if not (is_kind head_updated head)
      then err invalid
      else if not (timing.slot == head.slot)
      then err invalid
      else if after block_at head.at
      then err invalid
      else new_observation fl (arrival_draft head block_at)
