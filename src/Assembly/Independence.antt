-- ===== src/Assembly/Independence.antt =====
-- internal/timeline/assembler.go: what `Build` makes of the stored facts does not depend on the
-- order in which they arrived, nor on the order in which `range` meets the slots.
use whymiss.Prelude.{ℕ, Bool, List, map, ◌≡◌, refl}
use whymiss.Prelude.Int.{ℤ}
use whymiss.Prelude.Text.{codes}
use whymiss.Prelude.Time.{Time}
use whymiss.Prelude.Float.{FloatOps}
use whymiss.Prelude.Order.{StrictOrder, text_order, int_order, flag_order, lex}
use whymiss.Prelude.Sorting.{by_key, sort_by-perm, map-sort_by-eq}
use whymiss.Prelude.Permuted.{keep-perm, any-eq}
use whymiss.Domain.Kinds.{collection_completed}
use whymiss.Domain.Observation.{Observation}
use whymiss.Domain.Timeline.{Timeline, is_kind}
use whymiss.Assembly.Texts.{kind_text, source_text}
use whymiss.Assembly.Compare.{
  encode_attrs, observation_less, sort_observations, sample_less, sort_samples,
}
use whymiss.Assembly.Store.{stored, IsFiled, of_slot, bucket-eq, later_reorg, later_reorgs-eq}
use whymiss.Assembly.{Assembler, lookup_slot, bucket, later_reorgs, draft}
use mathlib.Core.List.{Perm}
use mathlib.Core.List.Perm

-- What `sortObservations` compares of an observation.
abbrev pub ObservationKey : Type 0
ObservationKey = ℤ × (List ℕ × (List ℕ × (List ℕ × (Bool × (ℤ × ℤ)))))

abbrev pub observation_key : Observation → ObservationKey
observation_key o = (
  o.at.ns,
  (
    codes (kind_text o.kind),
    (
      codes (source_text o.source),
      (encode_attrs o.attrs, (o.clock_measured, (o.clock_offset, o.clock_sample_at.ns))),
    ),
  ),
)

abbrev key_order : StrictOrder ObservationKey
key_order =
    lex int_order
      (lex text_order (lex text_order (lex text_order (lex flag_order (lex int_order int_order)))))

observation_less-key : observation_less ≡ by_key observation_key key_order.lt
unfolding observation_less
observation_less-key = refl

pub sort_observations-keys :
    (l m : List Observation)
    → Perm l m
    → map observation_key (sort_observations l) ≡ map observation_key (sort_observations m)
unfolding sort_observations observation_less
sort_observations-keys l m p = map-sort_by-eq key_order observation_key l m p

pub sort_observations-perm : (l : List Observation) → Perm (sort_observations l) l
unfolding sort_observations
sort_observations-perm l = sort_by-perm observation_less l

-- Two assemblers that hold the same facts, whatever the order of arrival and of the maps' entries.
pub record SameFacts {F : Type 0} (a b : Assembler F) : Type 0 where
  pub same_schedule : a.schedule ≡ b.schedule
  pub same_duties : (slot : ℕ) → lookup_slot slot a.duties ≡ lookup_slot slot b.duties
  pub same_networks : (slot : ℕ) → lookup_slot slot a.networks ≡ lookup_slot slot b.networks
  pub same_samples : Perm a.samples b.samples
  pub same_observations : Perm (stored a.observations) (stored b.observations)
  pub filed : IsFiled a.observations
  pub filed_too : IsFiled b.observations

-- Two timelines that agree in every field that the comparisons read, and in the samples up to order.
pub record SameView {F : Type 0} (t u : Timeline F) : Type 0 where
  pub slot : t.slot ≡ u.slot
  pub slot_start : t.slot_start ≡ u.slot_start
  pub schedule : t.schedule ≡ u.schedule
  pub duty : t.duty ≡ u.duty
  pub network : t.network ≡ u.network
  pub complete : t.collection_complete ≡ u.collection_complete
  pub observations : map observation_key t.observations ≡ map observation_key u.observations
  pub reorgs : map observation_key t.reorgs ≡ map observation_key u.reorgs
  pub samples : Perm t.samples u.samples

module _ {F : Type 0} (fl : FloatOps F) (bits : F → ℕ) where
  sort_samples-perm :
      (a b : Assembler F)
      → SameFacts a b
      → Perm (sort_samples fl bits a.samples) (sort_samples fl bits b.samples)
  unfolding sort_samples
  sort_samples-perm a b s =
      Perm.trans (sort_by-perm (sample_less fl bits) a.samples)
        (Perm.trans s.same_samples (Perm.symm (sort_by-perm (sample_less fl bits) b.samples)))

  bucket-perm :
      (a b : Assembler F) (slot : ℕ)
      → SameFacts a b
      → Perm (bucket slot a.observations) (bucket slot b.observations)
  bucket-perm a b slot s =
      rw (bucket-eq slot a.observations s.filed, bucket-eq slot b.observations s.filed_too)
        (keep-perm (of_slot slot) s.same_observations)

  later_reorgs-perm :
      (a b : Assembler F) (slot : ℕ)
      → SameFacts a b
      → Perm (later_reorgs slot a.observations) (later_reorgs slot b.observations)
  later_reorgs-perm a b slot s =
      rw
        (
          later_reorgs-eq slot a.observations s.filed,
          later_reorgs-eq slot b.observations s.filed_too,
        )
        (keep-perm (later_reorg slot) s.same_observations)

  -- The timelines that `Build` drafts for a slot from two assemblers that hold the same facts,
  -- filed by slot, have the same slot, start, schedule, duty, baseline and completion flag; their
  -- observations, and their reorgs, agree place by place in every field that `sortObservations`
  -- compares; and their samples are the same up to order.
  pub draft-SameView :
      (a b : Assembler F) (slot : ℕ) (start : Time)
      → SameFacts a b
      → SameView (draft fl bits a slot start) (draft fl bits b slot start)
  unfolding draft
  draft-SameView a b slot start s =
      let p = bucket-perm a b slot s in
      record {
        slot = refl;
        slot_start = refl;
        schedule = s.same_schedule;
        duty = s.same_duties slot;
        network = s.same_networks slot;
        complete = any-eq (is_kind collection_completed) (
            Perm.trans (sort_observations-perm _)
              (Perm.trans p (Perm.symm (sort_observations-perm _))));
        observations = sort_observations-keys _ _ p;
        reorgs = sort_observations-keys _ _ (later_reorgs-perm a b slot s);
        samples = sort_samples-perm a b s;
      }
