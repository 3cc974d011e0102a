-- ===== src/Assembly/Conserved.antt =====
-- internal/timeline/replay.go: a replayed timeline holds what was recorded, each observation once.
use whymiss.Prelude.{
  ℕ, Bool, true, not, List, [], ◌∷◌, ◌++◌, Option, none, some, ◌≡◌, refl, ap, sym, subst, ◌∙◌,
  arith, All, Bool-cases, Option-cases, inl, inr, keep, find_first, if◌then◌else◌,
}
use whymiss.Prelude.Time.{Time}
use whymiss.Prelude.Float.{FloatOps}
use whymiss.Prelude.Sorting.{sort_by-perm}
use whymiss.Prelude.Permuted.{keep-perm}
use whymiss.Domain.Errors.{ok, Result-cases}
use whymiss.Domain.Schedule.{SlotSchedule}
use whymiss.Domain.Kinds.{slot_start}
use whymiss.Domain.Observation.{Observation}
use whymiss.Domain.Sample.{MetricSample}
use whymiss.Domain.Timeline.{Timeline, is_kind, new_timeline}
use whymiss.Assembly.Compare.{sample_less, sort_samples}
use whymiss.Assembly.Store.{
  stored, IsFiled, of_slot, later_reorg, bucket-eq, later_reorgs-eq, file-IsFiled, stored-file,
}
use whymiss.Assembly.Independence.{sort_observations-perm}
use whymiss.Assembly.Replay.{
  all_belong, with_network, with_duty, replay_one, replay_all, add_samples, replay_with_samples,
  finish_replay,
}
use whymiss.Assembly.{
  Assembler, new_assembler, set_network, add_observation, add_sample, set_duty, bucket, file,
  later_reorgs, draft, build,
}
use mathlib.Core.List.{Perm, perm_middle, append_assoc, append-nil}
use mathlib.Core.List.Perm

module _ {F : Type 0} (fl : FloatOps F) where
  -- What an assembler stores besides duties, baselines and the schedule.
  abbrev Stores : Assembler F → List (ℕ × List Observation) → List (MetricSample F) → Type 0
  Stores a es ms = (a.observations ≡ es) × (a.samples ≡ ms)

  with_network-Stores :
      (o : Observation) (a b : Assembler F)
      → with_network fl o a ≡ ok b
      → Stores b a.observations a.samples
  unfolding set_network
  with_network-Stores o a b h = (ground arith, ground arith)

  with_duty-Stores :
      (slot : ℕ) (o : Observation) (a b : Assembler F)
      → with_duty fl slot o a ≡ ok b
      → Stores b a.observations a.samples
  unfolding set_duty
  with_duty-Stores slot o a b h = (ground arith, ground arith)

  replay_one-Stores :
      (slot : ℕ) (o : Observation) (a b : Assembler F)
      → replay_one fl slot o a ≡ ok b
      → Stores b (file o a.observations) a.samples
  unfolding replay_one add_observation
  replay_one-Stores slot o a b h = elim (Result-cases (with_network fl o (add_observation o a))) [
    | inl (e, p) ↦ absurd (ground arith)
    | inr (c, p) ↦
        let (n, m) = with_network-Stores o (add_observation o a) c p in
        let (u, v) = with_duty-Stores slot o c b (ground arith) in (u ∙ n, v ∙ m)
  ]

  -- The loop files every observation, and leaves the samples.
  replay_all-holds :
      (slot : ℕ) (os : List Observation) (a b : Assembler F) (start end : Option Time)
      → IsFiled a.observations
      → replay_all fl slot os a start ≡ ok (b, end)
      → IsFiled b.observations
        × Perm (stored b.observations) (os ++ stored a.observations)
        × (b.samples ≡ a.samples)
  unfolding replay_all
  replay_all-holds slot [] a b start end f h =
      let e : a ≡ b = ground arith in
      (
        subst (λ (c : Assembler F). IsFiled c.observations) e f,
        subst (λ (c : Assembler F). Perm (stored c.observations) (stored a.observations)) e
            Perm.rfl,
        ap (λ (c : Assembler F). c.samples) (sym e),
      )
  replay_all-holds slot (o ∷ os) a b start end f h = elim (Result-cases (replay_one fl slot o a)) [
    | inl (e, p) ↦ absurd (ground arith)
    | inr (c, p) ↦
        let (n, m) = replay_one-Stores slot o a c p in
        let g : IsFiled c.observations = subst IsFiled (sym n) (file-IsFiled o a.observations f) in
        let (i, q, s) =
          replay_all-holds slot os c b (if is_kind slot_start o then some o.at else start) end g
            (rw (p, replay_all) at h) in
        let added : Perm (stored c.observations) (o ∷ stored a.observations) =
          rw n (stored-file o a.observations) in
        (
          i,
          Perm.trans q
              (Perm.trans (Perm.append_left os added) (perm_middle os (stored a.observations))),
          s ∙ m,
        )
  ]

  add_samples-Stores :
      (ms : List (MetricSample F)) (a : Assembler F)
      → Stores (add_samples ms a) a.observations (a.samples ++ ms)
  unfolding add_sample
  add_samples-Stores [] a = (refl, sym (append-nil a.samples))
  add_samples-Stores (m ∷ ms) a =
      let (n, s) = add_samples-Stores ms (add_sample m a) in
      (n, s ∙ append_assoc a.samples (m ∷ []) ms)

-- Two tests of which each element passes exactly one part a list.
keep-parts :
    {A : Type 0} (p q : A → Bool) (l : List A)
    → All (λ (a : A). q a ≡ not (p a)) l
    → Perm (keep p l ++ keep q l) l
keep-parts p q [] h = Perm.rfl
keep-parts p q (x ∷ xs) (h, hs) = elim (Bool-cases (p x)) [
  | inl e ↦ rw (h, e) (Perm.cons x (keep-parts p q xs hs))
  | inr e ↦
      rw (h, e)
        (Perm.trans (perm_middle (keep p xs) (keep q xs)) (Perm.cons x (keep-parts p q xs hs)))
]

belongs-parts :
    (slot : ℕ) (os : List Observation)
    → all_belong slot os ≡ true
    → All (λ (o : Observation). later_reorg slot o ≡ not (of_slot slot o)) os
belongs-parts slot [] h = tt
belongs-parts slot (o ∷ os) h = (ground arith, belongs-parts slot os (ground arith))

module _ {F : Type 0} (fl : FloatOps F) (bits : F → ℕ) where
  draft-parts :
      (a : Assembler F) (slot : ℕ) (start : Time) (os : List Observation)
      → IsFiled a.observations
      → Perm (stored a.observations) os
      → all_belong slot os ≡ true
      → Perm ((draft fl bits a slot start).observations ++ (draft fl bits a slot start).reorgs) os
  unfolding draft
  draft-parts a slot start os f q b =
      let es = a.observations in
      Perm.trans
        (Perm.append (sort_observations-perm (bucket slot es))
          (sort_observations-perm (later_reorgs slot es)))
        (rw (bucket-eq slot es f, later_reorgs-eq slot es f)
          (Perm.trans (Perm.append (keep-perm (of_slot slot) q) (keep-perm (later_reorg slot) q))
            (keep-parts (of_slot slot) (later_reorg slot) os (belongs-parts slot os b))))

  draft-samples :
      (a : Assembler F) (slot : ℕ) (start : Time)
      → Perm (draft fl bits a slot start).samples a.samples
  unfolding draft sort_samples
  draft-samples a slot start = sort_by-perm (sample_less fl bits) a.samples

  build-draft :
      (a : Assembler F) (slot : ℕ) (start : Time) (t : Timeline F)
      → build fl bits a slot start ≡ ok t
      → t ≡ draft fl bits a slot start
  unfolding build new_timeline
  build-draft a slot start t h = ground arith

  added :
      (ms : List (MetricSample F)) (schedule : SlotSchedule)
      → Stores fl (add_samples ms (new_assembler schedule)) [] ms
  unfolding new_assembler
  added ms schedule = add_samples-Stores fl ms (new_assembler schedule)

  -- What the loop and the build make of the recorded facts of a slot.
  built-parts :
      (slot : ℕ) (os : List Observation) (ms : List (MetricSample F)) (schedule : SlotSchedule)
      (t : Timeline F)
      → all_belong slot os ≡ true
      → finish_replay fl bits slot
          (replay_all fl slot os (add_samples ms (new_assembler schedule)) none)
        ≡ ok t
      → Perm (t.observations ++ t.reorgs) os × Perm t.samples ms
  built-parts slot os ms schedule t b h =
      elim (Result-cases (replay_all fl slot os (add_samples ms (new_assembler schedule)) none)) [
        | inl (e, p) ↦ absurd (ground arith)
        | inr ((a, none), p) ↦ absurd (ground arith)
        | inr ((a, some start), p) ↦
            let start_from : Assembler F = add_samples ms (new_assembler schedule) in
            let (n, m) = added ms schedule in
            let (f, q, s) =
              replay_all-holds fl slot os start_from a none (some start) (subst IsFiled (sym n) tt)
                p in
            let here : Perm (stored a.observations) os =
              subst (Perm (stored a.observations))
                (ap (λ (es : List (ℕ × List Observation)). os ++ stored es) n ∙ append-nil os) q in
            let e = build-draft a slot start t (rw (p, finish_replay) at h) in
            let ems = s ∙ m in
            rw e (
              draft-parts a slot start os f here b,
              subst (Perm (draft fl bits a slot start).samples) ems (draft-samples a slot start),
            )
      ]

  -- The timeline that `ReplayWithSamples` returns holds each recorded observation once, either among
  -- its observations or among its reorgs, and each recorded sample once.
  pub replay-perm :
      (os : List Observation) (ms : List (MetricSample F)) (schedule : SlotSchedule)
      (t : Timeline F)
      → replay_with_samples fl bits os ms schedule ≡ ok t
      → Perm (t.observations ++ t.reorgs) os × Perm t.samples ms
  unfolding replay_with_samples
  replay-perm [] ms schedule t h = absurd (ground arith)
  replay-perm (o ∷ os) ms schedule t h =
      elim (Option-cases (find_first (is_kind slot_start) (o ∷ os))) [
        | inl e ↦ absurd (ground arith)
        | inr (first, e) ↦
            built-parts first.slot (o ∷ os) ms schedule t (ground arith) (ground arith)
      ]
