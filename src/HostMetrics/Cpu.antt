-- ===== src/HostMetrics/Cpu.antt =====
-- internal/source/hostmetrics/cpu.go: the share of CPU time that the hypervisor withheld between two
-- reads of /proc/stat.
use Prim.Native.Nat.{◌-◌}
use whymiss.Prelude.{
  ℕ, zero, suc, ◌+◌, ◌^◌, ◌==◌, ◌≤◌, ◌<◌, false, ◌||◌, not, List, [], ◌∷◌, Option, none, some, ◌≡◌,
  refl, arith, length, ltb, if◌then◌else◌,
}
use whymiss.Prelude.Int.{pos}
use whymiss.Prelude.Text.{codes, parse_digits, below, is_space, digits_value}
use whymiss.Prelude.Time.{Time, zero_time}
use whymiss.Prelude.Order.{codes_eq}
use whymiss.Prelude.Float.{FloatOps}
use whymiss.Domain.Slot.{hostmetrics, max_uint64}
use whymiss.Domain.Sample.{MetricSample, host}
use whymiss.Domain.Sample
use whymiss.HostMetrics.{fields, split_lines}

abbrev pub cpu_stat_fields : ℕ
cpu_stat_fields = 10

abbrev pub steal_field_index : ℕ
steal_field_index = 7

pub record CpuTicks : Type 0 where
  pub total : ℕ
  pub steal : ℕ

-- The first `n` fields, each a uint64.
abbrev pub parse_fields : ℕ → List (List ℕ) → Option (List ℕ)
parse_fields zero fs = some []
parse_fields (suc n) [] = none
parse_fields (suc n) (f ∷ fs) = elim (below (2 ^ 64) (parse_digits f)) [
  | none ↦ none
  | some v ↦ elim (parse_fields n fs) [ none ↦ none | some vs ↦ some (v ∷ vs) ]
]

-- The sum of the first `n` values, unless it overflows a uint64.
abbrev pub sum_ticks : ℕ → ℕ → List ℕ → Option ℕ
sum_ticks zero total vs = some total
sum_ticks (suc n) total [] = some total
sum_ticks (suc n) total (v ∷ vs) =
    let rest = sum_ticks n (total + v) vs in if ltb (max_uint64 - total) v then none else rest

abbrev pub nth_value : ℕ → List ℕ → ℕ
nth_value n [] = 0
nth_value zero (v ∷ vs) = v
nth_value (suc n) (v ∷ vs) = nth_value n vs

abbrev pub ticks_of : List ℕ → Option CpuTicks
ticks_of values = elim (sum_ticks (suc steal_field_index) 0 values) [
  | none ↦ none
  | some total ↦ some (record { total = total; steal = nth_value steal_field_index values })
]

abbrev pub parse_cpu : List (List ℕ) → Option CpuTicks
parse_cpu [] = none
parse_cpu (name ∷ fs) =
    if not (codes_eq name (codes "cpu"))
    then none
    else if ltb (length fs) cpu_stat_fields
    then none
    else elim (parse_fields cpu_stat_fields fs) [ none ↦ none | some values ↦ ticks_of values ]

abbrev pub first_line : List (List ℕ) → List ℕ
first_line [] = []
first_line (l ∷ ls) = l

-- A file that cannot be read is `none`.
unfoldable pub read_cpu_ticks : Option (List ℕ) → Option CpuTicks
unfolding fields split_lines
read_cpu_ticks none = none
read_cpu_ticks (some content) = parse_cpu (fields (first_line (split_lines content)))

-- `prev` and `hasPrev` in one.
pub record CpuSteal : Type 0 where
  pub prev : Option CpuTicks

pub data CpuSample (F : Type 0) : Type 0 where
  cpu_sampled : MetricSample F → CpuSample F
  first_read cpu_error : CpuSample F

module _ {F : Type 0} (fl : FloatOps F) where
  abbrev pub steal_sample : Time → ℕ → ℕ → MetricSample F
  steal_sample now steal total = record {
    at = now;
    component = host;
    name = "host_cpu_steal_pct";
    value = fl.mul (fl.div (fl.of_int (pos steal)) (fl.of_int (pos total))) (fl.lit (pos 100) 0);
    clock_offset = pos 0;
    clock_measured = false;
    clock_sample_at = zero_time;
    source = hostmetrics;
  }

  abbrev pub validated_sample : MetricSample F → CpuSample F
  validated_sample m = elim (Sample.validate fl m) [ some e ↦ cpu_error | none ↦ cpu_sampled m ]

  unfoldable pub steal_between : Time → CpuTicks → CpuTicks → CpuSample F
  steal_between now prev ticks =
      if ltb ticks.total prev.total || ltb ticks.steal prev.steal
      then cpu_error
      else if ticks.total - prev.total == 0
      then cpu_error
      else if ltb (ticks.total - prev.total) (ticks.steal - prev.steal)
      then cpu_error
      else validated_sample (steal_sample now (ticks.steal - prev.steal) (ticks.total - prev.total))

  -- A failed read leaves the state; any other replaces the previous read, whatever is returned.
  unfoldable pub sample : Time → Option (List ℕ) → CpuSteal → CpuSteal × CpuSample F
  unfolding read_cpu_ticks steal_between
  sample now content c = elim (read_cpu_ticks content) [
    | none ↦ (c, cpu_error)
    | some ticks ↦ (
      record { prev = some ticks },
      elim c.prev [ none ↦ first_read | some prev ↦ steal_between now prev ticks ],
    )
  ]

  -- A sample is returned only where neither counter went back, time passed, and no more was withheld
  -- than passed.
  pub steal_between-sampled :
      (now : Time) (prev ticks : CpuTicks) (m : MetricSample F)
      → steal_between now prev ticks ≡ cpu_sampled m
      → (prev.total < ticks.total)
        × (prev.steal ≤ ticks.steal)
        × (ticks.steal + prev.total ≤ ticks.total + prev.steal)
  unfolding steal_between
  steal_between-sampled now prev ticks m h = (ground arith, ground arith, ground arith)

content_example :
    read_cpu_ticks (some (codes "cpu  10 1 5 80 2 0 1 9 3 3\ncpu0 1 2 3 4 5 6 7 8 9 10\n"))
    ≡ some (record { total = 108; steal = 9 })
unfolding read_cpu_ticks is_space digits_value
content_example = refl
