-- ===== src/HostMetrics/Pressure.antt =====
-- internal/source/hostmetrics/pressure.go: the `some avg10` figure of a PSI file.
use whymiss.Prelude.{
  ℕ, Bool, false, ◌||◌, not, List, [], ◌∷◌, Option, none, some, String, ◌==◌, if◌then◌else◌,
}
use whymiss.Prelude.Int.{pos}
use whymiss.Prelude.Text.{codes}
use whymiss.Prelude.Time.{Time, zero_time}
use whymiss.Prelude.Order.{codes_eq}
use whymiss.Prelude.Float.{FloatOps, not_finite}
use whymiss.Domain.Slot.{hostmetrics}
use whymiss.Domain.Sample.{MetricSample, host}
use whymiss.Domain.Sample
use whymiss.HostMetrics.{fields, split_lines}

-- `strings.CutPrefix`: what follows the prefix.
abbrev pub cut_prefix : List ℕ → List ℕ → Option (List ℕ)
cut_prefix [] s = some s
cut_prefix (p ∷ ps) [] = none
cut_prefix (p ∷ ps) (c ∷ s) = let rest = cut_prefix ps s in if p == c then rest else none

-- The value of the first field with the prefix.
abbrev pub avg10_field : List (List ℕ) → Option (List ℕ)
avg10_field [] = none
avg10_field (f ∷ fs) = elim (cut_prefix (codes "avg10=") f) [
  | some value ↦ some value
  | none ↦ avg10_field fs
]

-- The fields after "some" on the first line that starts with it.
abbrev pub is_some_line : List (List ℕ) → Bool
is_some_line [] = false
is_some_line (f ∷ fs) = codes_eq f (codes "some")

abbrev pub rest_of : List (List ℕ) → List (List ℕ)
rest_of [] = []
rest_of (f ∷ fs) = fs

abbrev pub some_line : List (List ℕ) → Option (List (List ℕ))
some_line [] = none
some_line (l ∷ ls) =
    let rest = some_line ls in if is_some_line (fields l) then some (rest_of (fields l)) else rest

module _ {F : Type 0} (fl : FloatOps F) (parse_float : List ℕ → Option F) where
  abbrev pub in_percent : F → Bool
  in_percent v = not (not_finite fl v || fl.lt v (fl.lit (pos 0) 0) || fl.lt (fl.lit (pos 100) 0) v)

  -- `strconv.ParseFloat` on the bytes is a parameter.
  unfoldable pub parse_psi_some_avg10 : List ℕ → Option F
  unfolding fields split_lines
  parse_psi_some_avg10 output = elim (some_line (split_lines output)) [
    | none ↦ none
    | some fs ↦ elim (avg10_field fs) [
      | none ↦ none
      | some value ↦ elim (parse_float value) [
        | none ↦ none
        | some avg10 ↦ if in_percent avg10 then some avg10 else none
      ]
    ]
  ]

  abbrev pub pressure_of : Time → String → F → MetricSample F
  pressure_of now name avg10 = record {
    at = now;
    component = host;
    name = name;
    value = avg10;
    clock_offset = pos 0;
    clock_measured = false;
    clock_sample_at = zero_time;
    source = hostmetrics;
  }

  -- A file that cannot be read is `none`.
  unfoldable pub sample_pressure : Time → String → Option (List ℕ) → Option (MetricSample F)
  unfolding parse_psi_some_avg10
  sample_pressure now name none = none
  sample_pressure now name (some content) = elim (parse_psi_some_avg10 content) [
    | none ↦ none
    | some avg10 ↦ elim (Sample.validate fl (pressure_of now name avg10)) [
      | some e ↦ none
      | none ↦ some (pressure_of now name avg10)
    ]
  ]

  unfoldable pub sample_io_pressure : Time → Option (List ℕ) → Option (MetricSample F)
  unfolding sample_pressure
  sample_io_pressure now content = sample_pressure now "host_iowait_pct" content

  unfoldable pub sample_memory_pressure : Time → Option (List ℕ) → Option (MetricSample F)
  unfolding sample_pressure
  sample_memory_pressure now content = sample_pressure now "host_mem_pressure_pct" content
