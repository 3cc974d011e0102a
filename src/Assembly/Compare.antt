-- ===== src/Assembly/Compare.antt =====
-- internal/timeline/assembler.go: the comparisons that `sortObservations` and `sortSamples` pass to
-- `sort.SliceStable`, and the encoding of attributes that breaks ties.
use whymiss.Prelude.{ℕ, ◌==◌, Bool, List, [], ◌∷◌, ◌++◌, map, Option, none, some, String, ltb}
use whymiss.Prelude.Int.{ltb_ℤ, eqb_ℤ}
use whymiss.Prelude.Text.{byte_len, codes, decimal}
use whymiss.Prelude.Time.{before}
use whymiss.Prelude.Float.{FloatOps}
use whymiss.Prelude.Order.{chain, codes_lt, codes_eq, flag_lt, flag_eq}
use whymiss.Prelude.Sorting.{sort_by}
use whymiss.Domain.Attrs.{AttrKey}
use whymiss.Domain.Observation.{Observation, Attrs, lookup_attr}
use whymiss.Domain.Sample.{MetricSample}
use whymiss.Assembly.Texts.{kind_text, attr_text, source_text, component_text}

abbrev attr_codes : AttrKey → List ℕ
attr_codes key = codes (attr_text key)

abbrev or_empty : Option String → String
or_empty none = ""
or_empty (some s) = s

-- `%d:%s%d:%s`: key and value, each after its length in bytes.
abbrev encode_entry : String → String → List ℕ
encode_entry key value =
    decimal (byte_len key) ++ (58 ∷ codes key) ++ decimal (byte_len value) ++ (58 ∷ codes value)

abbrev encode_entries : Attrs → List AttrKey → List ℕ
encode_entries attrs [] = []
encode_entries attrs (k ∷ ks) =
    encode_entry (attr_text k) (or_empty (lookup_attr k attrs)) ++ encode_entries attrs ks

abbrev key_lt : AttrKey → AttrKey → Bool
key_lt a b = codes_lt (attr_codes a) (attr_codes b)

unfoldable pub encode_attrs : Attrs → List ℕ
encode_attrs attrs =
    encode_entries attrs (sort_by key_lt (map (λ (e : AttrKey × String). e.0) attrs))

unfoldable pub observation_less : Observation → Observation → Bool
observation_less a b = chain (eqb_ℤ a.at.ns b.at.ns) (before a.at b.at) (
    chain (codes_eq (codes (kind_text a.kind)) (codes (kind_text b.kind)))
      (codes_lt (codes (kind_text a.kind)) (codes (kind_text b.kind)))
      (chain (codes_eq (codes (source_text a.source)) (codes (source_text b.source)))
        (codes_lt (codes (source_text a.source)) (codes (source_text b.source)))
        (chain (codes_eq (encode_attrs a.attrs) (encode_attrs b.attrs))
          (codes_lt (encode_attrs a.attrs) (encode_attrs b.attrs))
          (chain (flag_eq a.clock_measured b.clock_measured)
            (flag_lt a.clock_measured b.clock_measured)
            (chain (eqb_ℤ a.clock_offset b.clock_offset) (ltb_ℤ a.clock_offset b.clock_offset)
              (before a.clock_sample_at b.clock_sample_at))))))

unfoldable pub sort_observations : List Observation → List Observation
sort_observations obs = sort_by observation_less obs

-- `math.Float64bits` is a parameter.
module _ {F : Type 0} (fl : FloatOps F) (bits : F → ℕ) where
  unfoldable pub sample_less : MetricSample F → MetricSample F → Bool
  sample_less a b = chain (eqb_ℤ a.at.ns b.at.ns) (before a.at b.at) (
      chain (codes_eq (codes (component_text a.component)) (codes (component_text b.component)))
        (codes_lt (codes (component_text a.component)) (codes (component_text b.component)))
        (chain (codes_eq (codes a.name) (codes b.name)) (codes_lt (codes a.name) (codes b.name)) (
          chain (codes_eq (codes (source_text a.source)) (codes (source_text b.source)))
            (codes_lt (codes (source_text a.source)) (codes (source_text b.source)))
            (chain (fl.eq a.value b.value) (fl.lt a.value b.value) (
              chain (bits a.value == bits b.value) (ltb (bits a.value) (bits b.value)) (
                chain (flag_eq a.clock_measured b.clock_measured)
                  (flag_lt a.clock_measured b.clock_measured)
                  (chain (eqb_ℤ a.clock_offset b.clock_offset) (ltb_ℤ a.clock_offset b.clock_offset)
                    (before a.clock_sample_at b.clock_sample_at))))))))

  unfoldable pub sort_samples : List (MetricSample F) → List (MetricSample F)
  sort_samples samples = sort_by sample_less samples
