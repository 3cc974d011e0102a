-- ===== src/HostMetrics.antt =====
-- internal/source/hostmetrics: CPU steal from /proc/stat and pressure from /proc/pressure. The file's
-- content, an ASCII text as the list of its bytes, and the instant are arguments.
pub mod Cpu
pub mod Pressure
use whymiss.Prelude.{ℕ, Bool, true, false, List, [], ◌∷◌, Option, none, some, ◌==◌, if◌then◌else◌}
use whymiss.Prelude.Text.{is_space}

-- `strings.Fields`: whether the text starts within a word, and its words.
abbrev pub put_char : ℕ → Bool × List (List ℕ) → Bool × List (List ℕ)
put_char c (true, w ∷ ws) = (true, (c ∷ w) ∷ ws)
put_char c (_, ws) = (true, (c ∷ []) ∷ ws)

unfoldable pub words : List ℕ → Bool × List (List ℕ)
words [] = (false, [])
words (c ∷ s) = let rest = words s in if is_space c then (false, rest.1) else put_char c rest

unfoldable pub fields : List ℕ → List (List ℕ)
unfolding words
fields s = (words s).1

-- `strings.Split(s, "\n")`: never empty.
abbrev pub put_in_line : ℕ → List (List ℕ) → List (List ℕ)
put_in_line c [] = (c ∷ []) ∷ []
put_in_line c (l ∷ ls) = (c ∷ l) ∷ ls

unfoldable pub split_lines : List ℕ → List (List ℕ)
split_lines [] = [] ∷ []
split_lines (c ∷ s) = let rest = split_lines s in if c == 10 then [] ∷ rest else put_in_line c rest
