-- ===== src/Coverage/Counters.antt =====
-- `changed_counters` of scripts/quality/verify_coverage.py.
pub mod Split
use gas_station.Base.{
  ℕ, ◌+◌, Bool, true, false, ◌&&◌, Option, none, some, List, [], ◌∷◌, ltb, eq_nat, if◌then◌else◌,
}

-- The counters of a line: missed and covered instructions, missed and covered branches.
pub record Line : Type 0 where
  pub missed : ℕ
  pub covered : ℕ
  pub missed_branches : ℕ
  pub covered_branches : ℕ

pub record Counter : Type 0 where
  pub covered_of : ℕ
  pub missed_of : ℕ
  pub total : ℕ

-- `number in changed_lines`
abbrev pub is_changed : List ℕ → ℕ → Bool
is_changed [] n = false
is_changed (x ∷ xs) n = if eq_nat x n then true else is_changed xs n

-- The lines that are changed, of a dictionary of lines by their numbers. Their order, by number in
-- the source, does not matter for sums.
unfoldable pub selected : List (ℕ × Line) → List ℕ → List Line
selected [] changed = []
selected ((n, line) ∷ lines) changed =
    let rest = selected lines changed in if is_changed changed n then line ∷ rest else rest

-- `sum(f(item) for item in selected)`
unfoldable pub sum_of : (Line → ℕ) → List Line → ℕ
sum_of f [] = 0
sum_of f (x ∷ xs) = f x + sum_of f xs

abbrev one_if : Bool → ℕ
one_if b = if b then 1 else 0

abbrev pub is_missed : Line → ℕ
is_missed l = one_if (eq_nat l.covered 0 && ltb 0 l.missed)

abbrev pub is_covered : Line → ℕ
is_covered l = one_if (ltb 0 l.covered)

abbrev counter : ℕ → ℕ → Counter
counter c m = record { covered_of = c; missed_of = m; total = c + m }

unfoldable pub line_counter : List Line → Counter
unfolding sum_of
line_counter items = counter (sum_of is_covered items) (sum_of is_missed items)

unfoldable pub branch_counter : List Line → Option Counter
unfolding sum_of
branch_counter items =
    let missed = sum_of (λ l. l.missed_branches) items in
    let covered = sum_of (λ l. l.covered_branches) items in
    if eq_nat (missed + covered) 0 then none else some (counter covered missed)

unfoldable pub changed_counters : List (ℕ × Line) → List ℕ → Counter × Option Counter
unfolding selected line_counter branch_counter
changed_counters lines changed =
    let items = selected lines changed in (line_counter items, branch_counter items)
