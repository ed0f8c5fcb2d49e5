-- ===== src/Coverage/Counters/Split.antt =====
-- The changed lines that count, for scripts/quality/verify_coverage.py.
use gas_station.Base.{ℕ, Bool, ◌&&◌, ◌||◌, List, [], ◌∷◌, ◌≡◌, ltb, arith, length, keep, refl}
use gas_station.Coverage.Counters.{
  Line, is_changed, selected, sum_of, line_counter, changed_counters,
}

-- A changed line with an instruction.
abbrev pub is_executable : List ℕ → ℕ × Line → Bool
is_executable changed (n, line) = is_changed changed n && (ltb 0 line.missed || ltb 0 line.covered)

total-selected :
    (lines : List (ℕ × Line)) (changed : List ℕ)
    → (line_counter (selected lines changed)).total ≡ length (keep (is_executable changed) lines)
unfolding line_counter selected sum_of keep
total-selected [] changed = refl
total-selected ((n, line) ∷ lines) changed = ground (arith, total-selected lines changed)

-- The total of the changed lines is the number of the changed lines that have an instruction.
pub changed_counters-total :
    (lines : List (ℕ × Line)) (changed : List ℕ)
    → (changed_counters lines changed).0.total ≡ length (keep (is_executable changed) lines)
unfolding changed_counters
changed_counters-total lines changed = total-selected lines changed
