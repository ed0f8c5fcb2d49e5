-- ===== src/Coverage/Diff.antt =====
-- `parse_zero_context_diff` of scripts/quality/verify_coverage.py as a whole.
pub mod Accepted
use gas_station.Base.{ℕ, String, Bool, true, false, not, Option, none, some, List, [], ◌∷◌, eq_nat}
use gas_station.Coverage.Outcome.{Result, ok, err, ◌>>=◌, ◌>>◌, policy_error, require, expect}
use gas_station.Coverage.Bytes.{Bytes}
use gas_station.Coverage.Statuses.{Changes, find, name_status}
use gas_station.Coverage.Sections.{Hunk, Hunks}
use gas_station.Coverage.Lines.{read_patch}
use gas_station.Coverage.Replay.{check_blobs}

-- `for path in sorted(required)`: each has a hunk. Every failure is the same error.
unfoldable pub check_required : Changes → List String → Result (Unit {0})
unfolding find
check_required changes [] = ok tt
check_required changes (path ∷ paths) = expect (find path changes) policy_error >>= λ file.
    require (not (eq_nat file.hunk_count 0)) >> check_required changes paths

-- `hunks.get(path, [])`
abbrev pub hunks_of : String → Hunks → List Hunk
hunks_of path hunks = elim (find path hunks) [ none ↦ [] | some hs ↦ hs ]

-- `for path, (old_bytes, new_bytes) in blob_contents.items()`
unfoldable pub check_contents : Hunks → List (String × Bytes × Bytes) → Result (Unit {0})
unfolding find check_blobs
check_contents hunks [] = ok tt
check_contents hunks ((path, old, new) ∷ rest) =
    check_blobs old new (hunks_of path hunks) >> check_contents hunks rest

module _ (utf8 : Bytes → Option String) where
  -- `none` for a parameter that is not given reads like an empty one.
  unfoldable pub parse_zero_context_diff :
      Bytes → Bytes → List String → List (String × Bytes × Bytes) → Result Changes
  unfolding name_status read_patch check_required check_contents
  parse_zero_context_diff stream patch required contents = do
    changes ← name_status utf8 stream
    l ← read_patch utf8 changes patch
    check_required l.changes required
    check_contents l.hunks contents
    ok l.changes
