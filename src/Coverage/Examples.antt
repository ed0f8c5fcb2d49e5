-- ===== src/Coverage/Examples.antt =====
-- Runs of the coverage gate, and its theorems at concrete inputs.
use gas_station.Base.{
  ℕ, ◌+◌, ◌*◌, ◌≤◌, ◌<◌, String, true, false, one_of, Option, none, some, List, [], ◌∷◌, ◌≡◌, ◌↔◌,
  refl, arith, All, length, keep, if◌then◌else◌,
}
use gas_station.Coverage.Outcome.{ok, err, policy_error, index_error}
use gas_station.Coverage.Bytes.{Bytes, ascii, bytes_eq}
use gas_station.Coverage.Paths.{decode_path}
use gas_station.Coverage.Statuses.{Changes, name_status}
use gas_station.Coverage.Sections.{Hunk, Loop}
use gas_station.Coverage.Lines.{read_patch}
use gas_station.Coverage.Replay.{blob_lines, check_blobs}
use gas_station.Coverage.Replay.Edits.{Edits, check_blobs-Edits}
use gas_station.Coverage.Sources.{SourceUnit, is_floored, classify_exact_sources}
use gas_station.Coverage.Sources.Partition.{owners, classify_exact_sources-owners}
use gas_station.Coverage.Diff.{parse_zero_context_diff}
use gas_station.Coverage.Diff.Accepted.{HasHunk, IsReplayed, parse_zero_context_diff-IsReplayed}
use gas_station.Coverage.Blanks.{strip_comments_and_strings}
use gas_station.Coverage.Blanks.Shape.{IsMask, strip_comments_and_strings-IsMask}
use gas_station.Coverage.Blanks.Calm.{
  IsCalm, strip_comments_and_strings-IsCalm, strip_comments_and_strings_idem,
}
use gas_station.Coverage.Floors.{
  validate_floor_transition, number, baseline_drop_exceeded, ratio_below_basis_points,
}
use gas_station.Coverage.Floors.Exact.{
  baseline_drop_exceeded_iff, last_floor, raises, validate_floor_transition-history,
}
use gas_station.Coverage.Predecessor.{Units, validate_predecessor_floor_transitions}
use gas_station.Coverage.Predecessor.Rising.{
  UnitRises, validate_predecessor_floor_transitions-UnitRises,
}
use gas_station.Coverage.Counters.{Line, changed_counters}
use gas_station.Coverage.Counters.Split.{is_executable, changed_counters-total}

-- A decoding of three paths.
abbrev three_paths : Bytes → Option String
unfolding ascii
three_paths bytes =
    if bytes_eq bytes (ascii "f")
    then some "f"
    else if bytes_eq bytes (ascii "a/f")
    then some "a/f"
    else if bytes_eq bytes (ascii "b/f")
    then some "b/f"
    else none

abbrev stream : Bytes
stream = 77 ∷ 0 ∷ 102 ∷ 0 ∷ []

abbrev old_blob : Bytes
old_blob = 97 ∷ 10 ∷ 98 ∷ 10 ∷ []

abbrev new_blob : Bytes
new_blob = 97 ∷ 10 ∷ 99 ∷ 10 ∷ []

abbrev one_hunk : Hunk
one_hunk = record {
  old_start = 2;
  old_count = 1;
  new_start = 2;
  new_count = 1;
  removed = (98 ∷ []) ∷ [];
  added = (99 ∷ []) ∷ [];
}

abbrev patch : Bytes
unfolding ascii
patch = ascii "diff --git a/f b/f\n--- a/f\n+++ b/f\n@@ -2 +2 @@\n-b\n+c\n"

abbrev one_change : Changes
one_change =
    (
      "f",
      record {
        status = 77;
        old_path = some "f";
        new_path = "f";
        new_lines = 2 ∷ [];
        hunk_count = 1;
      },
    )
    ∷ []

one_change_accepted :
    parse_zero_context_diff three_paths stream patch ("f" ∷ []) (("f", old_blob, new_blob) ∷ [])
    ≡ ok one_change
unfolding parse_zero_context_diff three_paths patch ascii
one_change_accepted = refl

-- A removed line that starts with `-- ` is taken for a header.
header_like_line :
    parse_zero_context_diff three_paths stream
      (ascii "diff --git a/f b/f\n--- a/f\n+++ b/f\n@@ -1 +1 @@\n--- a\n+b\n")
      []
      []
    ≡ err policy_error
unfolding parse_zero_context_diff three_paths ascii
header_like_line = refl

-- A path in quotes that ends in a backslash is no error of the gate's own.
trailing_backslash : decode_path three_paths (34 ∷ 92 ∷ 34 ∷ []) ≡ err index_error
unfolding decode_path
trailing_backslash = refl

check_blobs-Edits_example :
    (check_blobs old_blob new_blob (one_hunk ∷ []) ≡ ok tt)
    ↔ Edits (one_hunk ∷ []) 0 0 (blob_lines old_blob) (blob_lines new_blob)
check_blobs-Edits_example = check_blobs-Edits old_blob new_blob (one_hunk ∷ []) (refl, tt)

parse_zero_context_diff-IsReplayed_example :
    (named : Changes) × (l : Loop) × (name_status three_paths stream ≡ ok named)
    × (read_patch three_paths named patch ≡ ok l)
    × (l.changes ≡ one_change)
    × All (HasHunk one_change) ("f" ∷ [])
    × All (IsReplayed l.hunks) (("f", old_blob, new_blob) ∷ [])
parse_zero_context_diff-IsReplayed_example =
    parse_zero_context_diff-IsReplayed three_paths stream patch ("f" ∷ [])
      (("f", old_blob, new_blob) ∷ []) one_change one_change_accepted

-- `x/*"*/'"'//` and what is left of it.
abbrev source : Bytes
source = 120 ∷ 47 ∷ 42 ∷ 34 ∷ 42 ∷ 47 ∷ 39 ∷ 34 ∷ 39 ∷ 47 ∷ 47 ∷ []

abbrev stripped : Bytes
stripped = 120 ∷ 32 ∷ 32 ∷ 32 ∷ 32 ∷ 32 ∷ 32 ∷ 32 ∷ 32 ∷ 32 ∷ 32 ∷ []

source-stripped : strip_comments_and_strings source ≡ ok stripped
unfolding strip_comments_and_strings
source-stripped = refl

strip_comments_and_strings-IsMask_example : IsMask source stripped
strip_comments_and_strings-IsMask_example =
    strip_comments_and_strings-IsMask source stripped source-stripped

strip_comments_and_strings-IsCalm_example : IsCalm stripped
strip_comments_and_strings-IsCalm_example =
    strip_comments_and_strings-IsCalm source stripped source-stripped

strip_comments_and_strings_idem_example : strip_comments_and_strings stripped ≡ ok stripped
strip_comments_and_strings_idem_example =
    strip_comments_and_strings_idem source stripped source-stripped

ratio_test : ratio_below_basis_points 79 100 (number 8000) ≡ ok true
unfolding ratio_below_basis_points
ratio_test = refl

baseline_drop_exceeded_iff_example :
    (baseline_drop_exceeded 79 100 80 100 (number 50) ≡ ok true)
    ↔ (10000 * (79 * 100) + 50 * 100 * 100 < 10000 * (80 * 100))
baseline_drop_exceeded_iff_example =
    baseline_drop_exceeded_iff 79 100 80 100 50 (omega arith) (omega arith) (omega arith)

validate_floor_transition-history_example :
    (7000 ≤ last_floor 7000 (7100 ∷ 7100 ∷ []))
    × (last_floor 7000 (7100 ∷ 7100 ∷ []) ≤ 7000 + raises 100 (7100 ∷ 7100 ∷ []))
unfolding validate_floor_transition
validate_floor_transition-history_example =
    validate_floor_transition-history 100 7000 (7100 ∷ 7100 ∷ []) (refl, (refl, tt))

abbrev two_lines : List (ℕ × Line)
two_lines =
    (4, record { missed = 1; covered = 2; missed_branches = 1; covered_branches = 1 })
    ∷ (5, record { missed = 3; covered = 0; missed_branches = 0; covered_branches = 0 })
    ∷ []

changed_counters-total_example :
    (changed_counters two_lines (5 ∷ 6 ∷ [])).0.total
    ≡ length (keep (is_executable (5 ∷ 6 ∷ [])) two_lines)
changed_counters-total_example = changed_counters-total two_lines (5 ∷ 6 ∷ [])

abbrev captured_at : ℕ → Units
captured_at floor =
    (
      "app",
      record {
        line = record { total = 10; floor = some (number floor) };
        branch = record { total = 0; floor = none };
      },
    )
    ∷ []

validate_predecessor_floor_transitions-UnitRises_example :
    All (UnitRises 100 (captured_at 7050)) (captured_at 7000)
unfolding validate_predecessor_floor_transitions
validate_predecessor_floor_transitions-UnitRises_example =
    validate_predecessor_floor_transitions-UnitRises 100 (captured_at 7000) (captured_at 7050) refl

abbrev source_units : List SourceUnit
source_units =
    record {
      family = some "jvm";
      has_line_floor = true;
      has_branch_floor = true;
      sources = "b.kt" ∷ [];
    }
    ∷ record {
      family = some "tool";
      has_line_floor = false;
      has_branch_floor = false;
      sources = "a.kt" ∷ [];
    }
    ∷ []

sources_classified :
    classify_exact_sources ("b.kt" ∷ "a.kt" ∷ []) source_units ≡ ok ("a.kt" ∷ "b.kt" ∷ [])
unfolding classify_exact_sources
sources_classified = refl

classify_exact_sources-owners_example :
    All (λ unit. is_floored unit ≡ false) source_units
    × ((p : String)
        → (owners p source_units ≡ (if one_of p ("b.kt" ∷ "a.kt" ∷ []) then 1 else 0))
          × (one_of p ("a.kt" ∷ "b.kt" ∷ []) ≡ one_of p ("b.kt" ∷ "a.kt" ∷ [])))
classify_exact_sources-owners_example =
    classify_exact_sources-owners ("b.kt" ∷ "a.kt" ∷ []) source_units ("a.kt" ∷ "b.kt" ∷ [])
      sources_classified
