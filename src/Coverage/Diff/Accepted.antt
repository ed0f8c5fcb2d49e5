-- ===== src/Coverage/Diff/Accepted.antt =====
-- What holds of a diff that `parse_zero_context_diff` of scripts/quality/verify_coverage.py accepts.
use gas_station.Base.{
  String, not, Option, some, List, [], ◌∷◌, ◌≡◌, ◌≢◌, refl, inl, inr, arith, eq_nat, All,
  Bool-cases, ◌==◌,
}
use gas_station.Coverage.Outcome.{ok, policy_error, >>=-eq-ok, require-eq-ok, expect-eq-ok}
use gas_station.Coverage.Bytes.{Bytes}
use gas_station.Coverage.Statuses.{ChangedFile, Changes, find, name_status}
use gas_station.Coverage.Sections.{Hunks, Loop}
use gas_station.Coverage.Sections.Counted.{IsCounted, AllCounted}
use gas_station.Coverage.Lines.{read_patch}
use gas_station.Coverage.Lines.Counted.{read_patch-AllCounted}
use gas_station.Coverage.Replay.{check_blobs, blob_lines}
use gas_station.Coverage.Replay.Edits.{Edits, check_blobs-Edits}
use gas_station.Coverage.Diff.{hunks_of, check_required, check_contents, parse_zero_context_diff}

-- A file of the changes with a hunk.
abbrev pub HasHunk : Changes → String → Type 0
HasHunk changes path =
    (file : ChangedFile) × (find path changes ≡ some file) × (file.hunk_count ≢ 0)

-- The two blobs of a path differ by the hunks that are stored for it.
abbrev pub IsReplayed : Hunks → String × Bytes × Bytes → Type 0
IsReplayed hunks (path, old, new) =
    Edits (hunks_of path hunks) 0 0 (blob_lines old) (blob_lines new)

hunks_of-AllCounted :
    (path : String) (hunks : Hunks) → AllCounted hunks → All IsCounted (hunks_of path hunks)
unfolding find
hunks_of-AllCounted path [] all = tt
hunks_of-AllCounted path ((p, hs) ∷ rest) all = elim (Bool-cases (p == path)) [
  | inl e ↦ let here : hunks_of path ((p, hs) ∷ rest) ≡ hs = rw (e, hunks_of) refl in rw here all.0
  | inr n ↦
      let behind : hunks_of path ((p, hs) ∷ rest) ≡ hunks_of path rest = rw (n, hunks_of) refl in
      rw behind (hunks_of-AllCounted path rest all.1)
]

check_required-HasHunk :
    (changes : Changes) (required : List String)
    → check_required changes required ≡ ok tt
    → All (HasHunk changes) required
unfolding check_required
check_required-HasHunk changes [] e = tt
check_required-HasHunk changes (path ∷ paths) e =
    let (file, found, e1) = expect-eq-ok (find path changes) policy_error _ e in
    let (hunk, e2) = require-eq-ok (not (eq_nat file.hunk_count 0)) _ e1 in
    ((file, found, ground (arith, hunk)), check_required-HasHunk changes paths e2)

check_contents-IsReplayed :
    (hunks : Hunks) (contents : List (String × Bytes × Bytes))
    → AllCounted hunks
    → check_contents hunks contents ≡ ok tt
    → All (IsReplayed hunks) contents
unfolding check_contents
check_contents-IsReplayed hunks [] all e = tt
check_contents-IsReplayed hunks ((path, old, new) ∷ rest) all e =
    let (u, e1, e2) = >>=-eq-ok (check_blobs old new (hunks_of path hunks)) _ e in
    let counted = hunks_of-AllCounted path hunks all in
    (
      (check_blobs-Edits old new (hunks_of path hunks) counted).0 e1,
      check_contents-IsReplayed hunks rest all e2,
    )

-- Where a diff is accepted, its name-status records and its patch are read, every path for which
-- a hunk is required has one, and for every path whose blobs are given, the lines of the new blob
-- come from those of the old one by the edits of the path's hunks.
pub parse_zero_context_diff-IsReplayed :
    (utf8 : Bytes → Option String) (stream patch : Bytes) (required : List String)
    (contents : List (String × Bytes × Bytes)) (changes : Changes)
    → parse_zero_context_diff utf8 stream patch required contents ≡ ok changes
    → (named : Changes) × (l : Loop) × (name_status utf8 stream ≡ ok named)
      × (read_patch utf8 named patch ≡ ok l)
      × (l.changes ≡ changes)
      × All (HasHunk changes) required
      × All (IsReplayed l.hunks) contents
unfolding parse_zero_context_diff
parse_zero_context_diff-IsReplayed utf8 stream patch required contents changes e =
    let (named, e1, e2) = >>=-eq-ok (name_status utf8 stream) _ e in
    let (l, e3, e4) = >>=-eq-ok (read_patch utf8 named patch) _ e2 in
    let (u, e5, e6) = >>=-eq-ok (check_required l.changes required) _ e4 in
    let (v, e7, e8) = >>=-eq-ok (check_contents l.hunks contents) _ e6 in
    let same : l.changes ≡ changes = cc in
    (
      named,
      l,
      e1,
      e3,
      same,
      rw (← same) (check_required-HasHunk l.changes required e5),
      check_contents-IsReplayed l.hunks contents (read_patch-AllCounted utf8 named patch l e3) e7,
    )
