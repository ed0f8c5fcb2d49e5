-- ===== src/Coverage/Sections.antt =====
-- The loop over the lines of a patch in `parse_zero_context_diff` of
-- scripts/quality/verify_coverage.py.
pub mod Counted
use gas_station.Base.{
  ℕ, zero, suc, ◌+◌, String, Bool, true, false, not, ◌&&◌, ◌||◌, Option, none, some, List, [], ◌∷◌,
  ◌++◌, if◌then◌else◌, ◌==◌, eq_nat, one_of, drop, length,
}
use gas_station.Coverage.Outcome.{Result, ok, err, ◌>>=◌, ◌>>◌, policy_error, require, expect}
use gas_station.Coverage.Bytes.{
  Bytes, ascii, begins_with, bytes_eq, ends_with, without_last, span_digits, decimal,
}
use gas_station.Coverage.Paths.{decode_path, strip_patch_prefix, diff_git_paths}
use gas_station.Coverage.Statuses.{ChangedFile, Changes, find}

pub record Hunk : Type 0 where
  pub old_start : ℕ
  pub old_count : ℕ
  pub new_start : ℕ
  pub new_count : ℕ
  pub removed : List Bytes
  pub added : List Bytes

abbrev pub Hunks : Type 0
Hunks = List (String × List Hunk)

-- The variables of the loop. `current` is a file of `changes`, held by its key.
pub record Loop : Type 0 where
  pub changes : Changes
  pub current : Option String
  pub section_header : Option (String × String)
  pub section_old : Option String
  pub section_new : Option String
  pub seen_old_header : Bool
  pub seen_new_header : Bool
  pub seen_sections : List String
  pub hunks : Hunks
  pub active_hunk : Option Hunk

-- `changes.get(path)`, as a key
unfoldable pub get_file : Changes → String → Option String
unfolding find
get_file changes path = elim (find path changes) [ none ↦ none | some _ ↦ some path ]

-- `hunks.setdefault(path, []).append(hunk)`
unfoldable pub add_hunk : String → Hunk → Hunks → Hunks
add_hunk path h [] = (path, h ∷ []) ∷ []
add_hunk path h ((p, hs) ∷ rest) =
    let behind = add_hunk path h rest in
    if p == path then (p, hs ++ h ∷ []) ∷ rest else (p, hs) ∷ behind

unfoldable pub finish_hunk : Loop → Result Loop
unfolding add_hunk
finish_hunk l = elim l.active_hunk [
  | none ↦ ok l
  | some h ↦ elim l.current [
    | none ↦ ok l
    | some path ↦
        require (eq_nat (length h.removed) h.old_count && eq_nat (length h.added) h.new_count)
        >> ok (record l { hunks = add_hunk path h l.hunks; active_hunk = none })
  ]
]

-- `a == b` for paths that may be absent
abbrev pub path_eq : Option String → Option String → Bool
path_eq none none = true
path_eq (some a) (some b) = a == b
path_eq _ _ = false

-- The checks of a section against its file.
abbrev pub section_agrees : Loop → String → String → ChangedFile → Bool
section_agrees l old new file =
    path_eq (some old) (some (elim file.old_path [ none ↦ file.new_path | some p ↦ p ]))
    && (eq_nat file.hunk_count 0 || (l.seen_old_header && l.seen_new_header))
    && (not l.seen_old_header || path_eq l.section_old file.old_path)
    && (not l.seen_new_header || path_eq l.section_new (some file.new_path))
    && not (one_of new l.seen_sections)

-- What `finish_section` does behind `finish_hunk`.
unfoldable pub close_section : Loop → Result Loop
unfolding find one_of
close_section l = elim l.section_header [
  | none ↦ ok l
  | some (old, new) ↦ expect (find new l.changes) policy_error >>= λ file.
      require (section_agrees l old new file)
      >> ok (record l {
        seen_sections = new ∷ l.seen_sections;
        current = none;
        section_header = none;
        section_old = none;
        section_new = none;
        seen_old_header = false;
        seen_new_header = false;
      })
]

unfoldable pub finish_section : Loop → Result Loop
unfolding finish_hunk close_section
finish_section l = finish_hunk l >>= close_section

-- `,([0-9]+)` or nothing, and what is behind.
abbrev optional_count : Bytes → ℕ × Bytes
optional_count [] = (1, [])
optional_count (x ∷ xs) =
    let (ds, rest) = span_digits xs in
    if eq_nat x 44 && not (eq_nat (length ds) 0) then (decimal ds, rest) else (1, x ∷ xs)

-- `([0-9]+)(?:,([0-9]+))?`: start, count, and what is behind.
abbrev range_at : Bytes → Option (ℕ × ℕ × Bytes)
range_at xs =
    let (ds, rest) = span_digits xs in
    let (count, behind) = optional_count rest in
    if eq_nat (length ds) 0 then none else some (decimal ds, count, behind)

-- `@@ -…(,…)? +…(,…)? @@` at the front of a line, as a hunk without lines.
unfoldable pub hunk_header : Bytes → Option Hunk
unfolding ascii
hunk_header line =
    if not (begins_with line (ascii "@@ -")) then none else elim (range_at (drop 4 line)) [
      | none ↦ none
      | some (old_start, old_count, rest) ↦
          if not (begins_with rest (ascii " +")) then none else elim (range_at (drop 2 rest)) [
            | none ↦ none
            | some (new_start, new_count, behind) ↦
                if not (begins_with behind (ascii " @@"))
                then none
                else some (record {
                  old_start = old_start;
                  old_count = old_count;
                  new_start = new_start;
                  new_count = new_count;
                  removed = [];
                  added = [];
                })
          ]
    ]

-- `range(start, start + count)`
abbrev pub range : ℕ → ℕ → List ℕ
range start zero = []
range start (suc n) = start ∷ range (suc start) n

unfoldable pub count_hunk : String → Hunk → Changes → Changes
count_hunk path h [] = []
count_hunk path h ((p, file) ∷ rest) =
    let behind = count_hunk path h rest in
    if p == path
    then (
      p,
      record file {
        new_lines = file.new_lines ++ range h.new_start h.new_count;
        hunk_count = file.hunk_count + 1;
      },
    )
      ∷ rest
    else (p, file) ∷ behind
