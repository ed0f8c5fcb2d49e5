-- ===== src/Coverage/Lines.antt =====
-- The lines of a patch, in the loop of `parse_zero_context_diff` of
-- scripts/quality/verify_coverage.py.
pub mod Counted
use gas_station.Base.{
  ℕ, String, Bool, true, false, not, ◌&&◌, Option, none, some, List, [], ◌∷◌, ◌++◌, if◌then◌else◌,
  drop,
}
use gas_station.Coverage.Outcome.{Result, ok, err, ◌>>=◌, ◌>>◌, policy_error, require, expect}
use gas_station.Coverage.Bytes.{
  Bytes, ascii, begins_with, bytes_eq, ends_with, without_last, split_bytes,
}
use gas_station.Coverage.Paths.{decode_path, strip_patch_prefix, diff_git_paths}
use gas_station.Coverage.Statuses.{Changes}
use gas_station.Coverage.Sections.{
  Loop, Hunk, get_file, finish_hunk, finish_section, hunk_header, count_hunk,
}

abbrev is_some {ℓ} : {A : Type ℓ} → Option A → Bool
is_some none = false
is_some (some a) = true

abbrev is_null : Bytes → Bool
is_null token = bytes_eq token (ascii "/dev/null")

-- A line of the payload, where a hunk is active.
unfoldable pub on_payload : Loop → Bytes → Loop
unfolding ascii
on_payload l raw = elim l.active_hunk [
  | none ↦ l
  | some h ↦
      if begins_with raw (ascii "-")
      then record l { active_hunk = some (record h { removed = h.removed ++ drop 1 raw ∷ [] }) }
      else if begins_with raw (ascii "+")
      then record l { active_hunk = some (record h { added = h.added ++ drop 1 raw ∷ [] }) }
      else l
]

-- `@@ …`, where a file is current.
unfoldable pub on_hunk_header : Loop → String → Bytes → Result Loop
unfolding finish_hunk hunk_header count_hunk
on_hunk_header l path line = finish_hunk l >>= λ l'.
    require (l'.seen_old_header && l'.seen_new_header)
    >> (expect (hunk_header line) policy_error >>= λ h.
        ok (record l' { changes = count_hunk path h l'.changes; active_hunk = some h }))

-- `raw_line[:-1] if raw_line.endswith(b"\r") else raw_line`
abbrev pub metadata_line : Bytes → Bytes
metadata_line raw = if ends_with raw 13 then without_last raw else raw

abbrev pub initial : Changes → Loop
initial changes = record {
  changes = changes;
  current = none;
  section_header = none;
  section_old = none;
  section_new = none;
  seen_old_header = false;
  seen_new_header = false;
  seen_sections = [];
  hunks = [];
  active_hunk = none;
}

module _ (utf8 : Bytes → Option String) where
  -- `diff --git …`
  unfoldable pub on_diff : Loop → Bytes → Result Loop
  unfolding finish_section diff_git_paths get_file
  on_diff l line = finish_section l >>= λ l'. diff_git_paths utf8 line >>= λ paths.
      expect (get_file l'.changes paths.1) policy_error >>= λ key.
      ok (record l' { section_header = some paths; current = some key })

  -- `--- …`
  unfoldable pub on_old_header : Loop → Bytes → Result Loop
  unfolding finish_hunk ascii decode_path strip_patch_prefix
  on_old_header l line = finish_hunk l >>= λ l'.
      require (is_some l'.section_header)
      >> (require (not l'.seen_old_header)
          >> (require (not l'.seen_new_header)
              >> (if is_null (drop 4 line)
                  then ok (record l' { seen_old_header = true; section_old = none })
                  else (decode_path utf8 (drop 4 line) >>= λ token.
                      strip_patch_prefix token "a/" >>= λ path.
                      ok (record l' { seen_old_header = true; section_old = some path })))))

  -- `+++ …`
  unfoldable pub on_new_header : Loop → Bytes → Result Loop
  unfolding ascii decode_path strip_patch_prefix get_file
  on_new_header l line =
      require (is_some l.section_header)
      >> (require l.seen_old_header
          >> (require (not l.seen_new_header)
              >> (if is_null (drop 4 line)
                  then ok (record l { seen_new_header = true; section_new = none; current = none })
                  else (decode_path utf8 (drop 4 line) >>= λ token.
                      strip_patch_prefix token "b/" >>= λ path. ok (record l {
                        seen_new_header = true;
                        section_new = some path;
                        current = get_file l.changes path;
                      })))))

  -- A line that is none of the three headers.
  unfoldable pub on_other : Loop → Bytes → Result Loop
  unfolding ascii on_payload on_hunk_header
  on_other l raw = elim l.current [
    | none ↦ ok (on_payload l raw)
    | some path ↦
        if begins_with (metadata_line raw) (ascii "@@ ")
        then on_hunk_header l path (metadata_line raw)
        else ok (on_payload l raw)
  ]

  unfoldable pub on_line : Loop → Bytes → Result Loop
  unfolding ascii on_diff on_old_header on_new_header on_other
  on_line l raw =
      if begins_with (metadata_line raw) (ascii "diff --git ")
      then on_diff l (metadata_line raw)
      else if begins_with (metadata_line raw) (ascii "--- ")
      then on_old_header l (metadata_line raw)
      else if begins_with (metadata_line raw) (ascii "+++ ")
      then on_new_header l (metadata_line raw)
      else on_other l raw

  unfoldable pub on_lines : Loop → List Bytes → Result Loop
  unfolding on_line
  on_lines l [] = ok l
  on_lines l (raw ∷ rest) = on_line l raw >>= λ l'. on_lines l' rest

  unfoldable pub read_patch : Changes → Bytes → Result Loop
  unfolding on_lines finish_section
  read_patch changes patch = on_lines (initial changes) (split_bytes 10 patch) >>= finish_section
