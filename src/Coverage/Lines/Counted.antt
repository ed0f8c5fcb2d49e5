-- ===== src/Coverage/Lines/Counted.antt =====
-- Lemmas on the hunks that the loop over a patch in `parse_zero_context_diff` of
-- scripts/quality/verify_coverage.py stores.
use gas_station.Base.{
  String, Bool, true, false, Option, none, some, List, [], ◌∷◌, ◌≡◌, inl, inr, arith, Option-cases,
  if◌then◌else◌, not, ◌&&◌, drop,
}
use gas_station.Coverage.Outcome.{Result, ok, policy_error, >>=-eq-ok, require-eq-ok, expect-eq-ok}
use gas_station.Coverage.Bytes.{Bytes, ascii, begins_with, split_bytes}
use gas_station.Coverage.Paths.{decode_path, strip_patch_prefix, diff_git_paths}
use gas_station.Coverage.Statuses.{Changes}
use gas_station.Coverage.Sections.{Loop, get_file, finish_hunk, finish_section, hunk_header}
use gas_station.Coverage.Sections.Counted.{
  AllCounted, ended, finish_hunk-AllCounted, finish_section-AllCounted,
}
use gas_station.Coverage.Lines.{
  is_some, is_null, metadata_line, on_payload, on_hunk_header, on_diff, on_old_header,
  on_new_header, on_other, on_line, on_lines, initial, read_patch,
}

-- A step that keeps the stored hunks counted.
abbrev Keeps : Loop → Result Loop → Type 0
Keeps l r = (l' : Loop) → r ≡ ok l' → AllCounted l.hunks → AllCounted l'.hunks

Keeps-if :
    (l : Loop) (b : Bool) (r s : Result Loop) → Keeps l r → Keeps l s → Keeps l (if b then r else s)
Keeps-if l true r s hr hs = hr
Keeps-if l false r s hr hs = hs

on_payload-hunks : (l : Loop) (raw : Bytes) → (on_payload l raw).hunks ≡ l.hunks
unfolding on_payload
on_payload-hunks l raw = ground arith

on_payload-Keeps : (l : Loop) (raw : Bytes) → Keeps l (ok (on_payload l raw))
on_payload-Keeps l raw l' e all = ended _ e (rw (on_payload-hunks l raw) all)

on_hunk_header-Keeps :
    (l : Loop) (path : String) (line : Bytes) → Keeps l (on_hunk_header l path line)
unfolding on_hunk_header
on_hunk_header-Keeps l path line l' e all =
    let (m, e1, e2) = >>=-eq-ok (finish_hunk l) _ e in
    let (seen, e3) = require-eq-ok (m.seen_old_header && m.seen_new_header) _ e2 in
    let (h, found, e4) = expect-eq-ok (hunk_header line) policy_error _ e3 in
    ended _ e4 (finish_hunk-AllCounted l e1 all)

module _ (utf8 : Bytes → Option String) where
  on_diff-Keeps : (l : Loop) (line : Bytes) → Keeps l (on_diff utf8 l line)
  unfolding on_diff
  on_diff-Keeps l line l' e all =
      let (m, e1, e2) = >>=-eq-ok (finish_section l) _ e in
      let (paths, found, e3) = >>=-eq-ok (diff_git_paths utf8 line) _ e2 in
      let (key, there, e4) = expect-eq-ok (get_file m.changes paths.1) policy_error _ e3 in
      ended _ e4 (finish_section-AllCounted l e1 all)

  on_old_header-Keeps : (l : Loop) (line : Bytes) → Keeps l (on_old_header utf8 l line)
  unfolding on_old_header
  on_old_header-Keeps l line l' e all =
      let (m, e1, e2) = >>=-eq-ok (finish_hunk l) _ e in
      let kept = finish_hunk-AllCounted l e1 all in
      let (header, e3) = require-eq-ok (is_some m.section_header) _ e2 in
      let (first, e4) = require-eq-ok (not m.seen_old_header) _ e3 in
      let (above, e5) = require-eq-ok (not m.seen_new_header) _ e4 in
      Keeps-if m (is_null (drop 4 line)) _ _ (λ l' e6. ended _ e6)
        (λ l' e6.
          let (token, decoded, e7) = >>=-eq-ok (decode_path utf8 (drop 4 line)) _ e6 in
          let (path, stripped, e8) = >>=-eq-ok (strip_patch_prefix token "a/") _ e7 in ended _ e8)
        l' e5 kept

  on_new_header-Keeps : (l : Loop) (line : Bytes) → Keeps l (on_new_header utf8 l line)
  unfolding on_new_header
  on_new_header-Keeps l line l' e all =
      let (header, e3) = require-eq-ok (is_some l.section_header) _ e in
      let (first, e4) = require-eq-ok l.seen_old_header _ e3 in
      let (above, e5) = require-eq-ok (not l.seen_new_header) _ e4 in
      Keeps-if l (is_null (drop 4 line)) _ _ (λ l' e6. ended _ e6)
        (λ l' e6.
          let (token, decoded, e7) = >>=-eq-ok (decode_path utf8 (drop 4 line)) _ e6 in
          let (path, stripped, e8) = >>=-eq-ok (strip_patch_prefix token "b/") _ e7 in ended _ e8)
        l' e5 all

  on_other-Keeps : (l : Loop) (raw : Bytes) → Keeps l (on_other utf8 l raw)
  unfolding on_other
  on_other-Keeps l raw l' e = elim (Option-cases l.current) [
    | inl n ↦ on_payload-Keeps (record l { current = none }) raw l' (rw n at e)
    | inr (path, p) ↦
        let here = record l { current = some path } in
        Keeps-if here (begins_with (metadata_line raw) (ascii "@@ ")) _ _
          (on_hunk_header-Keeps here path (metadata_line raw)) (on_payload-Keeps here raw) l'
          (rw p at e)
  ]

  on_line-Keeps : (l : Loop) (raw : Bytes) → Keeps l (on_line utf8 l raw)
  unfolding on_line
  on_line-Keeps l raw =
      let line = metadata_line raw in
      Keeps-if l (begins_with line (ascii "diff --git ")) _ _ (on_diff-Keeps l line) (
        Keeps-if l (begins_with line (ascii "--- ")) _ _ (on_old_header-Keeps l line) (
          Keeps-if l (begins_with line (ascii "+++ ")) _ _ (on_new_header-Keeps l line)
            (on_other-Keeps l raw)))

  on_lines-Keeps : (l : Loop) (lines : List Bytes) → Keeps l (on_lines utf8 l lines)
  unfolding on_lines
  on_lines-Keeps l [] l' e all = ended l e all
  on_lines-Keeps l (raw ∷ rest) l' e all =
      let (m, e1, e2) = >>=-eq-ok (on_line utf8 l raw) _ e in
      on_lines-Keeps m rest l' e2 (on_line-Keeps l raw m e1 all)

  -- The hunks of a patch that is read have as many removed lines as their headers say.
  pub read_patch-AllCounted :
      (changes : Changes) (patch : Bytes) (l : Loop)
      → read_patch utf8 changes patch ≡ ok l
      → AllCounted l.hunks
  unfolding read_patch
  read_patch-AllCounted changes patch l e =
      let (m, e1, e2) =
        >>=-eq-ok (on_lines utf8 (initial changes) (split_bytes 10 patch)) finish_section e in
      finish_section-AllCounted m e2
        (on_lines-Keeps (initial changes) (split_bytes 10 patch) m e1 tt)
