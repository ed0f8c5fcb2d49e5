-- ===== src/Coverage/Sections/Counted.antt =====
-- Lemmas on the removed lines of the hunks that `finish_hunk` of
-- scripts/quality/verify_coverage.py stores.
use gas_station.Base.{
  String, ◌&&◌, none, [], ◌∷◌, ◌≡◌, inl, inr, arith, eq_nat, length, All, All-append, Option-cases,
  Bool-cases, ◌==◌,
}
use gas_station.Coverage.Outcome.{
  ok, ◌>>◌, policy_error, require, >>=-eq-ok, require-eq-ok, expect-eq-ok,
}
use gas_station.Coverage.Sections.{
  Hunk, Hunks, Loop, add_hunk, finish_hunk, close_section, finish_section,
}
use gas_station.Coverage.Statuses.{find}

-- The payload of a hunk has as many removed lines as its header says.
abbrev pub IsCounted : Hunk → Type 0
IsCounted h = length h.removed ≡ h.old_count

abbrev pub AllCounted : Hunks → Type 0
AllCounted hunks = All (λ e. All IsCounted e.1) hunks

add_hunk-AllCounted :
    (path : String) (h : Hunk) (hunks : Hunks)
    → IsCounted h
    → AllCounted hunks
    → AllCounted (add_hunk path h hunks)
unfolding add_hunk
add_hunk-AllCounted path h [] c all = ((c, tt), tt)
add_hunk-AllCounted path h ((p, hs) ∷ rest) c all = elim (Bool-cases (p == path)) [
  | inl e ↦ rw e (All-append IsCounted hs (h ∷ []) all.0 (c, tt), all.1)
  | inr n ↦ rw n (all.0, add_hunk-AllCounted path h rest c all.1)
]

pub ended : (a : Loop) {l' : Loop} → ok a ≡ ok l' → AllCounted a.hunks → AllCounted l'.hunks
ended a {l' = l'} e all = let same : a ≡ l' = cc in rw (← same) all

pub finish_hunk-AllCounted :
    (l : Loop) {l' : Loop} → finish_hunk l ≡ ok l' → AllCounted l.hunks → AllCounted l'.hunks
unfolding finish_hunk
finish_hunk-AllCounted l {l' = l'} e all = elim (Option-cases l.active_hunk) [
  | inl n ↦ ended _ (rw n at e) all
  | inr (h, a) ↦ elim (Option-cases l.current) [
    | inl n ↦ ended _ (rw (a, n) at e) all
    | inr (path, p) ↦
        let next = record l { hunks = add_hunk path h l.hunks; active_hunk = none } in
        let fits = eq_nat (length h.removed) h.old_count && eq_nat (length h.added) h.new_count in
        let step : (require fits >> ok next) ≡ ok l' = rw (a, p) at e in
        let (counted, same) = require-eq-ok fits (ok next) step in
        ended next same (add_hunk-AllCounted path h l.hunks (ground (arith, counted)) all)
  ]
]

close_section-AllCounted :
    (l : Loop) {l' : Loop} → close_section l ≡ ok l' → AllCounted l.hunks → AllCounted l'.hunks
unfolding close_section
close_section-AllCounted l {l' = l'} e all = elim (Option-cases l.section_header) [
  | inl n ↦ ended _ (rw n at e) all
  | inr ((old, new), s) ↦
      let (file, found, e1) = expect-eq-ok (find new l.changes) policy_error _ (rw s at e) in
      ended _ (require-eq-ok _ _ e1).1 all
]

pub finish_section-AllCounted :
    (l : Loop) {l' : Loop} → finish_section l ≡ ok l' → AllCounted l.hunks → AllCounted l'.hunks
unfolding finish_section
finish_section-AllCounted l e all =
    let (m, e1, e2) = >>=-eq-ok (finish_hunk l) close_section e in
    close_section-AllCounted m e2 (finish_hunk-AllCounted l e1 all)
