-- ===== src/Pitest/Install/Undone.antt =====
-- Lemmas on the `except` and `finally` blocks of `install_successor_atomically` in
-- scripts/quality/verify_pitest.py.
use gas_station.Base.{
  All-one_of, String, Bool, true, false, Option, none, some, List, [], ◌∷◌, ◌==◌, ◌≡◌, ◌≢◌, refl,
  sym, ap, ◌∙◌, arith, if◌then◌else◌, one_of, eq_iff, All, Bool-cases, inl, inr,
}
use gas_station.Coverage.Bytes.{Bytes, bytes_eq, bytes_eq-eq}
use gas_station.Coverage.Statuses.{find}
use gas_station.Pitest.Disk.{
  Files, Disk, Paths, find-put, find-put_other, find-remove, find-remove_other,
}
use gas_station.Pitest.Steps.{State, restore_tmp}
use gas_station.Pitest.Install.{
  Successor, remove_all, own_temporaries, restored_over, restore_baseline, roll_back, remove_dirs,
  clean_up, archive_dirs,
}
use gas_station.Pitest.Install.Frame.{apart, IsFramed}
use gas_station.Pitest.Install.Kept.{temporaries, targets_of, IsReady, own_temporaries-All}

-- A file after others are removed: it is gone if it is one of them.
find-remove_all :
    (p : String) (ps : List String) (files : Files)
    → find p (remove_all ps files) ≡ (if one_of p ps then none else find p files)
unfolding one_of
find-remove_all p [] files = refl
find-remove_all p (q ∷ ps) files = elim (Bool-cases (p == q)) [
  | inl e ↦
      let same : p ≡ q = (eq_iff p q).0 e in rw e (rw same (find-remove q (remove_all ps files)))
  | inr n ↦
      let other : (q == p) ≡ false = ground (arith, n, eq_iff p q, eq_iff q p) in
      rw n (find-remove_other p q (remove_all ps files) other ∙ find-remove_all p ps files)
]

-- Files that are no temporary ones stay where those are removed.
find-remove_temps :
    (p : String) (temps ps : List String) (files : Files)
    → All (λ t. one_of t temps ≡ true) ps
    → one_of p temps ≡ false
    → find p (remove_all ps files) ≡ find p files
find-remove_temps p temps [] files h k = refl
find-remove_temps p temps (t ∷ ps) files h k =
    find-remove_other p t (remove_all ps files) (apart t p temps h.0 k)
    ∙ find-remove_temps p temps ps files h.1 k

module _ (paths : Paths) (in_archive : String → Bool) (root : String) (a : Successor) where
  remove_dirs-files :
      (ds : List String) (disk : Disk)
      → (remove_dirs paths in_archive root a ds disk).files ≡ disk.files
  unfolding remove_dirs
  remove_dirs-files [] disk = refl
  remove_dirs-files (d ∷ ds) disk = remove_dirs-files ds _ ∙ ground arith

  -- What cleaning up leaves of the files that are no temporary ones.
  pub find-clean_up :
      (p : String) (s : State) (files : Files)
      → All (λ t. one_of t (temporaries a) ≡ true) s.staged
      → one_of p (temporaries a) ≡ false
      → find p (clean_up paths in_archive root a s files).files ≡ find p files
  unfolding clean_up
  find-clean_up p s files h k =
      ap (find p) (remove_dirs-files (archive_dirs paths in_archive root a a.archive_files) _)
      ∙ (find-remove_temps p (temporaries a) s.staged (remove_all (own_temporaries a) files) h k
          ∙ find-remove_temps p (temporaries a) (own_temporaries a) files (own_temporaries-All a) k)

-- The files where the baseline is restored: the others are as before.
module _ (a : Successor) (files : Files) where
  find-restored_over :
      (found : Option Bytes) (p : String)
      → one_of p (temporaries a) ≡ false
      → (a.baseline_path == p) ≡ false
      → find p (restored_over a files found) ≡ find p files
  find-restored_over none p k n = refl
  find-restored_over (some raw) p k n = elim (Bool-cases (bytes_eq raw a.predecessor_raw)) [
    | inl same ↦ rw same refl
    | inr other ↦
        let temp = (own_temporaries-All a).1.1.1.0 in
        let aside = apart (restore_tmp a.baseline_path) p (temporaries a) temp k in
        rw other (
          find-put_other p a.baseline_path a.predecessor_raw _ n
          ∙ (find-remove_other p (restore_tmp a.baseline_path) _ aside
              ∙ find-put_other p (restore_tmp a.baseline_path) a.predecessor_raw files aside))
  ]

  find-restored_baseline :
      (found : Option Bytes)
      → find a.baseline_path files ≡ found
      → find a.baseline_path files ≢ none
      → find a.baseline_path (restored_over a files found) ≡ some a.predecessor_raw
  find-restored_baseline none e there = absurd (there e)
  find-restored_baseline (some raw) e there = elim (Bool-cases (bytes_eq raw a.predecessor_raw)) [
    | inl same ↦ rw same (e ∙ ap some (bytes_eq-eq raw a.predecessor_raw same))
    | inr other ↦ rw other (find-put a.baseline_path a.predecessor_raw _)
  ]

module _ (paths : Paths) (in_archive : String → Bool) (root : String) (a : Successor) where
  -- After a failure every file that is no temporary one is as it was.
  pub undone :
      (first : Files) (s : State)
      → IsReady a first
      → IsFramed first a.baseline_path (temporaries a) (targets_of a) s
      → (p : String) → one_of p (temporaries a) ≡ false
      → find p (clean_up paths in_archive root a s (roll_back a s)).files ≡ find p first
  unfolding roll_back restore_baseline
  undone first s ready h p k =
      find-clean_up paths in_archive root a p s (roll_back a s) h.staged_temps k
      ∙ (find-remove_all p s.installed (restore_baseline a s.disk.files) ∙ back)
    where
      back :
          (if one_of p s.installed then none else find p (restore_baseline a s.disk.files))
          ≡ find p first
      back = elim (Bool-cases (one_of p s.installed)) [
        | inl i ↦ rw i (sym (All-one_of (λ q. find q first ≡ none) p s.installed h.fresh i))
        | inr i ↦ elim (Bool-cases (a.baseline_path == p)) [
          | inl b ↦
              let same : a.baseline_path ≡ p = (eq_iff a.baseline_path p).0 b in
              rw (i, ← same)
                (find-restored_baseline a s.disk.files (find a.baseline_path s.disk.files) refl
                    h.present
                  ∙ sym ready.predecessor)
          | inr b ↦ rw i (
              find-restored_over a s.disk.files (find a.baseline_path s.disk.files) p k b
              ∙ h.frame p k i b)
        ]
      ]
