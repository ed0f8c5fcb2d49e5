-- ===== src/Pitest/Install/Wanted.antt =====
-- The files that `install_successor_atomically` of scripts/quality/verify_pitest.py installs.
use gas_station.Base.{
  All-one_of, String, Bool, true, false, Option, none, some, List, [], ◌∷◌, ◌==◌, ◌||◌, ◌≡◌, refl,
  sym, ◌∙◌, one_of, eq_iff, any, All, Bool-cases, inl, inr,
}
use gas_station.Coverage.Bytes.{Bytes}
use gas_station.Coverage.Statuses.{find}
use gas_station.Pitest.Disk.{Files, Disk, Paths}
use gas_station.Pitest.Steps.{State, tmp, is_found, is_there}
use gas_station.Pitest.Install.{Successor, try_block, sorted_files, own_temporaries, already_there}
use gas_station.Pitest.Install.Frame.{IsFramed}
use gas_station.Pitest.Install.Kept.{
  names, tmp_names, temporaries, targets_of, IsReady, own_temporaries-All, one_of_right,
  one_of_head, one_of_tail,
}
use gas_station.Pitest.Install.Done.{Contents, Led, ◌upto◌, Others}
use gas_station.Pitest.Install.Staged.{
  IsDistinct, Outside, done_onto, All-done_onto, done_onto-All, Fit, install_archives-Led,
}
use gas_station.Pitest.Install.Runs.{Runs, ◌onward◌}
use gas_station.Pitest.Install.Archives.{install_archives-Runs}
use gas_station.Pitest.Install.Block.{run_three, place_three, other_sym}
use gas_station.Pitest.Install.Sorted.{
  All-sorted_files, sorted_files-All, one_of-Others, Others-one_of, Outside-names, Fit-names,
  put_all, find-put_all,
}

-- What a successor installs.
abbrev pub wanted : Successor → Files
wanted a =
    (a.baseline_path, a.candidate_raw)
    ∷ (a.transition_path, a.transition_raw)
    ∷ (a.receipt_path, a.receipt_raw)
    ∷ a.archive_files

-- The names are those of different files, none of them a temporary one, and the baseline is there.
pub record IsSeparate (a : Successor) (first : Files) : Type 0 where
  pub predecessor : find a.baseline_path first ≡ some a.predecessor_raw
  pub baseline_plain : one_of a.baseline_path (temporaries a) ≡ false
  pub targets_plain : All (λ q. one_of q (temporaries a) ≡ false) (targets_of a)
  pub targets_distinct : IsDistinct (targets_of a)

missing : (found : Option Bytes) → is_found found ≡ false → found ≡ none
missing none e = refl
missing (some raw) e = cc

not_there :
    (disk : Disk) (files : Files)
    → any (λ f. is_there f.0 disk) files ≡ false
    → All (λ f. find f.0 disk.files ≡ none) files
unfolding any
not_there disk [] e = tt
not_there disk ((p, raw) ∷ files) e = elim (Bool-cases (is_there p disk)) [
  | inl i ↦ cc (rw i at e)
  | inr i ↦ (missing (find p disk.files) i, not_there disk files (rw i at e))
]

either_false : (x y : Bool) → (x || y) ≡ false → (x ≡ false) × (y ≡ false)
either_false true y e = cc
either_false false y e = (refl, e)

tmp_names-All :
    (temps : List String) (files : Files)
    → ((t : String) → one_of t (tmp_names files) ≡ true → one_of t temps ≡ true)
    → All (λ t. one_of t temps ≡ true) (tmp_names files)
tmp_names-All temps [] h = tt
tmp_names-All temps ((p, raw) ∷ files) h = (
  h (tmp p) (one_of_head (tmp p) (tmp_names files)),
  tmp_names-All temps files (λ t k. h t (one_of_tail t (tmp p) (tmp_names files) k)),
)

module _ (a : Successor) (disk : Disk) (h : IsSeparate a disk.files) where
  pub ready : already_there a disk ≡ false → IsReady a disk.files
  ready e =
      let (er, et, ea) = parts in
      record {
        predecessor = h.predecessor;
        no_temporary = h.baseline_plain;
        no_receipt = missing (find a.receipt_path disk.files) er;
        no_transition = missing (find a.transition_path disk.files) et;
        no_archive =
            All-sorted_files (λ f. find f.0 disk.files ≡ none) a.archive_files
              (not_there disk a.archive_files ea);
      }
    where
      parts :
          (is_there a.receipt_path disk ≡ false)
          × (is_there a.transition_path disk ≡ false)
          × (any (λ f. is_there f.0 disk) a.archive_files ≡ false)
      parts =
          let (rest, ea) = either_false _ (any (λ f. is_there f.0 disk) a.archive_files) e in
          let (er, et) = either_false _ (is_there a.transition_path disk) rest in (er, et, ea)

  module _ (fresh : already_there a disk ≡ false) where
    begun : IsReady a disk.files
    begun = ready fresh

    abbrev archives : Files
    archives = sorted_files a.archive_files

    -- A file that was not there is not the baseline.
    new_apart : (q : String) → find q disk.files ≡ none → (q == a.baseline_path) ≡ false
    new_apart q e = elim (Bool-cases (q == a.baseline_path)) [
      | inr n ↦ n
      | inl b ↦
          let same : q ≡ a.baseline_path = (eq_iff q a.baseline_path).0 b in
          let gone : find a.baseline_path disk.files ≡ none = rw same at e in
          cc (sym begun.predecessor ∙ gone)
    ]

    abbrev done : Files
    done = done_onto archives []

    apart_done : (p : String) → Others p archives → Others p done
    apart_done p o = All-done_onto (λ f. (p == f.0) ≡ false) archives [] o tt

    archives-Fit : Fit (temporaries a) archives
    archives-Fit =
        Fit-names (temporaries a) archives h.targets_plain.1.1
          (tmp_names-All (temporaries a) archives
            (λ t k. one_of_right t (own_temporaries a) (tmp_names archives) k))
          h.targets_distinct.1.1

    archives-Outside : Outside (temporaries a) done
    archives-Outside =
        All-done_onto (λ g. one_of g.0 (temporaries a) ≡ false) archives []
          (Outside-names (temporaries a) archives h.targets_plain.1.1) tt

    archives_new : All (λ g. (a.baseline_path == g.0) ≡ false) archives
    archives_new = based archives begun.no_archive
      where
        based :
            (files : Files)
            → All (λ f. find f.0 disk.files ≡ none) files
            → All (λ g. (a.baseline_path == g.0) ≡ false) files
        based [] k = tt
        based ((p, raw) ∷ files) k =
            (other_sym p a.baseline_path (new_apart p k.0), based files k.1)

    receipt_apart :
        ((a.receipt_path == a.transition_path) ≡ false)
        × (one_of a.receipt_path (names archives) ≡ false)
    unfolding one_of
    receipt_apart = either_false (a.receipt_path == a.transition_path) _ h.targets_distinct.0

    pub try_block-Led :
        (paths : Paths)
        → (in_archive : String → Bool) → (root : String)
        → Led [] (try_block paths in_archive root a) (
            (a.baseline_path, a.candidate_raw)
            ∷ (a.transition_path, a.transition_raw)
            ∷ (a.receipt_path, a.receipt_raw)
            ∷ done_onto (sorted_files a.archive_files) [])
    unfolding try_block
    try_block-Led paths in_archive root =
        install_archives-Led paths in_archive root (temporaries a) archives [] archives-Fit tt tt
        upto place_three a.receipt_path a.transition_path a.baseline_path a.receipt_raw
            a.transition_raw a.candidate_raw (temporaries a) done h.targets_plain.0
            h.targets_plain.1.0 h.baseline_plain (own_temporaries-All a).0
            (own_temporaries-All a).1.0 (own_temporaries-All a).1.1.0 receipt_apart.0
            (new_apart a.receipt_path begun.no_receipt)
            (new_apart a.transition_path begun.no_transition) archives-Outside
            (apart_done a.receipt_path (Others-one_of a.receipt_path archives receipt_apart.1))
            (apart_done a.transition_path
              (Others-one_of a.transition_path archives h.targets_distinct.1.0))
            (apart_done a.baseline_path archives_new)

    pub try_block-Runs :
        (paths : Paths) (in_archive : String → Bool) (root : String)
        → All (λ f. in_archive f.0 ≡ true) (sorted_files a.archive_files)
        → Runs [] (try_block paths in_archive root a) (
            (a.baseline_path, a.candidate_raw)
            ∷ (a.transition_path, a.transition_raw)
            ∷ (a.receipt_path, a.receipt_raw)
            ∷ done_onto (sorted_files a.archive_files) [])
    unfolding try_block
    try_block-Runs paths in_archive root inside =
        install_archives-Runs paths in_archive root (temporaries a) archives [] inside archives-Fit
          tt tt
        onward run_three a.receipt_path a.transition_path a.baseline_path a.receipt_raw
            a.transition_raw a.candidate_raw (temporaries a) done h.targets_plain.0
            h.targets_plain.1.0 h.baseline_plain (own_temporaries-All a).0
            (own_temporaries-All a).1.0 (own_temporaries-All a).1.1.0 receipt_apart.0
            (new_apart a.receipt_path begun.no_receipt)
            (new_apart a.transition_path begun.no_transition) archives-Outside
            (apart_done a.receipt_path (Others-one_of a.receipt_path archives receipt_apart.1))
            (apart_done a.transition_path
              (Others-one_of a.transition_path archives h.targets_distinct.1.0))
            (apart_done a.baseline_path archives_new)

    untargeted :
        (p : String)
        → Others p ((a.receipt_path, []) ∷ (a.transition_path, []) ∷ a.archive_files)
        → one_of p (targets_of a) ≡ false
    unfolding one_of
    untargeted p (or, (ot, oa)) =
        rw (or, ot)
          (one_of-Others p archives (All-sorted_files (λ f. (p == f.0) ≡ false) a.archive_files oa))

    uninstalled :
        (installed : List String) (p : String)
        → All (λ q. one_of q (targets_of a) ≡ true) installed
        → Others p ((a.receipt_path, []) ∷ (a.transition_path, []) ∷ a.archive_files)
        → one_of p installed ≡ false
    uninstalled installed p within o = elim (Bool-cases (one_of p installed)) [
      | inr n ↦ n
      | inl i ↦
          let target = All-one_of (λ q. one_of q (targets_of a) ≡ true) p installed within i in
          cc (sym target ∙ untargeted p o)
    ]

    -- Where the `try` block ends without a failure, the files are those with the wanted ones written.
    pub try_block-done :
        (paths : Paths) (in_archive : String → Bool) (root : String) (s : State) (p : String)
        → IsFramed disk.files a.baseline_path
            (temporaries a)
            (targets_of a)
            (try_block paths in_archive root a s).0
        → (try_block paths in_archive root a s).1 ≡ true
        → one_of p (temporaries a) ≡ false
        → find p (try_block paths in_archive root a s).0.disk.files
          ≡ find p (put_all (wanted a) disk.files)
    try_block-done paths in_archive root s p framed on plain =
        find-put_all p (wanted a) disk.files (try_block paths in_archive root a s).0.disk.files held
          others
      where
        held : Contents (wanted a) (try_block paths in_archive root a s).0.disk.files
        held =
            let (cb, (ct, (cr, cd))) = (try_block-Led paths in_archive root).leads s tt on in
            (cb, (ct, (cr, sorted_files-All _ a.archive_files (done_onto-All _ archives [] cd).0)))

        others :
            Others p (wanted a)
            → find p (try_block paths in_archive root a s).0.disk.files ≡ find p disk.files
        others (ob, (ot, (or, oa))) =
            framed.frame p plain (uninstalled _ p framed.within (or, (ot, oa)))
              (other_sym p a.baseline_path ob)
