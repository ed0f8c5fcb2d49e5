-- ===== src/Pitest/Install/Kept.antt =====
-- Lemmas on the files that the `try` block of `install_successor_atomically` in
-- scripts/quality/verify_pitest.py does not write.
use gas_station.Base.{
  String, Bool, true, false, none, some, List, [], ◌∷◌, ◌++◌, ◌==◌, ◌≡◌, arith, if◌then◌else◌,
  one_of, eq_iff, All, Bool-cases, inl, inr,
}
use gas_station.Coverage.Bytes.{Bytes}
use gas_station.Coverage.Statuses.{find}
use gas_station.Pitest.Disk.{Files, Paths}
use gas_station.Pitest.Steps.{
  Step, ◌then◌, tmp, restore_tmp, write, replace_file, check, note_installed, note_staged,
}
use gas_station.Pitest.Install.{
  Successor, make_dir, install_archive, install_archives, sorted_files, try_block, own_temporaries,
}
use gas_station.Pitest.Install.Frame.{
  Keeps, then-Keeps, then_assoc-Keeps, write-Keeps, install-Keeps, base-Keeps, check-Keeps,
  note_staged-Keeps, make_dir-Keeps,
}

-- The temporary files and the files that may be installed.
abbrev pub names : Files → List String
names [] = []
names ((p, raw) ∷ files) = p ∷ names files

abbrev pub tmp_names : Files → List String
tmp_names [] = []
tmp_names ((p, raw) ∷ files) = tmp p ∷ tmp_names files

-- What is asked of an archive file: it was not there, it may be installed, and its temporary file
-- is one.
abbrev pub IsArchive : Files → List String → List String → String × Bytes → Type 0
IsArchive first temps targets (p, raw) =
    (find p first ≡ none) × (one_of p targets ≡ true) × (one_of (tmp p) temps ≡ true)

module _ (paths : Paths) (in_archive : String → Bool) (root : String) where
  module _ (first : Files) (base : String) (raw : Bytes) (temps targets : List String)
      (hb : one_of base temps ≡ false) (there : find base first ≡ some raw) where
    -- A file that was not there is not the baseline.
    new_apart : (q : String) → find q first ≡ none → (q == base) ≡ false
    new_apart q h = elim (Bool-cases (q == base)) [
      | inr n ↦ n
      | inl e ↦ let same : q ≡ base = (eq_iff q base).0 e in cc (rw same at h)
    ]

    record Kept (step : Step) : Type 0 where
      kept : Keeps first base temps targets step

    keep : (step : Step) → Keeps first base temps targets step → Kept step
    keep step k = record { kept = k }

    infixr 4 ◌also◌
    ◌also◌ : {a b : Step} → Kept a → Kept b → Kept (a then b)
    ◌also◌ {a = a} {b = b} ka kb =
        keep (a then b) (then-Keeps first base temps targets a b ka.kept kb.kept)

    writing : (t : String) (content : Bytes) → one_of t temps ≡ true → Kept (write t content)
    writing t content h = keep _ (write-Keeps first base temps targets hb t content h)

    checking : (t : String) (content : Bytes) → Kept (check t content)
    checking t content = keep _ (check-Keeps first base temps targets t content)

    installing :
        (q : String) (rest : Step)
        → IsArchive first temps targets (q, [])
        → Kept rest
        → Kept (replace_file (tmp q) q then note_installed q then rest)
    installing q rest (fresh, target, temp) k =
        let both = keep _ (
          install-Keeps first base temps targets hb (tmp q) q temp target fresh
            (new_apart q fresh)) in
        keep _ (
          then_assoc-Keeps first base temps targets (replace_file (tmp q) q) (note_installed q) rest
            (both also k).kept)

    install_archive-Kept :
        (f : String × Bytes)
        → IsArchive first temps targets f
        → Kept (install_archive paths in_archive root f)
    unfolding install_archive
    install_archive-Kept (p, content) h =
        keep (λ s. (s, in_archive p)) (λ s k. k)
        also keep (make_dir paths in_archive root (paths.parent p))
            (make_dir-Keeps first base temps targets paths in_archive root (paths.parent p))
        also keep (note_staged (tmp p)) (note_staged-Keeps first base temps targets (tmp p) h.2)
        also writing (tmp p) content h.2
        also checking (tmp p) content
        also keep (replace_file (tmp p) p then note_installed p)
            (install-Keeps first base temps targets hb (tmp p) p h.2 h.1 h.0 (new_apart p h.0))

    install_archives-Keeps :
        (files : Files)
        → All (IsArchive first temps targets) files
        → Keeps first base temps targets (install_archives paths in_archive root files)
    unfolding install_archives
    install_archives-Keeps [] h s k = k
    install_archives-Keeps (f ∷ files) h s k =
        (install_archive-Kept f h.0 also keep _ (install_archives-Keeps files h.1)).kept s k

    block-Kept :
        (files : Files) (r t : String) (r_raw t_raw b_raw : Bytes)
        → All (IsArchive first temps targets) files
        → IsArchive first temps targets (r, [])
        → IsArchive first temps targets (t, [])
        → one_of (tmp base) temps ≡ true
        → Kept (
            install_archives paths in_archive root files
            then write (tmp r) r_raw
            then write (tmp t) t_raw
            then write (tmp base) b_raw
            then check (tmp r) r_raw
            then check (tmp t) t_raw
            then check (tmp base) b_raw
            then replace_file (tmp r) r
            then note_installed r
            then replace_file (tmp t) t
            then note_installed t
            then replace_file (tmp base) base)
    block-Kept files r t r_raw t_raw b_raw archives hr ht hbt =
        keep (install_archives paths in_archive root files) (install_archives-Keeps files archives)
        also writing (tmp r) r_raw hr.2
        also writing (tmp t) t_raw ht.2
        also writing (tmp base) b_raw hbt
        also checking (tmp r) r_raw
        also checking (tmp t) t_raw
        also checking (tmp base) b_raw
        also installing r _ hr (
            installing t _ ht (
              keep (replace_file (tmp base) base)
                (base-Keeps first base temps targets hb (tmp base) hbt)))

-- The names of what a successor writes.
abbrev pub temporaries : Successor → List String
temporaries a = own_temporaries a ++ tmp_names (sorted_files a.archive_files)

abbrev pub targets_of : Successor → List String
targets_of a = a.receipt_path ∷ a.transition_path ∷ names (sorted_files a.archive_files)

-- The baseline and what is to be installed, on the first disk.
pub record IsReady (a : Successor) (first : Files) : Type 0 where
  pub predecessor : find a.baseline_path first ≡ some a.predecessor_raw
  pub no_temporary : one_of a.baseline_path (temporaries a) ≡ false
  pub no_receipt : find a.receipt_path first ≡ none
  pub no_transition : find a.transition_path first ≡ none
  pub no_archive : All (λ f. find f.0 first ≡ none) (sorted_files a.archive_files)

one_of_left : (x : String) (xs ys : List String) → one_of x xs ≡ true → one_of x (xs ++ ys) ≡ true
unfolding one_of
one_of_left x [] ys h = cc
one_of_left x (z ∷ xs) ys h = ground (arith, h, one_of_left x xs ys)

pub one_of_right :
    (x : String) (xs ys : List String) → one_of x ys ≡ true → one_of x (xs ++ ys) ≡ true
unfolding one_of
one_of_right x [] ys h = h
one_of_right x (z ∷ xs) ys h = ground (arith, one_of_right x xs ys h)

pub one_of_head : (x : String) (xs : List String) → one_of x (x ∷ xs) ≡ true
unfolding one_of
one_of_head x xs = ground (arith, eq_iff x x)

pub one_of_tail : (x y : String) (xs : List String) → one_of x xs ≡ true → one_of x (y ∷ xs) ≡ true
unfolding one_of
one_of_tail x y xs h = ground (arith, h)

pub own_temporaries-All :
    (a : Successor) → All (λ t. one_of t (temporaries a) ≡ true) (own_temporaries a)
unfolding one_of
own_temporaries-All a = (
  ground (arith, eq_iff (tmp a.receipt_path) (tmp a.receipt_path)),
  (
    ground (arith, eq_iff (tmp a.transition_path) (tmp a.transition_path)),
    (
      ground (arith, eq_iff (tmp a.baseline_path) (tmp a.baseline_path)),
      (ground (arith, eq_iff (restore_tmp a.baseline_path) (restore_tmp a.baseline_path)), tt),
    ),
  ),
)

archives-IsArchive :
    (first : Files) (temps targets : List String) (files : Files)
    → ((t : String) → one_of t (tmp_names files) ≡ true → one_of t temps ≡ true)
    → ((q : String) → one_of q (names files) ≡ true → one_of q targets ≡ true)
    → All (λ f. find f.0 first ≡ none) files
    → All (IsArchive first temps targets) files
archives-IsArchive first temps targets [] ht hq h = tt
archives-IsArchive first temps targets ((p, raw) ∷ files) ht hq h = (
  (h.0, hq p (one_of_head p (names files)), ht (tmp p) (one_of_head (tmp p) (tmp_names files))),
  archives-IsArchive first temps targets files
      (λ t k. ht t (one_of_tail t (tmp p) (tmp_names files) k))
      (λ q k. hq q (one_of_tail q p (names files) k)) h.1,
)

module _ (paths : Paths) (in_archive : String → Bool) (root : String) (a : Successor) where
  module _ (first : Files) (h : IsReady a first) where
    receipt_target : one_of a.receipt_path (targets_of a) ≡ true
    receipt_target =
        one_of_head a.receipt_path (a.transition_path ∷ names (sorted_files a.archive_files))

    transition_target : one_of a.transition_path (targets_of a) ≡ true
    transition_target =
        one_of_tail a.transition_path a.receipt_path _
          (one_of_head a.transition_path (names (sorted_files a.archive_files)))

    archives_ready :
        All (IsArchive first (temporaries a) (targets_of a)) (sorted_files a.archive_files)
    archives_ready =
        archives-IsArchive first (temporaries a) (targets_of a) (sorted_files a.archive_files)
          (λ t k. one_of_right t (own_temporaries a) (tmp_names (sorted_files a.archive_files)) k)
          (λ q k. one_of_tail q a.receipt_path _ (one_of_tail q a.transition_path _ k)) h.no_archive

    pub try_block-Keeps :
        Keeps first a.baseline_path
          (temporaries a)
          (targets_of a)
          (try_block paths in_archive root a)
    unfolding try_block
    try_block-Keeps =
        (block-Kept paths in_archive root first a.baseline_path a.predecessor_raw (temporaries a)
          (targets_of a) h.no_temporary h.predecessor (sorted_files a.archive_files) a.receipt_path
          a.transition_path a.receipt_raw a.transition_raw a.candidate_raw archives_ready
          (h.no_receipt, receipt_target, (own_temporaries-All a).0)
          (h.no_transition, transition_target, (own_temporaries-All a).1.0)
          (own_temporaries-All a).1.1.0).kept
