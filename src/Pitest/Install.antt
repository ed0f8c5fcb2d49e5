-- ===== src/Pitest/Install.antt =====
-- `install_successor_atomically` of scripts/quality/verify_pitest.py.
pub mod Tests
pub mod Frame
pub mod Kept
pub mod Undone
pub mod Done
pub mod Staged
pub mod Block
pub mod Sorted
pub mod Wanted
pub mod Atomic
pub mod Runs
pub mod Archives
pub mod Returns
use gas_station.Base.{
  ℕ, String, ◌<>◌, Bool, true, false, not, ◌&&◌, ◌||◌, Option, none, some, List, [], ◌∷◌, ◌++◌,
  ◌==◌, if◌then◌else◌, leb, one_of, is_earlier, any, map,
}
use gas_station.Coverage.Bytes.{Bytes, bytes_eq}
use gas_station.Coverage.Statuses.{find}
use gas_station.Pitest.Disk.{Files, Disk, Paths, put, remove}
use gas_station.Pitest.Steps.{
  Event, State, Step, behind, breaks, check, goes, goes_on, holds, is_done, is_found, is_there,
  late, leaves, moved, next_event, note_installed, note_staged, raises, reads_as, replace_file,
  restore_tmp, tmp, with_files, write, written, ◌then◌,
}

-- The arguments.
pub record Successor : Type 0 where
  pub baseline_path : String
  pub predecessor_raw : Bytes
  pub candidate_raw : Bytes
  pub receipt_path : String
  pub receipt_raw : Bytes
  pub transition_path : String
  pub transition_raw : Bytes
  pub archive_files : Files

abbrev add_dir : List String → String → List String
add_dir dirs d = if one_of d dirs then dirs else d ∷ dirs

abbrev pub add_dirs : List String → List String → List String
add_dirs dirs [] = dirs
add_dirs dirs (d ∷ ds) = add_dirs (add_dir dirs d) ds

unfoldable pub insert_file : String × Bytes → Files → Files
insert_file f [] = f ∷ []
insert_file f (g ∷ files) =
    let rest = insert_file f files in if is_earlier f.0 g.0 then f ∷ g ∷ files else g ∷ rest

-- `sorted(archive_files.items(), key=…)`
unfoldable pub sorted_files : Files → Files
unfolding insert_file
sorted_files [] = []
sorted_files (f ∷ files) = insert_file f (sorted_files files)

-- `for path in reversed(…)`, each removed where it exists
abbrev pub remove_all : List String → Files → Files
remove_all [] files = files
remove_all (p ∷ ps) files = remove p (remove_all ps files)

module _ (a : Successor) where
  -- The baseline is written to a temporary file that takes its place, where it is there with other
  -- bytes than its predecessor's.
  abbrev pub restored_over : Files → Option Bytes → Files
  restored_over files none = files
  restored_over files (some raw) =
      if bytes_eq raw a.predecessor_raw
      then files
      else put a.baseline_path a.predecessor_raw (
          remove (restore_tmp a.baseline_path)
            (put (restore_tmp a.baseline_path) a.predecessor_raw files))

  unfoldable pub restore_baseline : Files → Files
  unfolding find put remove
  restore_baseline files = restored_over files (find a.baseline_path files)

  -- The `except` block, in which the system does what it is asked to.
  unfoldable pub roll_back : State → Files
  unfolding restore_baseline
  roll_back s = remove_all s.installed (restore_baseline s.disk.files)

  abbrev pub own_temporaries : List String
  own_temporaries =
      tmp a.receipt_path
      ∷ tmp a.transition_path
      ∷ tmp a.baseline_path
      ∷ restore_tmp a.baseline_path
      ∷ []

  abbrev pub already_there : Disk → Bool
  already_there disk =
      is_there a.receipt_path disk
      || is_there a.transition_path disk
      || any (λ f. is_there f.0 disk) a.archive_files

module _ (paths : Paths) (in_archive : String → Bool) (archive_root : String) where
  -- `path.mkdir(parents=True, exist_ok=True)`
  unfoldable pub make_dir : String → Step
  unfolding one_of
  make_dir path s =
      let (e, next) = next_event s in
      if is_done e
      then (
        record next {
          disk = record {
            files = next.disk.files;
            dirs = add_dirs next.disk.dirs (path ∷ paths.parents path);
          };
        },
        goes_on e,
      )
      else (next, false)

  unfoldable pub install_archive : String × Bytes → Step
  unfolding make_dir write replace_file holds
  install_archive (path, raw) =
      (λ s. (s, in_archive path))
      then make_dir (paths.parent path)
      then note_staged (tmp path)
      then write (tmp path) raw
      then check (tmp path) raw
      then replace_file (tmp path) path
      then note_installed path

  unfoldable pub install_archives : Files → Step
  unfolding install_archive
  install_archives [] s = (s, true)
  install_archives (f ∷ files) s = (install_archive f then (λ next. install_archives files next)) s

  module _ (a : Successor) where
    -- The `try` block.
    unfoldable pub try_block : Step
    unfolding install_archives sorted_files write replace_file holds
    try_block =
        install_archives (sorted_files a.archive_files)
        then write (tmp a.receipt_path) a.receipt_raw
        then write (tmp a.transition_path) a.transition_raw
        then write (tmp a.baseline_path) a.candidate_raw
        then check (tmp a.receipt_path) a.receipt_raw
        then check (tmp a.transition_path) a.transition_raw
        then check (tmp a.baseline_path) a.candidate_raw
        then replace_file (tmp a.receipt_path) a.receipt_path
        then note_installed a.receipt_path
        then replace_file (tmp a.transition_path) a.transition_path
        then note_installed a.transition_path
        then replace_file (tmp a.baseline_path) a.baseline_path

    -- The directories of the archive files and those above them, the deepest first.
    abbrev place_dir : String → List String → List String
    place_dir d [] = d ∷ []
    place_dir d (x ∷ xs) =
        let placed = place_dir d xs in
        if leb (paths.depth x) (paths.depth d) then d ∷ x ∷ xs else x ∷ placed

    abbrev insert_dir : String → List String → List String
    insert_dir d xs = if one_of d xs then xs else place_dir d xs

    abbrev pub archive_dirs : Files → List String
    archive_dirs [] = []
    archive_dirs ((p, raw) ∷ files) =
        insert_dir (paths.parent p)
          (insert_dir (paths.parent (paths.parent p)) (archive_dirs files))

    abbrev is_used : String → Disk → Bool
    is_used d disk =
        any (λ f. paths.parent f.0 == d) disk.files || any (λ x. paths.parent x == d) disk.dirs

    abbrev drop_dir : String → List String → List String
    drop_dir d [] = []
    drop_dir d (x ∷ xs) = let rest = drop_dir d xs in if x == d then rest else x ∷ rest

    -- `rmdir` of each directory that is there and empty.
    unfoldable pub remove_dirs : List String → Disk → Disk
    unfolding any one_of
    remove_dirs [] disk = disk
    remove_dirs (d ∷ ds) disk = remove_dirs ds (
        if not (d == archive_root) && one_of d disk.dirs && not (is_used d disk)
        then record disk { dirs = drop_dir d disk.dirs }
        else disk)

    -- The `finally` block.
    unfoldable pub clean_up : State → Files → Disk
    unfolding remove_dirs remove one_of
    clean_up s files = remove_dirs (archive_dirs a.archive_files) (record {
      files = remove_all s.staged (remove_all (own_temporaries a) files);
      dirs = s.disk.dirs;
    })

    -- What the `try` block leads to: the disk, and whether the call returns.
    unfoldable pub settled : State × Bool → Disk × Bool
    unfolding roll_back clean_up
    settled (s, on) =
        if on then (clean_up s s.disk.files, true) else (clean_up s (roll_back a s), false)

    abbrev pub start_of : Disk → List Event → State
    start_of disk events = record { disk = disk; events = events; installed = []; staged = [] }

    -- A directory that cannot be made ends the call before the `try` block.
    unfoldable pub install_successor_atomically : Disk → List Event → Disk × Bool
    unfolding make_dir try_block settled any find
    install_successor_atomically disk events =
        if already_there a disk
        then (disk, false)
        else let (s, on) =
            (make_dir (paths.parent a.receipt_path) then make_dir (paths.parent a.transition_path))
              (start_of disk events) in
          if on then settled (try_block s) else (s.disk, false)
