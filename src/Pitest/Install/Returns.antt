-- ===== src/Pitest/Install/Returns.antt =====
-- A theorem on the calls of `install_successor_atomically` of scripts/quality/verify_pitest.py
-- in which nothing goes wrong.
use gas_station.Base.{String, Bool, true, false, List, [], ◌≡◌, refl, All, if◌then◌else◌}
use gas_station.Pitest.Disk.{Files, Disk, Paths}
use gas_station.Pitest.Steps.{Event, State, ◌then◌}
use gas_station.Pitest.Install.{
  Successor, try_block, already_there, settled, start_of, install_successor_atomically,
}
use gas_station.Pitest.Install.Runs.{AllGo, Went, Runs, ◌onward◌, make_dir-Runs}
use gas_station.Pitest.Install.Sorted.{All-sorted_files}
use gas_station.Pitest.Install.Wanted.{IsSeparate, try_block-Runs}

module _ (paths : Paths) (in_archive : String → Bool) (root : String) where
  settled-returns :
      (a : Successor) (r : State × Bool) (L : Files)
      → Went r L
      → (settled paths in_archive root a r).1 ≡ true
  unfolding settled
  settled-returns a (s, true) L (on, held, calm) = refl
  settled-returns a (s, false) L (on, held, calm) = cc

  made-returns :
      (a : Successor) (r : State × Bool) (L M : Files)
      → Went r L
      → Runs L (try_block paths in_archive root a) M
      → (if r.1
          then settled paths in_archive root a (try_block paths in_archive root a r.0)
          else (r.0.disk, false)).1
        ≡ true
  made-returns a (s, true) L M (on, held, calm) k =
      settled-returns a (try_block paths in_archive root a s) M (k.runs s held calm)
  made-returns a (s, false) L M (on, held, calm) k = cc

  -- Where the system does all that it is asked to, nothing that is to be installed is there, the
  -- archive files lie in the archive, the baseline is the predecessor, the names of the targets
  -- differ, and neither they nor the baseline's are temporary ones, the call returns.
  pub install-returns :
      (a : Successor) (disk : Disk) (events : List Event)
      → IsSeparate a disk.files
      → already_there a disk ≡ false
      → All (λ f. in_archive f.0 ≡ true) a.archive_files
      → AllGo events
      → (install_successor_atomically paths in_archive root a disk events).1 ≡ true
  unfolding install_successor_atomically
  install-returns a disk events h fresh inside calm = rw fresh (
      made-returns a _ [] _
        ((make_dir-Runs paths in_archive root (paths.parent a.receipt_path) []
            onward make_dir-Runs paths in_archive root (paths.parent a.transition_path) []).runs
          (start_of paths in_archive root a disk events) tt calm)
        (try_block-Runs a disk h fresh paths in_archive root
          (All-sorted_files (λ f. in_archive f.0 ≡ true) a.archive_files inside)))
