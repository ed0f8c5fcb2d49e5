-- ===== src/Pitest/Install/Archives.antt =====
-- The archive files that `install_successor_atomically` of scripts/quality/verify_pitest.py writes
-- where the system does all that it is asked to.
use gas_station.Base.{String, Bool, true, List, [], ◌∷◌, ◌≡◌, refl, All}
use gas_station.Coverage.Bytes.{Bytes}
use gas_station.Pitest.Disk.{Files, Paths}
use gas_station.Pitest.Steps.{tmp}
use gas_station.Pitest.Install.{install_archive, install_archives}
use gas_station.Pitest.Install.Kept.{names}
use gas_station.Pitest.Install.Done.{Others}
use gas_station.Pitest.Install.Runs.{
  Runs, ◌onward◌, write-Runs, check-Runs, replace-Runs, note-Runs, staged-Runs, make_dir-Runs,
}
use gas_station.Pitest.Install.Staged.{
  Outside, Outside-tail, Others-Outside, done_onto, Fit, one_of_head,
}

module _ (paths : Paths) (in_archive : String → Bool) (root : String) where
  install_archive-Runs :
      (p : String) (raw : Bytes) (L : Files)
      → in_archive p ≡ true
      → Others (tmp p) L
      → Others p L
      → Runs L (install_archive paths in_archive root (p, raw)) ((p, raw) ∷ L)
  unfolding install_archive
  install_archive-Runs p raw L inside ot op =
      allowed
      onward make_dir-Runs paths in_archive root (paths.parent p) L
      onward staged-Runs (tmp p) L
      onward write-Runs (tmp p) raw L ot
      onward check-Runs (tmp p) raw L
      onward replace-Runs (tmp p) p raw L ot op
      onward note-Runs p ((p, raw) ∷ L)
    where
      allowed : Runs L (λ s. (s, in_archive p)) L
      allowed = record { runs = λ s held calm. (inside, held, calm) }

  module _ (temps : List String) where
    pub install_archives-Runs :
        (files L : Files)
        → All (λ f. in_archive f.0 ≡ true) files
        → Fit temps files
        → Outside temps L
        → Outside (names files) L
        → Runs L (install_archives paths in_archive root files) (done_onto files L)
    unfolding install_archives
    install_archives-Runs [] L inside fit out apart_names = record {
      runs = λ s held calm. (refl, held, calm);
    }
    install_archives-Runs ((p, raw) ∷ files) L inside (plain, temp, new, fit) out apart_names =
        record {
          runs =
              (install_archive-Runs p raw L inside.0 (Others-Outside (tmp p) temps L temp out)
                  (Others-Outside p (p ∷ names files) L (one_of_head p (names files)) apart_names)
                onward install_archives-Runs files ((p, raw) ∷ L) inside.1 fit (plain, out)
                    (new, Outside-tail p (names files) L apart_names)).runs;
        }
