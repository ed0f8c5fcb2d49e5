-- ===== src/Pitest/Install/Staged.antt =====
-- The archive files and the rest that the `try` block of `install_successor_atomically` in
-- scripts/quality/verify_pitest.py writes where it ends without a failure.
use gas_station.Base.{
  String, Bool, true, false, List, [], ◌∷◌, ◌≡◌, refl, arith, one_of, eq_iff, All,
}
use gas_station.Coverage.Bytes.{Bytes}
use gas_station.Pitest.Disk.{Files, Paths}
use gas_station.Pitest.Steps.{tmp, note_installed, note_staged}
use gas_station.Pitest.Install.{make_dir, install_archive, install_archives}
use gas_station.Pitest.Install.Frame.{apart}
use gas_station.Pitest.Install.Kept.{names}
use gas_station.Pitest.Install.Done.{
  Led, ◌upto◌, writing, checking, replacing, resting, Others, make_dir-files,
}

abbrev pub IsDistinct : List String → Type 0
IsDistinct [] = Unit
IsDistinct (x ∷ xs) = (one_of x xs ≡ false) × IsDistinct xs

-- Files none of which is in a list of names.
abbrev pub Outside : List String → Files → Type 0
Outside xs = All (λ g. one_of g.0 xs ≡ false)

pub Others-Outside :
    (t : String) (xs : List String) (L : Files) → one_of t xs ≡ true → Outside xs L → Others t L
Others-Outside t xs [] h o = tt
Others-Outside t xs (g ∷ L) h o = (apart t g.0 xs h o.0, Others-Outside t xs L h o.1)

-- The files done, the last first.
abbrev pub done_onto : Files → Files → Files
done_onto [] L = L
done_onto (f ∷ files) L = done_onto files (f ∷ L)

pub All-done_onto :
    (P : String × Bytes → Type 0) (files L : Files)
    → All P files
    → All P L
    → All P (done_onto files L)
All-done_onto P [] L h k = k
All-done_onto P (f ∷ files) L h k = All-done_onto P files (f ∷ L) h.1 (h.0, k)

pub done_onto-All :
    (P : String × Bytes → Type 0) (files L : Files)
    → All P (done_onto files L)
    → All P files × All P L
done_onto-All P [] L h = (tt, h)
done_onto-All P (f ∷ files) L h =
    let (rest, more) = done_onto-All P files (f ∷ L) h in ((more.0, rest), more.1)

-- What is asked of the archive files: their names differ, none is a temporary one, and their
-- temporary files are.
abbrev pub Fit : List String → Files → Type 0
Fit temps [] = Unit
Fit temps ((p, raw) ∷ files) =
    (one_of p temps ≡ false)
    × (one_of (tmp p) temps ≡ true)
    × (one_of p (names files) ≡ false)
    × Fit temps files

pub one_of_head : (x : String) (xs : List String) → one_of x (x ∷ xs) ≡ true
unfolding one_of
one_of_head x xs = ground (arith, eq_iff x x)

pub Outside-tail : (x : String) (xs : List String) (L : Files) → Outside (x ∷ xs) L → Outside xs L
unfolding one_of
Outside-tail x xs [] o = tt
Outside-tail x xs ((p, raw) ∷ L) o = (ground (arith, o.0), Outside-tail x xs L o.1)

module _ (paths : Paths) (in_archive : String → Bool) (root : String) where
  install_archive-Led :
      (p : String) (raw : Bytes) (L : Files)
      → Others (tmp p) L
      → Others p L
      → Led L (install_archive paths in_archive root (p, raw)) ((p, raw) ∷ L)
  unfolding install_archive
  install_archive-Led p raw L ot op =
      resting L (λ s. (s, in_archive p)) (λ s. refl)
      upto resting L (make_dir paths in_archive root (paths.parent p))
          (make_dir-files paths in_archive root (paths.parent p))
      upto resting L (note_staged (tmp p)) (λ s. refl)
      upto writing (tmp p) raw L ot
      upto checking (tmp p) raw L
      upto replacing (tmp p) p raw L ot op
      upto resting ((p, raw) ∷ L) (note_installed p) (λ s. refl)

  module _ (temps : List String) where
    pub install_archives-Led :
        (files L : Files)
        → Fit temps files
        → Outside temps L
        → Outside (names files) L
        → Led L (install_archives paths in_archive root files) (done_onto files L)
    unfolding install_archives
    install_archives-Led [] L fit out apart_names = resting L _ (λ s. refl)
    install_archives-Led ((p, raw) ∷ files) L (plain, temp, new, fit) out apart_names = record {
      leads =
          (install_archive-Led p raw L (Others-Outside (tmp p) temps L temp out)
              (Others-Outside p (p ∷ names files) L (one_of_head p (names files)) apart_names)
            upto install_archives-Led files ((p, raw) ∷ L) fit (plain, out)
                (new, Outside-tail p (names files) L apart_names)).leads;
    }
