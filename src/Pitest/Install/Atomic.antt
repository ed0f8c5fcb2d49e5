-- ===== src/Pitest/Install/Atomic.antt =====
-- A theorem on the files before and after a call of `install_successor_atomically` of
-- scripts/quality/verify_pitest.py.
use gas_station.Base.{
  String, Bool, true, false, List, ◌≡◌, ◌≢◌, refl, sym, ap, ◌∙◌, one_of, All, Bool-cases, inl, inr,
  if◌then◌else◌,
}
use gas_station.Coverage.Statuses.{find}
use gas_station.Pitest.Disk.{Disk, Paths}
use gas_station.Pitest.Steps.{Event, late, State, Step, behind, ◌then◌}
use gas_station.Pitest.Install.{
  Successor, make_dir, try_block, already_there, settled, start_of, install_successor_atomically,
}
use gas_station.Pitest.Install.Frame.{IsFramed, then-Keeps, make_dir-Keeps}
use gas_station.Pitest.Install.Kept.{temporaries, targets_of, IsReady, try_block-Keeps}
use gas_station.Pitest.Install.Undone.{find-clean_up, undone}
use gas_station.Pitest.Install.Done.{make_dir-files}
use gas_station.Pitest.Install.Sorted.{put_all}
use gas_station.Pitest.Install.Wanted.{wanted, IsSeparate, ready, try_block-done}

module _ (paths : Paths) (in_archive : String → Bool) (root : String) (a : Successor) (disk : Disk)
    (h : IsSeparate a disk.files) where
  abbrev dirs_made : Step
  dirs_made =
      make_dir paths in_archive root (paths.parent a.receipt_path)
      then make_dir paths in_archive root (paths.parent a.transition_path)

  dirs_made-files : (s : State) → (dirs_made s).0.disk.files ≡ s.disk.files
  dirs_made-files s =
      of (make_dir paths in_archive root (paths.parent a.receipt_path) s)
      ∙ make_dir-files paths in_archive root (paths.parent a.receipt_path) s
    where
      of :
          (r : State × Bool)
          → (behind r
              (make_dir paths in_archive root (paths.parent a.transition_path))).0.disk.files
            ≡ r.0.disk.files
      of (t, true) = make_dir-files paths in_archive root (paths.parent a.transition_path) t
      of (t, false) = refl

  abbrev Framed : State → Type 0
  Framed s = IsFramed disk.files a.baseline_path (temporaries a) (targets_of a) s

  start-Framed :
      (events : List Event)
      → All (λ e. e ≢ late) events
      → Framed (start_of paths in_archive root a disk events)
  start-Framed events calm = record {
    frame = λ q k1 k2 k3. refl;
    fresh = tt;
    present = λ e. cc (sym h.predecessor ∙ e);
    within = tt;
    staged_temps = tt;
    calm = calm;
  }

  dirs_made-Framed : (s : State) → Framed s → Framed (dirs_made s).0
  dirs_made-Framed s k =
      then-Keeps disk.files a.baseline_path (temporaries a) (targets_of a)
        (make_dir paths in_archive root (paths.parent a.receipt_path))
        (make_dir paths in_archive root (paths.parent a.transition_path))
        (make_dir-Keeps disk.files a.baseline_path (temporaries a) (targets_of a) paths in_archive
          root (paths.parent a.receipt_path))
        (make_dir-Keeps disk.files a.baseline_path (temporaries a) (targets_of a) paths in_archive
          root (paths.parent a.transition_path))
        s k

  -- What is promised of a file.
  abbrev Promised : String → Disk × Bool → Type 0
  Promised p (after, returns) =
      find p after.files ≡ find p (if returns then put_all (wanted a) disk.files else disk.files)

  settled-Promised :
      (r : State × Bool) (p : String)
      → IsReady a disk.files
      → Framed r.0
      → (r.1 ≡ true → find p r.0.disk.files ≡ find p (put_all (wanted a) disk.files))
      → one_of p (temporaries a) ≡ false
      → Promised p (settled paths in_archive root a r)
  unfolding settled
  settled-Promised (s, true) p begun framed held plain =
      find-clean_up paths in_archive root a p s s.disk.files framed.staged_temps plain ∙ held refl
  settled-Promised (s, false) p begun framed held plain =
      undone paths in_archive root a disk.files s begun framed p plain

  abbrev made : List Event → State × Bool
  made events = dirs_made (start_of paths in_archive root a disk events)

  tried :
      (events : List Event)
      → All (λ e. e ≢ late) events
      → (p : String) → one_of p (temporaries a) ≡ false
      → already_there a disk ≡ false
      → Promised p (
          if (made events).1
          then settled paths in_archive root a (try_block paths in_archive root a (made events).0)
          else ((made events).0.disk, false))
  tried events calm p plain fresh = elim (Bool-cases (made events).1) [
    | inr off ↦
        rw off (ap (find p) (dirs_made-files (start_of paths in_archive root a disk events)))
    | inl on ↦
        let begun = ready a disk h fresh in
        let first_framed = dirs_made-Framed _ (start-Framed events calm) in
        let framed =
          try_block-Keeps paths in_archive root a disk.files begun (made events).0 first_framed in
        rw on (
          settled-Promised (try_block paths in_archive root a (made events).0) p begun framed
            (λ e.
              try_block-done a disk h fresh paths in_archive root (made events).0 p framed e plain)
            plain)
  ]

module _ (paths : Paths) (in_archive : String → Bool) (root : String) where
  -- Where no interrupt comes behind an operation that is done, the baseline is the predecessor, the
  -- names of the targets differ, and neither they nor the baseline's are temporary ones: a file that
  -- is no temporary one holds after the call what it held before, if the call fails, and what it
  -- holds once all that the successor brings is written, if the call returns.
  pub install-IsAtomic :
      (a : Successor) (disk : Disk) (events : List Event)
      → IsSeparate a disk.files
      → All (λ e. e ≢ late) events
      → (p : String) → one_of p (temporaries a) ≡ false
      → let (after, returns) = install_successor_atomically paths in_archive root a disk events in
        find p after.files ≡ find p (if returns then put_all (wanted a) disk.files else disk.files)
  unfolding install_successor_atomically
  install-IsAtomic a disk events h calm p plain = elim (Bool-cases (already_there a disk)) [
    | inl there ↦ rw there refl
    | inr fresh ↦ rw fresh (tried paths in_archive root a disk h events calm p plain fresh)
  ]
