-- ===== src/Pitest/Install/Frame.antt =====
-- What the `try` block of `install_successor_atomically` in scripts/quality/verify_pitest.py changes.
use gas_station.Base.{
  String, Bool, true, false, ◌||◌, Option, none, some, List, [], ◌∷◌, ◌++◌, ◌==◌, ◌≡◌, ◌≢◌, refl,
  sym, ◌∙◌, arith, if◌then◌else◌, one_of, eq_iff, All, All-append, Bool-cases, inl, inr,
}
use gas_station.Coverage.Bytes.{Bytes}
use gas_station.Coverage.Statuses.{find}
use gas_station.Pitest.Disk.{
  Files, Disk, Paths, put, remove, find-put, find-put_other, find-remove_other,
}
use gas_station.Pitest.Steps.{
  Event, goes, raises, late, leaves, breaks, State, Step, behind, ◌then◌, next_event, with_files,
  written, write, is_done, moved, replace_file, check, note_installed, note_staged,
}
use gas_station.Pitest.Install.{make_dir}

-- A text in a list is another one than a text that is not.
pub apart :
    (t q : String) (xs : List String) → one_of t xs ≡ true → one_of q xs ≡ false → (t == q) ≡ false
apart t q xs h k = elim (Bool-cases (t == q)) [
  | inr n ↦ n
  | inl e ↦ let same : t ≡ q = (eq_iff t q).0 e in cc (rw same at h)
]

-- `first` holds what the files were, `base` is the baseline, and `temps` are the temporary files and
-- `targets` those that may be installed.
module _ (first : Files) (base : String) (temps targets : List String) where
  -- Files that are none of the temporary and installed ones are as before, but for the baseline,
  -- which is there; the installed ones were not there; and no interrupt is to come late.
  pub record IsFramed (s : State) : Type 0 where
    pub frame :
        (p : String)
        → one_of p temps ≡ false
        → one_of p s.installed ≡ false
        → (base == p) ≡ false
        → find p s.disk.files ≡ find p first
    pub fresh : All (λ p. find p first ≡ none) s.installed
    pub present : find base s.disk.files ≢ none
    pub within : All (λ q. one_of q targets ≡ true) s.installed
    pub staged_temps : All (λ t. one_of t temps ≡ true) s.staged
    pub calm : All (λ e. e ≢ late) s.events

  abbrev pub Keeps : Step → Type 0
  Keeps step = (s : State) → IsFramed s → IsFramed (step s).0

  behind-IsFramed : (r : State × Bool) (b : Step) → IsFramed r.0 → Keeps b → IsFramed (behind r b).0
  behind-IsFramed (s, true) b h k = k s h
  behind-IsFramed (s, false) b h k = h

  pub then-Keeps : (a b : Step) → Keeps a → Keeps b → Keeps (a then b)
  then-Keeps a b ka kb s h = behind-IsFramed (a s) b (ka s h) kb

  abbrev pub state : Disk → List String → List String → List Event → State
  state disk installed staged events = record {
    disk = disk;
    events = events;
    installed = installed;
    staged = staged;
  }

  next-IsFramed :
      (disk : Disk) (installed staged : List String) (events : List Event)
      → IsFramed (state disk installed staged events)
      → IsFramed (next_event (state disk installed staged events)).1
        × ((next_event (state disk installed staged events)).0 ≢ late)
  next-IsFramed disk installed staged [] h = (h, cc)
  next-IsFramed disk installed staged (e ∷ es) h = (
    record {
      frame = h.frame;
      fresh = h.fresh;
      present = h.present;
      within = h.within;
      staged_temps = h.staged_temps;
      calm = h.calm.1;
    },
    h.calm.0,
  )

  -- The next event is not late, and the state without it is framed.
  next_event-IsFramed :
      (s : State) → IsFramed s → IsFramed (next_event s).1 × ((next_event s).0 ≢ late)
  next_event-IsFramed s h = next-IsFramed s.disk s.installed s.staged s.events h

  -- A file that is none of the files in question is written.
  put-IsFramed :
      (t : String) (raw : Bytes) (s : State)
      → one_of base temps ≡ false
      → one_of t temps ≡ true
      → IsFramed s
      → IsFramed (with_files s (put t raw s.disk.files))
  put-IsFramed t raw s hb ht h = record {
    frame = λ p k1 k2 k3.
        find-put_other p t raw s.disk.files (apart t p temps ht k1) ∙ h.frame p k1 k2 k3;
    fresh = h.fresh;
    present = λ e.
        h.present (sym (find-put_other base t raw s.disk.files (apart t base temps ht hb)) ∙ e);
    within = h.within;
    staged_temps = h.staged_temps;
    calm = h.calm;
  }

  module _ (hb : one_of base temps ≡ false) where
    written-IsFramed :
        (e : Event) (t : String) (raw : Bytes) (s : State)
        → one_of t temps ≡ true
        → IsFramed s
        → IsFramed (written e t raw s).0
    written-IsFramed goes t raw s ht h = put-IsFramed t raw s hb ht h
    written-IsFramed raises t raw s ht h = h
    written-IsFramed late t raw s ht h = put-IsFramed t raw s hb ht h
    written-IsFramed (leaves other) t raw s ht h = put-IsFramed t other s hb ht h
    written-IsFramed (breaks other) t raw s ht h = put-IsFramed t other s hb ht h

    pub write-Keeps : (t : String) (raw : Bytes) → one_of t temps ≡ true → Keeps (write t raw)
    unfolding write
    write-Keeps t raw ht s h =
        written-IsFramed (next_event s).0 t raw (next_event s).1 ht (next_event-IsFramed s h).0

    -- A temporary file takes the place of a file that was not there, which is then installed, or of
    -- the baseline.
    replaced-frame :
        (t q : String) (raw : Bytes) (s : State) (p : String)
        → one_of t temps ≡ true
        → one_of p temps ≡ false
        → (q == p) ≡ false
        → find p (put q raw (remove t s.disk.files)) ≡ find p s.disk.files
    replaced-frame t q raw s p ht hp apart_q =
        find-put_other p q raw (remove t s.disk.files) apart_q
        ∙ find-remove_other p t s.disk.files (apart t p temps ht hp)

    abbrev replaced : String → String → Bytes → State → State
    replaced t q raw s = with_files s (put q raw (remove t s.disk.files))

    one_of-append :
        (p q : String) (xs : List String) → one_of p (xs ++ q ∷ []) ≡ (one_of p xs || (p == q))
    unfolding one_of
    one_of-append p q [] = ground arith
    one_of-append p q (x ∷ xs) = ground (arith, one_of-append p q xs)

    installed-IsFramed :
        (t q : String) (raw : Bytes) (s : State)
        → one_of t temps ≡ true
        → one_of q targets ≡ true
        → find q first ≡ none
        → (q == base) ≡ false
        → IsFramed s
        → IsFramed (note_installed q (replaced t q raw s)).0
    installed-IsFramed t q raw s ht hw hq hn h = record {
      frame = λ p k1 k2 k3.
          let (k4, k5) = none_of p q s.installed k2 in
          replaced-frame t q raw s p ht k1 k5 ∙ h.frame p k1 k4 k3;
      fresh = All-append (λ p. find p first ≡ none) s.installed (q ∷ []) h.fresh (hq, tt);
      present = λ e. h.present (sym (replaced-frame t q raw s base ht hb hn) ∙ e);
      within = All-append (λ x. one_of x targets ≡ true) s.installed (q ∷ []) h.within (hw, tt);
      staged_temps = h.staged_temps;
      calm = h.calm;
    }
      where
        none_of :
            (p q : String) (xs : List String)
            → one_of p (xs ++ q ∷ []) ≡ false
            → (one_of p xs ≡ false) × ((q == p) ≡ false)
        none_of p q xs k = ground (arith, one_of-append p q xs, eq_iff p q, eq_iff q p)

    based :
        (t : String) (raw : Bytes) (s : State)
        → one_of t temps ≡ true
        → IsFramed s
        → IsFramed (replaced t base raw s)
    based t raw s ht h = record {
      frame = λ p k1 k2 k3. replaced-frame t base raw s p ht k1 k3 ∙ h.frame p k1 k2 k3;
      fresh = h.fresh;
      present = λ e. cc (sym (find-put base raw (remove t s.disk.files)) ∙ e);
      within = h.within;
      staged_temps = h.staged_temps;
      calm = h.calm;
    }

    -- A replacement that is noted.
    abbrev Noted : State × Bool → String → Type 0
    Noted r q = IsFramed (behind r (note_installed q)).0

    moved-Noted :
        (e : Event) (t q : String) (s : State) (found : Option Bytes)
        → e ≢ late
        → one_of t temps ≡ true
        → one_of q targets ≡ true
        → find q first ≡ none
        → (q == base) ≡ false
        → IsFramed s
        → Noted (moved e t q s found) q
    moved-Noted e t q s none he ht hw hq hn h = h
    moved-Noted goes t q s (some raw) he ht hw hq hn h = installed-IsFramed t q raw s ht hw hq hn h
    moved-Noted raises t q s (some raw) he ht hw hq hn h = h
    moved-Noted late t q s (some raw) he ht hw hq hn h = absurd (he refl)
    moved-Noted (leaves other) t q s (some raw) he ht hw hq hn h =
        installed-IsFramed t q raw s ht hw hq hn h
    moved-Noted (breaks other) t q s (some raw) he ht hw hq hn h = h

    pub install-Keeps :
        (t q : String)
        → one_of t temps ≡ true
        → one_of q targets ≡ true
        → find q first ≡ none
        → (q == base) ≡ false
        → Keeps (replace_file t q then note_installed q)
    unfolding replace_file
    install-Keeps t q ht hw hq hn s h =
        let (n, e) = next_event-IsFramed s h in
        let next = (next_event s).1 in
        moved-Noted (next_event s).0 t q next (find t next.disk.files) e ht hw hq hn n

    -- The baseline takes its new bytes last.
    moved-base :
        (e : Event) (t : String) (s : State) (found : Option Bytes)
        → one_of t temps ≡ true
        → IsFramed s
        → IsFramed (moved e t base s found).0
    moved-base e t s none ht h = h
    moved-base goes t s (some raw) ht h = based t raw s ht h
    moved-base raises t s (some raw) ht h = h
    moved-base late t s (some raw) ht h = based t raw s ht h
    moved-base (leaves other) t s (some raw) ht h = based t raw s ht h
    moved-base (breaks other) t s (some raw) ht h = h

    pub base-Keeps : (t : String) → one_of t temps ≡ true → Keeps (replace_file t base)
    unfolding replace_file
    base-Keeps t ht s h =
        let next = (next_event s).1 in
        moved-base (next_event s).0 t next (find t next.disk.files) ht (next_event-IsFramed s h).0

  pub check-Keeps : (t : String) (raw : Bytes) → Keeps (check t raw)
  check-Keeps t raw s h = h

  pub note_staged-Keeps : (t : String) → one_of t temps ≡ true → Keeps (note_staged t)
  note_staged-Keeps t ht s h = record {
    within = h.within;
    frame = h.frame;
    fresh = h.fresh;
    present = h.present;
    staged_temps =
        All-append (λ x. one_of x temps ≡ true) s.staged (t ∷ []) h.staged_temps (ht, tt);
    calm = h.calm;
  }

  pub make_dir-Keeps :
      (paths : Paths) (in_archive : String → Bool) (root path : String)
      → Keeps (make_dir paths in_archive root path)
  unfolding make_dir
  make_dir-Keeps paths in_archive root path s h =
      let n = (next_event-IsFramed s h).0 in
      elim (Bool-cases (is_done (next_event s).0)) [
        | inl d ↦ rw d (record {
          frame = n.frame;
          fresh = n.fresh;
          present = n.present;
          within = n.within;
          staged_temps = n.staged_temps;
          calm = n.calm;
        })
        | inr d ↦ rw d n
      ]

  pub then_assoc-Keeps : (a b c : Step) → Keeps ((a then b) then c) → Keeps (a then b then c)
  then_assoc-Keeps a b c k s h = rw (← (same (a s))) (k s h)
    where
      same : (r : State × Bool) → behind (behind r b) c ≡ behind r (b then c)
      same (s, true) = refl
      same (s, false) = refl
