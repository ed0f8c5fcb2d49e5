-- ===== src/Pitest/Install/Runs.antt =====
-- Steps of `install_successor_atomically` in scripts/quality/verify_pitest.py where the system does
-- all that it is asked to.
use gas_station.Base.{
  String, Bool, true, false, Option, none, some, List, [], ◌∷◌, ◌≡◌, refl, ap, ◌∙◌, All,
}
use gas_station.Coverage.Bytes.{Bytes, bytes_eq_refl}
use gas_station.Coverage.Statuses.{find}
use gas_station.Pitest.Disk.{Files, Disk, Paths, remove, find-put}
use gas_station.Pitest.Steps.{
  Event, goes, raises, late, leaves, breaks, State, Step, behind, ◌then◌, next_event, written,
  write, moved, replace_file, check, reads_as, holds, note_installed, note_staged,
}
use gas_station.Pitest.Install.{make_dir}
use gas_station.Pitest.Install.Done.{Contents, Others, put-Contents, remove-Contents}

abbrev pub AllGo : List Event → Type 0
AllGo = All (λ e. e ≡ goes)

-- What a step has led to: it goes on, the files hold the contents, and the rest will go on too.
abbrev pub Went : State × Bool → Files → Type 0
Went (s, on) L = (on ≡ true) × Contents L s.disk.files × AllGo s.events

pub record Runs (before : Files) (step : Step) (after : Files) : Type 0 where
  pub runs : (s : State) → Contents before s.disk.files → AllGo s.events → Went (step s) after

behind-Went :
    (L M : Files) (r : State × Bool) (b : Step) → Went r L → Runs L b M → Went (behind r b) M
behind-Went L M (s, true) b (on, held, calm) k = k.runs s held calm
behind-Went L M (s, false) b (on, held, calm) k = cc

infixr 4 ◌onward◌
pub ◌onward◌ : {K L M : Files} {a b : Step} → Runs K a L → Runs L b M → Runs K (a then b) M
◌onward◌ {K = K} {L = L} {M = M} {a = a} {b = b} ha hb = record {
  runs = λ s held calm. behind-Went L M (a s) b (ha.runs s held calm) hb;
}

-- Other contents that the first ones give.
pub given :
    {K L M : Files}
    → {step : Step} → ((files : Files) → Contents K files → Contents L files)
    → Runs L step M
    → Runs K step M
given f h = record { runs = λ s held calm. h.runs s (f s.disk.files held) calm }

next-goes :
    (disk : Disk) (installed staged : List String) (events : List Event) (L : Files)
    → Contents L disk.files
    → AllGo events
    → let s : State = record {
      disk = disk;
      events = events;
      installed = installed;
      staged = staged;
    } in
      ((next_event s).0 ≡ goes)
      × Contents L (next_event s).1.disk.files
      × AllGo (next_event s).1.events
next-goes disk installed staged [] L held calm = (refl, held, tt)
next-goes disk installed staged (e ∷ es) L held calm = (calm.0, held, calm.1)

abbrev next_goes :
    (s : State) (L : Files)
    → Contents L s.disk.files
    → AllGo s.events
    → ((next_event s).0 ≡ goes)
      × Contents L (next_event s).1.disk.files
      × AllGo (next_event s).1.events
next_goes s L held calm = next-goes s.disk s.installed s.staged s.events L held calm

written-Went :
    (e : Event) (t : String) (raw : Bytes) (L : Files) (s : State)
    → e ≡ goes
    → Others t L
    → Contents L s.disk.files
    → AllGo s.events
    → Went (written e t raw s) ((t, raw) ∷ L)
written-Went goes t raw L s h o held calm =
    (refl, (find-put t raw s.disk.files, put-Contents t raw L s.disk.files o held), calm)
written-Went raises t raw L s h o held calm = cc
written-Went late t raw L s h o held calm = cc
written-Went (leaves other) t raw L s h o held calm = cc
written-Went (breaks other) t raw L s h o held calm = cc

pub write-Runs :
    (t : String) (raw : Bytes) (L : Files) → Others t L → Runs L (write t raw) ((t, raw) ∷ L)
unfolding write
write-Runs t raw L o = record {
  runs = λ s held calm.
      let (e, kept, rest) = next_goes s L held calm in
      written-Went (next_event s).0 t raw L (next_event s).1 e o kept rest;
}

pub check-Runs :
    (t : String) (raw : Bytes) (L : Files) → Runs ((t, raw) ∷ L) (check t raw) ((t, raw) ∷ L)
unfolding holds
check-Runs t raw L = record { runs = run }
  where
    run :
        (s : State)
        → Contents ((t, raw) ∷ L) s.disk.files
        → AllGo s.events
        → Went (check t raw s) ((t, raw) ∷ L)
    run s held calm = (ap (λ found. reads_as found raw) held.0 ∙ bytes_eq_refl raw, held, calm)

moved-Went :
    (e : Event) (t q : String) (raw : Bytes) (L : Files) (s : State) (found : Option Bytes)
    → e ≡ goes
    → found ≡ some raw
    → Others t L
    → Others q L
    → Contents L s.disk.files
    → AllGo s.events
    → Went (moved e t q s found) ((q, raw) ∷ L)
moved-Went e t q raw L s none h f ot oq held calm = cc
moved-Went goes t q raw L s (some r) h f ot oq held calm = (
  refl,
  (
    find-put q r (remove t s.disk.files) ∙ f,
    put-Contents q r L (remove t s.disk.files) oq (remove-Contents t L s.disk.files ot held),
  ),
  calm,
)
moved-Went raises t q raw L s (some r) h f ot oq held calm = cc
moved-Went late t q raw L s (some r) h f ot oq held calm = cc
moved-Went (leaves other) t q raw L s (some r) h f ot oq held calm = cc
moved-Went (breaks other) t q raw L s (some r) h f ot oq held calm = cc

pub replace-Runs :
    (t q : String) (raw : Bytes) (L : Files)
    → Others t L
    → Others q L
    → Runs ((t, raw) ∷ L) (replace_file t q) ((q, raw) ∷ L)
unfolding replace_file
replace-Runs t q raw L ot oq = record {
  runs = λ s held calm.
      let (e, kept, rest) = next_goes s ((t, raw) ∷ L) held calm in
      let next = (next_event s).1 in
      moved-Went (next_event s).0 t q raw L next (find t next.disk.files) e kept.0 ot oq kept.1
        rest;
}

pub note-Runs : (q : String) (L : Files) → Runs L (note_installed q) L
note-Runs q L = record { runs = λ s held calm. (refl, held, calm) }

pub staged-Runs : (t : String) (L : Files) → Runs L (note_staged t) L
staged-Runs t L = record { runs = λ s held calm. (refl, held, calm) }

pub make_dir-Runs :
    (paths : Paths) (in_archive : String → Bool) (root path : String) (L : Files)
    → Runs L (make_dir paths in_archive root path) L
unfolding make_dir
make_dir-Runs paths in_archive root path L = record { runs = run }
  where
    run :
        (s : State)
        → Contents L s.disk.files
        → AllGo s.events
        → Went (make_dir paths in_archive root path s) L
    run s held calm = let (e, kept, rest) = next_goes s L held calm in rw e (refl, kept, rest)
