-- ===== src/Pitest/Install/Done.antt =====
-- What the `try` block of `install_successor_atomically` in scripts/quality/verify_pitest.py has
-- written where it ends without a failure.
use gas_station.Base.{
  String, Bool, true, false, Option, none, some, List, [], ◌∷◌, ◌==◌, ◌≡◌, refl, ap, ◌∙◌,
  if◌then◌else◌, All, Bool-cases, inl, inr,
}
use gas_station.Coverage.Bytes.{Bytes, bytes_eq-eq}
use gas_station.Coverage.Statuses.{find}
use gas_station.Pitest.Disk.{
  Files, Disk, Paths, put, remove, find-put, find-put_other, find-remove_other,
}
use gas_station.Pitest.Steps.{
  Event, goes, raises, late, leaves, breaks, State, Step, behind, ◌then◌, next_event, written,
  write, is_done, moved, replace_file, check, reads_as, holds,
}
use gas_station.Pitest.Install.{make_dir}

abbrev pub Contents : Files → Files → Type 0
Contents wanted files = All (λ f. find f.0 files ≡ some f.1) wanted

-- A step that goes on leads from some contents to others.
abbrev Leads : Files → Step → Files → Type 0
Leads before step after =
    (s : State)
    → Contents before s.disk.files
    → (step s).1 ≡ true
    → Contents after (step s).0.disk.files

behind-Leads :
    (L M : Files) (r : State × Bool) (b : Step)
    → (r.1 ≡ true → Contents L r.0.disk.files)
    → Leads L b M
    → (behind r b).1 ≡ true
    → Contents M (behind r b).0.disk.files
behind-Leads L M (s, true) b h k e = k s (h refl) e
behind-Leads L M (s, false) b h k e = cc

then-Leads : (K L M : Files) (a b : Step) → Leads K a L → Leads L b M → Leads K (a then b) M
then-Leads K L M a b ha hb s k = behind-Leads L M (a s) b (ha s k) hb

pub next_event-files : (s : State) → (next_event s).1.disk.files ≡ s.disk.files
next_event-files s = of s.disk s.installed s.staged s.events
  where
    of :
        (disk : Disk) (installed staged : List String) (events : List Event)
        → (next_event (record {
          disk = disk;
          events = events;
          installed = installed;
          staged = staged;
        })).1.disk.files
          ≡ disk.files
    of disk installed staged [] = refl
    of disk installed staged (e ∷ es) = refl

-- Other files than the one in question.
abbrev pub Others : String → Files → Type 0
Others path = All (λ f. (path == f.0) ≡ false)

pub put-Contents :
    (t : String) (raw : Bytes) (L files : Files)
    → Others t L
    → Contents L files
    → Contents L (put t raw files)
put-Contents t raw [] files o h = tt
put-Contents t raw ((p, r) ∷ L) files o h =
    (find-put_other p t raw files o.0 ∙ h.0, put-Contents t raw L files o.1 h.1)

pub remove-Contents :
    (t : String) (L files : Files) → Others t L → Contents L files → Contents L (remove t files)
remove-Contents t [] files o h = tt
remove-Contents t ((p, r) ∷ L) files o h =
    (find-remove_other p t files o.0 ∙ h.0, remove-Contents t L files o.1 h.1)

written-Contents :
    (e : Event) (t : String) (raw : Bytes) (L : Files) (s : State)
    → Others t L
    → Contents L s.disk.files
    → Contents L (written e t raw s).0.disk.files
written-Contents goes t raw L s o h = put-Contents t raw L s.disk.files o h
written-Contents raises t raw L s o h = h
written-Contents late t raw L s o h = put-Contents t raw L s.disk.files o h
written-Contents (leaves other) t raw L s o h = put-Contents t other L s.disk.files o h
written-Contents (breaks other) t raw L s o h = put-Contents t other L s.disk.files o h

write-Leads : (t : String) (raw : Bytes) (L : Files) → Others t L → Leads L (write t raw) L
unfolding write
write-Leads t raw L o s h e =
    written-Contents (next_event s).0 t raw L (next_event s).1 o (rw (next_event-files s) h)

holds-found :
    (t : String) (raw : Bytes) (s : State) → holds t raw s ≡ true → find t s.disk.files ≡ some raw
unfolding holds
holds-found t raw s e = of (find t s.disk.files) e
  where
    of : (found : Option Bytes) → reads_as found raw ≡ true → found ≡ some raw
    of none e = cc
    of (some found) e = ap some (bytes_eq-eq found raw e)

check-Leads : (t : String) (raw : Bytes) (L : Files) → Leads L (check t raw) ((t, raw) ∷ L)
check-Leads t raw L s h e = (holds-found t raw s e, h)

moved-Contents :
    (e : Event) (t q : String) (raw : Bytes) (L : Files) (s : State) (found : Option Bytes)
    → Others t L
    → Others q L
    → found ≡ some raw
    → Contents L s.disk.files
    → (moved e t q s found).1 ≡ true
    → Contents ((q, raw) ∷ L) (moved e t q s found).0.disk.files
moved-Contents e t q raw L s none ot oq f h on = cc
moved-Contents goes t q raw L s (some r) ot oq f h on = replaced
  where
    replaced : Contents ((q, raw) ∷ L) (put q r (remove t s.disk.files))
    replaced = (
      find-put q r (remove t s.disk.files) ∙ f,
      put-Contents q r L (remove t s.disk.files) oq (remove-Contents t L s.disk.files ot h),
    )
moved-Contents raises t q raw L s (some r) ot oq f h on = cc
moved-Contents late t q raw L s (some r) ot oq f h on = cc
moved-Contents (breaks other) t q raw L s (some r) ot oq f h on = cc
moved-Contents (leaves other) t q raw L s (some r) ot oq f h on = (
  find-put q r (remove t s.disk.files) ∙ f,
  put-Contents q r L (remove t s.disk.files) oq (remove-Contents t L s.disk.files ot h),
)

-- A file that takes the place of another one.
replace-Leads :
    (t q : String) (raw : Bytes) (L : Files)
    → Others t L
    → Others q L
    → Leads ((t, raw) ∷ L) (replace_file t q) ((q, raw) ∷ L)
unfolding replace_file
replace-Leads t q raw L ot oq s h e =
    let next = (next_event s).1 in
    let files = next_event-files s in
    moved-Contents (next_event s).0 t q raw L next (find t next.disk.files) ot oq (rw files h.0)
      (rw files h.1) e

-- A step that leads from some contents to others.
pub record Led (before : Files) (step : Step) (after : Files) : Type 0 where
  pub leads : Leads before step after

infixr 4 ◌upto◌
pub ◌upto◌ : {K L M : Files} {a b : Step} → Led K a L → Led L b M → Led K (a then b) M
◌upto◌ {K = K} {L = L} {M = M} {a = a} {b = b} ha hb = record {
  leads = then-Leads K L M a b ha.leads hb.leads;
}

pub writing : (t : String) (raw : Bytes) (L : Files) → Others t L → Led L (write t raw) L
writing t raw L o = record { leads = write-Leads t raw L o }

pub checking : (t : String) (raw : Bytes) (L : Files) → Led L (check t raw) ((t, raw) ∷ L)
checking t raw L = record { leads = check-Leads t raw L }

pub replacing :
    (t q : String) (raw : Bytes) (L : Files)
    → Others t L
    → Others q L
    → Led ((t, raw) ∷ L) (replace_file t q) ((q, raw) ∷ L)
replacing t q raw L ot oq = record { leads = replace-Leads t q raw L ot oq }

-- A step that leaves the files alone.
pub resting :
    (L : Files) (step : Step) → ((s : State) → (step s).0.disk.files ≡ s.disk.files) → Led L step L
resting L step same = record { leads = λ s h e. rw (same s) h }

pub make_dir-files :
    (paths : Paths) (in_archive : String → Bool) (root path : String) (s : State)
    → (make_dir paths in_archive root path s).0.disk.files ≡ s.disk.files
unfolding make_dir
make_dir-files paths in_archive root path s = elim (Bool-cases (is_done (next_event s).0)) [
  | inl d ↦ rw d (next_event-files s)
  | inr d ↦ rw d (next_event-files s)
]
