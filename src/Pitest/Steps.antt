-- ===== src/Pitest/Steps.antt =====
-- What `install_successor_atomically` of scripts/quality/verify_pitest.py asks of the system, and what
-- the system does with it.
use gas_station.Base.{
  String, ◌<>◌, Bool, true, false, Option, none, some, List, [], ◌∷◌, ◌++◌, if◌then◌else◌,
}
use gas_station.Coverage.Bytes.{Bytes, bytes_eq}
use gas_station.Coverage.Statuses.{find}
use gas_station.Pitest.Disk.{Files, Disk, put, remove}

-- What the system does with an operation: it is done; it raises and has done nothing; it writes
-- other bytes, and goes on or raises; or it is done and an interrupt is raised behind it.
pub data Event : Type 0 where
  goes raises late : Event
  leaves breaks : Bytes → Event

-- The disk, what the system will do with the operations to come, `installed` and
-- `archive_temporaries`.
pub record State : Type 0 where
  pub disk : Disk
  pub events : List Event
  pub installed : List String
  pub staged : List String

-- A statement of the `try` block: the state behind it, and whether it goes on.
abbrev pub Step : Type 0
Step = State → State × Bool

abbrev pub behind : State × Bool → Step → State × Bool
behind (next, true) b = b next
behind (next, false) b = (next, false)

infixr 4 ◌then◌
abbrev pub ◌then◌ : Step → Step → Step
a then b = λ s. behind (a s) b

-- `path.with_suffix(path.suffix + ".tmp")`
abbrev pub tmp : String → String
tmp path = path <> ".tmp"

abbrev pub restore_tmp : String → String
restore_tmp path = path <> ".restore.tmp"

-- The next event, and the state without it.
abbrev pub next_event : State → Event × State
next_event s = elim s.events [ [] ↦ (goes, s) | e ∷ es ↦ (e, record s { events = es }) ]

abbrev pub with_files : State → Files → State
with_files s files = record s { disk = record { files = files; dirs = s.disk.dirs } }

abbrev pub written : Event → String → Bytes → State → State × Bool
written goes path raw s = (with_files s (put path raw s.disk.files), true)
written raises path raw s = (s, false)
written late path raw s = (with_files s (put path raw s.disk.files), false)
written (leaves other) path raw s = (with_files s (put path other s.disk.files), true)
written (breaks other) path raw s = (with_files s (put path other s.disk.files), false)

-- `path.write_bytes(raw)`
unfoldable pub write : String → Bytes → Step
unfolding put
write path raw s = let (e, next) = next_event s in written e path raw next

-- Whether an event lets an operation on no bytes be done, and whether it goes on.
abbrev pub is_done : Event → Bool
is_done goes = true
is_done late = true
is_done (leaves other) = true
is_done _ = false

abbrev pub goes_on : Event → Bool
goes_on goes = true
goes_on (leaves other) = true
goes_on _ = false

-- `os.replace(source, target)`, where the source is there
abbrev pub moved : Event → String → String → State → Option Bytes → State × Bool
moved e source target s none = (s, false)
moved e source target s (some raw) =
    if is_done e
    then (with_files s (put target raw (remove source s.disk.files)), goes_on e)
    else (s, false)

unfoldable pub replace_file : String → String → Step
unfolding put remove find
replace_file source target s =
    let (e, next) = next_event s in moved e source target next (find source next.disk.files)

-- `path.read_bytes() == raw`
abbrev pub reads_as : Option Bytes → Bytes → Bool
reads_as none raw = false
reads_as (some found) raw = bytes_eq found raw

unfoldable pub holds : String → Bytes → State → Bool
unfolding find
holds path raw s = reads_as (find path s.disk.files) raw

-- `if path.read_bytes() != raw: raise …`
abbrev pub check : String → Bytes → Step
check path raw s = (s, holds path raw s)

abbrev pub note_installed : String → Step
note_installed path s = (record s { installed = s.installed ++ path ∷ [] }, true)

abbrev pub note_staged : String → Step
note_staged path s = (record s { staged = s.staged ++ path ∷ [] }, true)

-- `path.exists()`
abbrev pub is_found : Option Bytes → Bool
is_found none = false
is_found (some raw) = true

abbrev pub is_there : String → Disk → Bool
is_there path disk = is_found (find path disk.files)
