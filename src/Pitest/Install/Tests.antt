-- ===== src/Pitest/Install/Tests.antt =====
-- Runs of the installation of a successor on a small disk.
use gas_station.Base.{String, true, false, List, [], ◌∷◌, ◌≡◌, refl, Bool, if◌then◌else◌, ◌==◌}
use gas_station.Pitest.Disk.{Disk, Paths}
use gas_station.Pitest.Steps.{Event, goes, late, leaves, breaks}
use gas_station.Pitest.Install.{Successor, install_successor_atomically}

abbrev pub small : Paths
small = record {
  parent = λ p. if p == "e/1/x" then "e/1" else if p == "e/1" then "e" else "";
  parents = λ p. if p == "e/1" then "e" ∷ "" ∷ [] else "" ∷ [];
  depth = λ p. if p == "e/1" then 2 else if p == "e" then 1 else 0;
}

abbrev pub successor : Successor
successor = record {
  baseline_path = "base";
  predecessor_raw = 1 ∷ [];
  candidate_raw = 2 ∷ [];
  receipt_path = "receipt";
  receipt_raw = 3 ∷ [];
  transition_path = "transition";
  transition_raw = 4 ∷ [];
  archive_files = ("e/1/x", 5 ∷ []) ∷ [];
}

abbrev pub before : Disk
before = record { files = ("base", 1 ∷ []) ∷ []; dirs = "" ∷ "e" ∷ [] }

abbrev pub in_e : String → Bool
in_e p = p == "e/1/x"

install : List Event → Disk × Bool
unfolding install_successor_atomically
install events = install_successor_atomically small in_e "e" successor before events

installs : install [] ≡ (
  record {
    files =
        ("base", 2 ∷ []) ∷ ("e/1/x", 5 ∷ []) ∷ ("receipt", 3 ∷ []) ∷ ("transition", 4 ∷ []) ∷ [];
    dirs = "e/1" ∷ "" ∷ "e" ∷ [];
  },
  true,
)
unfolding install
installs = refl

-- A failure of the last replacement undoes all of it, and so does one of an archive that is not
-- written as it is given.
undoes :
    (install (goes ∷ goes ∷ goes ∷ goes ∷ goes ∷ goes ∷ goes ∷ goes ∷ goes ∷ goes ∷ breaks [] ∷ [])
      ≡ (before, false))
    × (install (goes ∷ goes ∷ goes ∷ leaves [] ∷ []) ≡ (before, false))
unfolding install
undoes = (refl, refl)

-- An interrupt behind the replacement of the receipt leaves the receipt.
left_behind :
    install (goes ∷ goes ∷ goes ∷ goes ∷ goes ∷ goes ∷ goes ∷ goes ∷ late ∷ [])
    ≡ (record before { files = ("base", 1 ∷ []) ∷ ("receipt", 3 ∷ []) ∷ [] }, false)
unfolding install
left_behind = refl
