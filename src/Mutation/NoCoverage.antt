-- ===== src/Mutation/NoCoverage.antt =====
-- `compare_no_coverage` of scripts/quality/pitest_policy/__init__.py.
pub mod Grown
use gas_station.Base.{ℕ, String, Option, none, some, List, [], ◌∷◌, if◌then◌else◌, ltb}
use gas_station.Coverage.Outcome.{Result, ok, ◌>>=◌}
use gas_station.Coverage.Statuses.{find}
use gas_station.Coverage.Floors.{Value, number}
use gas_station.Mutation.Floor.{require_number}
use gas_station.Mutation.Routing.{add}

-- The counters of packages.
abbrev pub PackageCounters : Type 0
PackageCounters = List (String × Value)

-- `counters.get(package, 0)`
abbrev pub or_zero : Option Value → Value
or_zero none = number 0
or_zero (some v) = v

-- `sorted(set(packages))`
unfoldable pub sorted_set : List String → List String
unfolding add
sorted_set [] = []
sorted_set (p ∷ packages) = add p (sorted_set packages)

module _ (baseline current : PackageCounters) where
  -- The packages with their counters, where a message is given for each.
  unfoldable pub violations : List String → Result (List (String × ℕ × ℕ))
  unfolding find require_number
  violations [] = ok []
  violations (p ∷ packages) = require_number (or_zero (find p baseline)) >>= λ old.
      require_number (or_zero (find p current)) >>= λ new.
      violations packages >>= λ rest. ok (if ltb old new then (p, old, new) ∷ rest else rest)

  unfoldable pub compare_no_coverage : List String → Result (List (String × ℕ × ℕ))
  unfolding violations sorted_set
  compare_no_coverage changed = violations (sorted_set changed)
