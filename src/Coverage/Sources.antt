-- ===== src/Coverage/Sources.antt =====
-- `classify_exact_sources` of scripts/quality/verify_coverage.py.
pub mod Partition
use gas_station.Base.{
  String, Bool, true, false, not, ◌&&◌, ◌||◌, Option, none, some, List, [], ◌∷◌, ◌==◌, one_of, all,
  place,
}
use gas_station.Coverage.Outcome.{Result, ok, err, ◌>>=◌, ◌>>◌, policy_error, require}

-- What the function reads of a unit: its family, whether it has a floor for lines and one for
-- branches, and its sources.
pub record SourceUnit : Type 0 where
  pub family : Option String
  pub has_line_floor : Bool
  pub has_branch_floor : Bool
  pub sources : List String

abbrev pub has_no_floor_family : Option String → Bool
has_no_floor_family none = false
has_no_floor_family (some family) = family == "rendering" || family == "tool"

abbrev pub is_floored : SourceUnit → Bool
is_floored unit = has_no_floor_family unit.family && (unit.has_line_floor || unit.has_branch_floor)

-- The sources of a unit are owned. `ownership` is the list of its keys, the last first: the values
-- are read for messages only.
unfoldable pub own : List String → List String → Result (List String)
unfolding one_of
own [] ownership = ok ownership
own (source ∷ sources) ownership =
    require (not (one_of source ownership)) >> own sources (source ∷ ownership)

unfoldable pub own_all : List SourceUnit → List String → Result (List String)
unfolding own
own_all [] ownership = ok ownership
own_all (unit ∷ units) ownership =
    require (not (is_floored unit)) >> (own unit.sources ownership >>= λ owned. own_all units owned)

-- `sorted(ownership)`
abbrev pub in_order : List String → List String
in_order [] = []
in_order (x ∷ xs) = place x (in_order xs)

unfoldable pub classify_exact_sources : List String → List SourceUnit → Result (List String)
unfolding own_all one_of all
classify_exact_sources sources units = own_all units [] >>= λ ownership.
    require (all (λ source. one_of source ownership) sources)
    >> (require (all (λ source. one_of source sources) ownership) >> ok (in_order ownership))
