-- ===== src/Coverage/Predecessor.antt =====
-- `validate_predecessor_floor_transitions` of scripts/quality/verify_coverage.py.
pub mod Rising
use gas_station.Base.{
  ℕ, String, Bool, true, false, not, ◌&&◌, Option, none, some, List, [], ◌∷◌, if◌then◌else◌, eq_nat,
  all,
}
use gas_station.Coverage.Outcome.{Result, ok, err, ◌>>=◌, ◌>>◌, policy_error, require, expect}
use gas_station.Coverage.Floors.{Value, validate_floor_transition}
use gas_station.Coverage.Statuses.{find}

-- A metric of a unit: its total, and the floor that was captured, if the key is there.
pub record Metric : Type 0 where
  pub total : ℕ
  pub floor : Option Value

pub record Captured : Type 0 where
  pub line : Metric
  pub branch : Metric

-- The units by their ids.
abbrev pub Units : Type 0
Units = List (String × Captured)

abbrev pub has_unit : Units → String → Bool
has_unit units id = elim (find id units) [ none ↦ false | some _ ↦ true ]

unfoldable pub check_floor : Option Value → Option Value → Value → Result (Unit {0})
unfolding validate_floor_transition
check_floor none none maximum_raise = ok tt
check_floor (some previous) (some current) maximum_raise =
    validate_floor_transition previous current maximum_raise
check_floor _ _ maximum_raise = err policy_error

unfoldable pub check_metric : Metric → Metric → Value → Result (Unit {0})
unfolding check_floor
check_metric previous current maximum_raise =
    if eq_nat previous.total 0
    then ok tt
    else (require (not (eq_nat current.total 0))
        >> check_floor previous.floor current.floor maximum_raise)

-- The loop over the old units.
unfoldable pub check_units : Units → Units → Value → Result (Unit {0})
unfolding check_metric find
check_units new [] maximum_raise = ok tt
check_units new ((id, previous) ∷ rest) maximum_raise =
    expect (find id new) policy_error >>= λ current.
    check_metric previous.line current.line maximum_raise
    >> (check_metric previous.branch current.branch maximum_raise
        >> check_units new rest maximum_raise)

unfoldable pub validate_predecessor_floor_transitions : Units → Units → Value → Result (Unit {0})
unfolding check_units all find
validate_predecessor_floor_transitions old new maximum_raise =
    require (all (λ u. has_unit new u.0) old && all (λ u. has_unit old u.0) new)
    >> check_units new old maximum_raise
