-- ===== src/Coverage/Floors.antt =====
-- The floors of scripts/quality/verify_coverage.py: `require_basis_points`,
-- `validate_unit_floor_schema`, `ratio_below_basis_points`, `baseline_drop_exceeded` and
-- `validate_floor_transition`. Counters are numbers from 0 up, as the reports give them.
pub mod Exact
use Prim.Native.Nat.{◌/◌}
use gas_station.Base.{
  ℕ, ◌+◌, ◌-◌, ◌*◌, String, Bool, true, false, not, ◌&&◌, Option, none, some, leb, ltb, eq_nat,
  ◌==◌, if◌then◌else◌,
}
use gas_station.Coverage.Outcome.{Result, ok, err, ◌>>=◌, ◌>>◌, policy_error, require, expect}

-- What a value of a policy may be: a Boolean, a number, a negative number, or something else.
pub data Value : Type 0 where
  boolean : Bool → Value
  number : ℕ → Value
  negative : ℕ → Value
  other : Value

unfoldable pub require_basis_points : Value → Result ℕ
require_basis_points (number n) = require (leb n 10000) >> ok n
require_basis_points _ = err policy_error

-- A unit with its two floor keys.
pub record UnitFloors : Type 0 where
  pub line_floor : Option Value
  pub branch_floor : Option Value

abbrev is_none : Option Value → Bool
is_none none = true
is_none (some v) = false

-- The checks of a blocking unit.
unfoldable pub validate_blocking : UnitFloors → ℕ → Result (Unit {0})
unfolding require_basis_points
validate_blocking u branch_total = expect u.line_floor policy_error >>= λ line.
    require_basis_points line >>= λ _.
    if eq_nat branch_total 0
    then require (is_none u.branch_floor)
    else (expect u.branch_floor policy_error >>= λ branch.
        require_basis_points branch >>= λ _. ok tt)

unfoldable pub validate_unit_floor_schema : UnitFloors → String → ℕ → Result (Unit {0})
unfolding validate_blocking
validate_unit_floor_schema u mode branch_total =
    if mode == "measurement"
    then require (is_none u.line_floor && is_none u.branch_floor)
    else if mode == "blocking"
    then validate_blocking u branch_total
    else err policy_error

unfoldable pub ratio_below_basis_points : ℕ → ℕ → Value → Result Bool
unfolding require_basis_points
ratio_below_basis_points covered total threshold = require_basis_points threshold >>= λ t.
    require (leb covered total && not (eq_nat total 0)) >> ok (ltb (covered * 10000) (t * total))

-- The difference on the left is negative where `-` stops at 0: both are not above the right side.
unfoldable pub baseline_drop_exceeded : ℕ → ℕ → ℕ → ℕ → Value → Result Bool
unfolding require_basis_points
baseline_drop_exceeded current_covered current_total baseline_covered baseline_total maximum_drop =
    require_basis_points maximum_drop >>= λ drop.
    require (not (eq_nat current_total 0) && not (eq_nat baseline_total 0))
    >> ok (
        ltb (drop * current_total * baseline_total / 10000)
          (baseline_covered * current_total - current_covered * baseline_total))

unfoldable pub validate_floor_transition : Value → Value → Value → Result (Unit {0})
unfolding require_basis_points
validate_floor_transition previous current maximum_raise = require_basis_points previous >>= λ p.
    require_basis_points current >>= λ c.
    require_basis_points maximum_raise >>= λ r. require (leb p c) >> require (leb (c - p) r)
