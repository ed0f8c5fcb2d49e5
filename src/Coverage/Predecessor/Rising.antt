-- ===== src/Coverage/Predecessor/Rising.antt =====
-- A theorem on `validate_predecessor_floor_transitions` of scripts/quality/verify_coverage.py.
use gas_station.Base.{
  ℕ, ◌+◌, ◌≤◌, ◌<◌, ◌-◌, ◌⊎◌, leb, String, not, ◌&&◌, Option, none, some, [], ◌∷◌, ◌≡◌, arith, All,
  all, eq_nat, Bool-cases, inl, inr,
}
use gas_station.Coverage.Outcome.{ok, policy_error, require, >>=-eq-ok, require-eq-ok, expect-eq-ok}
use gas_station.Coverage.Floors.{Value, number, require_basis_points, validate_floor_transition}
use gas_station.Coverage.Floors.Exact.{require_basis_points-number}
use gas_station.Coverage.Statuses.{find}
use gas_station.Coverage.Predecessor.{
  Metric, Captured, Units, has_unit, check_floor, check_metric, check_units,
  validate_predecessor_floor_transitions,
}

-- A floor that is there is still there, a number no lower, and higher by at most `r`.
abbrev pub FloorRises : ℕ → Option Value → Option Value → Type 0
FloorRises r none none = Unit
FloorRises r (some v) (some w) =
    (p : ℕ) × (c : ℕ) × (v ≡ number p) × (w ≡ number c) × (p ≤ c) × (c ≤ p + r)
FloorRises r _ _ = ⊥

-- A metric did not count, or it still counts and its floor rises.
abbrev pub Rises : ℕ → Metric → Metric → Type 0
Rises r previous current =
    (previous.total ≡ 0) ⊎ ((0 < current.total) × FloorRises r previous.floor current.floor)

abbrev pub UnitRises : ℕ → Units → String × Captured → Type 0
UnitRises r new (id, previous) =
    (current : Captured) × (find id new ≡ some current)
    × Rises r previous.line current.line
    × Rises r previous.branch current.branch

require_basis_points-same : (r : ℕ) {m : ℕ} → require_basis_points (number r) ≡ ok m → m ≡ r
require_basis_points-same r {m = m} e =
    let same : number r ≡ number m = (require_basis_points-number (number r) e).0 in cc

check_floor-FloorRises :
    (r : ℕ) (previous current : Option Value)
    → check_floor previous current (number r) ≡ ok tt
    → FloorRises r previous current
unfolding check_floor validate_floor_transition
check_floor-FloorRises r none none e = tt
check_floor-FloorRises r none (some w) e = cc
check_floor-FloorRises r (some v) none e = cc
check_floor-FloorRises r (some v) (some w) e =
    let (p, e1, e2) = >>=-eq-ok (require_basis_points v) _ e in
    let (c, e3, e4) = >>=-eq-ok (require_basis_points w) _ e2 in
    let (m, e5, e6) = >>=-eq-ok (require_basis_points (number r)) _ e4 in
    let (low, e7) = require-eq-ok (leb p c) (require (leb (c - p) m)) e6 in
    let same : m ≡ r = require_basis_points-same r e5 in
    (
      p,
      c,
      (require_basis_points-number v e1).0,
      (require_basis_points-number w e3).0,
      ground (arith, low),
      ground (arith, low, e7, same),
    )

check_metric-Rises :
    (r : ℕ) (previous current : Metric)
    → check_metric previous current (number r) ≡ ok tt
    → Rises r previous current
unfolding check_metric
check_metric-Rises r previous current e = elim (Bool-cases (eq_nat previous.total 0)) [
  | inl none_before ↦ inl (ground (arith, none_before))
  | inr counted ↦
      let (still, e1) =
        require-eq-ok (not (eq_nat current.total 0))
          (check_floor previous.floor current.floor (number r)) (rw counted at e) in
      inr (ground (arith, still), check_floor-FloorRises r previous.floor current.floor e1)
]

check_units-UnitRises :
    (r : ℕ) (new old : Units) → check_units new old (number r) ≡ ok tt → All (UnitRises r new) old
unfolding check_units
check_units-UnitRises r new [] e = tt
check_units-UnitRises r new ((id, previous) ∷ rest) e =
    let (current, found, e1) = expect-eq-ok (find id new) policy_error _ e in
    let (u, e2, e3) = >>=-eq-ok (check_metric previous.line current.line (number r)) _ e1 in
    let (v, e4, e5) = >>=-eq-ok (check_metric previous.branch current.branch (number r)) _ e3 in
    (
      (
        current,
        found,
        check_metric-Rises r previous.line current.line e2,
        check_metric-Rises r previous.branch current.branch e4,
      ),
      check_units-UnitRises r new rest e5,
    )

-- Where a baseline is accepted as the successor of another with the maximum raise `r`, every unit of
-- the old one is a unit of the new one, and each of its metrics had the total 0, or still has a
-- total above 0 and has a floor exactly if it had one, no lower and higher by at most `r`.
pub validate_predecessor_floor_transitions-UnitRises :
    (r : ℕ) (old new : Units)
    → validate_predecessor_floor_transitions old new (number r) ≡ ok tt
    → All (UnitRises r new) old
unfolding validate_predecessor_floor_transitions
validate_predecessor_floor_transitions-UnitRises r old new e =
    let same_units = all (λ u. has_unit new u.0) old && all (λ u. has_unit old u.0) new in
    check_units-UnitRises r new old (require-eq-ok same_units (check_units new old (number r)) e).1
