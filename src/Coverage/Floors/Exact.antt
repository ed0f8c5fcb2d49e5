-- ===== src/Coverage/Floors/Exact.antt =====
-- Theorems on `baseline_drop_exceeded` and `validate_floor_transition` of
-- scripts/quality/verify_coverage.py.
use Prim.Native.Nat.{◌/◌}
use gas_station.Base.{
  ℕ, ◌+◌, ◌-◌, ◌*◌, ◌≤◌, ◌<◌, ◌≡◌, ◌↔◌, true, false, refl, ap, List, [], ◌∷◌, arith, leb, ltb,
  eq_nat,
}
use gas_station.Coverage.Outcome.{ok, require-eq-ok}
use gas_station.Coverage.Floors.{
  Value, boolean, number, negative, other, require_basis_points, baseline_drop_exceeded,
  validate_floor_transition,
}

above-quotient : (y a b : ℕ) → (ltb (y / 10000) (a - b) ≡ true) ↔ (10000 * b + y < 10000 * a)
above-quotient y a b = ground arith

pub require_basis_points-number :
    (v : Value) {n : ℕ} → require_basis_points v ≡ ok n → (v ≡ number n) × (n ≤ 10000)
unfolding require_basis_points
require_basis_points-number (boolean b) e = cc
require_basis_points-number (negative n) e = cc
require_basis_points-number other e = cc
require_basis_points-number (number k) {n = n} e =
    let (small, same) = require-eq-ok (leb k 10000) (ok k) e in
    let same' : k ≡ n = cc in (ap number same', ground (arith, small, same'))

-- For totals that are not 0 and a maximum drop of at most 10000 basis points, a drop is exceeded
-- exactly when the difference of the two ratios is more than the maximum, compared without
-- rounding.
pub baseline_drop_exceeded_iff :
    (current_covered current_total baseline_covered baseline_total d : ℕ)
    → d ≤ 10000
    → 0 < current_total
    → 0 < baseline_total
    → (baseline_drop_exceeded current_covered current_total baseline_covered baseline_total
          (number d)
        ≡ ok true)
      ↔ (10000 * (current_covered * baseline_total) + d * current_total * baseline_total
          < 10000 * (baseline_covered * current_total))
unfolding baseline_drop_exceeded require_basis_points
baseline_drop_exceeded_iff cc' ct bc bt d small h1 h2 =
    let checked : (leb d 10000 ≡ true) × (eq_nat ct 0 ≡ false) × (eq_nat bt 0 ≡ false) =
      ground (arith, small, h1, h2) in
    let (c1, c2, c3) = checked in
    let exact = above-quotient (d * ct * bt) (bc * ct) (cc' * bt) in
    (
      λ e.
          let same : ltb (d * ct * bt / 10000) (bc * ct - cc' * bt) ≡ true =
            cc (rw (c1, c2, c3) at e) in
          exact.0 same,
      λ above. rw (c1, c2, c3, exact.1 above) refl,
    )

validate_floor_transition-bounds :
    (p c r : ℕ)
    → validate_floor_transition (number p) (number c) (number r) ≡ ok tt
    → (p ≤ c) × (c ≤ p + r)
unfolding validate_floor_transition require_basis_points
validate_floor_transition-bounds p c r e = ground (arith, e)

-- Floors of which each is accepted as the successor of the one before, from a first floor on.
abbrev pub IsHistory : ℕ → ℕ → List ℕ → Type 0
IsHistory r p [] = Unit
IsHistory r p (c ∷ cs) =
    (validate_floor_transition (number p) (number c) (number r) ≡ ok tt) × IsHistory r c cs

abbrev pub last_floor : ℕ → List ℕ → ℕ
last_floor p [] = p
last_floor p (c ∷ cs) = last_floor c cs

abbrev pub raises : ℕ → List ℕ → ℕ
raises r [] = 0
raises r (c ∷ cs) = r + raises r cs

-- Over any number of accepted transitions the floor does not fall, and rises by at most the maximum
-- raise for each of them.
pub validate_floor_transition-history :
    (r p : ℕ) (cs : List ℕ)
    → IsHistory r p cs
    → (p ≤ last_floor p cs) × (last_floor p cs ≤ p + raises r cs)
validate_floor_transition-history r p [] h = omega arith
validate_floor_transition-history r p (c ∷ cs) h = omega (
  arith,
  validate_floor_transition-bounds p c r h.0,
  validate_floor_transition-history r c cs h.1,
)
