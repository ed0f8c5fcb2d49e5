-- ===== src/Mutation/NoCoverage/Grown.antt =====
-- What `compare_no_coverage` of scripts/quality/pitest_policy/__init__.py reports.
use gas_station.Base.{
  ℕ, String, Bool, true, false, ◌&&◌, ◌||◌, List, [], ◌∷◌, ◌==◌, ◌≡◌, inl, inr, refl, sym, ap, ◌∙◌,
  arith, if◌then◌else◌, ltb, one_of, eq_iff, Bool-cases,
}
use gas_station.Coverage.Outcome.{ok, err, >>=-eq-ok}
use gas_station.Coverage.Statuses.{find}
use gas_station.Coverage.Floors.{Value, number, boolean, negative, other}
use gas_station.Mutation.Floor.{require_number}
use gas_station.Mutation.Routing.Selected.{one_of-add}
use gas_station.Mutation.NoCoverage.{
  PackageCounters, or_zero, sorted_set, violations, compare_no_coverage,
}

abbrev pub packages_of : List (String × ℕ × ℕ) → List String
packages_of [] = []
packages_of ((p, old, new) ∷ rest) = p ∷ packages_of rest

-- A counter as a number.
abbrev pub amount : Value → ℕ
amount (number n) = n
amount _ = 0

one_of-sorted_set : (q : String) (xs : List String) → one_of q (sorted_set xs) ≡ one_of q xs
unfolding sorted_set one_of
one_of-sorted_set q [] = refl
one_of-sorted_set q (x ∷ xs) =
    one_of-add q x (sorted_set xs) ∙ ap (λ o. q == x || o) (one_of-sorted_set q xs)

require_number-amount : (v : Value) (n : ℕ) → require_number v ≡ ok n → n ≡ amount v
unfolding require_number
require_number-amount (number m) n h = ap (λ r. elim r [ err e ↦ 0 | ok k ↦ k ]) (sym h)
require_number-amount (boolean b) n h = cc
require_number-amount (negative m) n h = cc
require_number-amount other n h = cc

reported_eq : {xs ys : List (String × ℕ × ℕ)} → ok xs ≡ ok ys → xs ≡ ys
reported_eq h = ap (λ r. elim r [ err e ↦ [] | ok xs ↦ xs ]) h

module _ (baseline current : PackageCounters) where
  -- The counter of a package has grown.
  abbrev pub has_grown : String → Bool
  has_grown p = ltb (amount (or_zero (find p baseline))) (amount (or_zero (find p current)))

  one_more :
      (q p : String) (old new : ℕ) (rest : List (String × ℕ × ℕ)) (packages : List String)
      → (grown : Bool) → grown ≡ has_grown p
      → one_of q (packages_of rest) ≡ (one_of q packages && has_grown q)
      → one_of q (packages_of (if grown then (p, old, new) ∷ rest else rest))
        ≡ ((q == p || one_of q packages) && has_grown q)
  unfolding one_of
  one_more q p old new rest packages true g h = elim (Bool-cases (q == p)) [
    | inr n ↦ rw n h
    | inl e ↦
        let same : q ≡ p = (eq_iff q p).0 e in
        let here : has_grown q ≡ true = rw same (sym g) in rw (e, here) refl
  ]
  one_more q p old new rest packages false g h = elim (Bool-cases (q == p)) [
    | inr n ↦ rw n h
    | inl e ↦
        let same : q ≡ p = (eq_iff q p).0 e in
        let here : has_grown q ≡ false = rw same (sym g) in
        rw (e, here) (h ∙ (ap (λ x. one_of q packages && x) here ∙ never (one_of q packages)))
  ]
    where
      never : (b : Bool) → (b && false) ≡ false
      never b = ground arith

  violations-grown :
      (q : String) (packages : List String) (reported : List (String × ℕ × ℕ))
      → violations baseline current packages ≡ ok reported
      → one_of q (packages_of reported) ≡ (one_of q packages && has_grown q)
  unfolding violations one_of
  violations-grown q [] reported h = ap (λ xs. one_of q (packages_of xs)) (sym (reported_eq h))
  violations-grown q (p ∷ packages) reported h =
      let (old, first, more) = >>=-eq-ok (require_number (or_zero (find p baseline))) _ h in
      let (new, second, others) = >>=-eq-ok (require_number (or_zero (find p current))) _ more in
      let (rest, run, last) = >>=-eq-ok (violations baseline current packages) _ others in
      let was = require_number-amount (or_zero (find p baseline)) old first in
      let is_now = require_number-amount (or_zero (find p current)) new second in
      let grown : ltb old new ≡ has_grown p =
        ap (λ n. ltb n new) was ∙ ap (ltb (amount (or_zero (find p baseline)))) is_now in
      ap (λ xs. one_of q (packages_of xs)) (sym (reported_eq last))
      ∙ one_more q p old new rest packages (ltb old new) grown
          (violations-grown q packages rest run)

  -- Where the counters are compared, the packages reported are those changed whose counter is larger
  -- than in the baseline, a counter that is not there being zero.
  pub compare_no_coverage-grown :
      (changed : List String) (reported : List (String × ℕ × ℕ))
      → compare_no_coverage baseline current changed ≡ ok reported
      → (q : String) → one_of q (packages_of reported) ≡ (one_of q changed && has_grown q)
  unfolding compare_no_coverage
  compare_no_coverage-grown changed reported h q =
      violations-grown q (sorted_set changed) reported h
      ∙ ap (λ o. o && has_grown q) (one_of-sorted_set q changed)
