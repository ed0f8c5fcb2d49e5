-- ===== src/Coverage/Outcome.antt =====
-- How a step of scripts/quality/verify_coverage.py ends: with a value, or with what it raises.
use gas_station.Base.{Bool, true, false, Option, none, some, ◌≡◌, refl}

-- `CoverageError` or `MutationPolicyError`, and what the Python operations raise: `IndexError`, and
-- `ValueError` with its
-- subclass `UnicodeDecodeError`.
pub data Error : Type 0 where
  policy_error index_error value_error : Error

pub data Result {κ} (V : Type κ) : Type κ where
  err : Error → Result V
  ok : V → Result V

-- The statements that follow a step, with its value and without it.
infixl 5 ◌>>=◌
abbrev pub ◌>>=◌ {κ ℓ} :
    {V : Type κ} {W : Type ℓ} (step : Result V) (next : V → Result W) → Result W
step >>= next = elim step [ err raised ↦ err raised | ok v ↦ next v ]

infixl 5 ◌>>◌
abbrev pub ◌>>◌ {κ} : {W : Type κ} (check : Result (Unit {0})) (next : Result W) → Result W
check >> next = check >>= (λ done. next)

-- `if not b: raise CoverageError(…)`
abbrev pub require : Bool → Result (Unit {0})
require true = ok tt
require false = err policy_error

-- A value that is there, or the error.
abbrev pub expect {ℓ} : {A : Type ℓ} → Option A → Error → Result A
expect (some a) e = ok a
expect none e = err e

-- A run that gives a value has a first step that gives one.
pub >>=-eq-ok {κ ℓ} :
    {V : Type κ} {W : Type ℓ} {w : W} (step : Result V) (next : V → Result W)
    → (step >>= next) ≡ ok w
    → (v : V) × (step ≡ ok v) × (next v ≡ ok w)
>>=-eq-ok (err raised) next given = cc
>>=-eq-ok (ok v) next given = (v, refl, given)

pub require-eq-ok {ℓ} :
    {B : Type ℓ} (t : Bool) (k : Result B) {b : B}
    → (require t >> k) ≡ ok b
    → (t ≡ true) × (k ≡ ok b)
require-eq-ok true k h = (refl, h)
require-eq-ok false k h = cc

pub expect-eq-ok {ℓ κ} :
    {A : Type ℓ} {B : Type κ} (o : Option A) (e : Error) (f : A → Result B) {b : B}
    → (expect o e >>= f) ≡ ok b
    → (a : A) × (o ≡ some a) × (f a ≡ ok b)
expect-eq-ok none e f h = cc
expect-eq-ok (some a) e f h = (a, refl, h)
