-- ===== src/Mutation/Descriptor.antt =====
-- `_validate_descriptor` of scripts/quality/pitest_policy/__init__.py, on the code points of a text.
pub mod Grammar
pub mod Exact
use gas_station.Base.{
  ℕ, zero, suc, Bool, true, false, not, ◌&&◌, ◌||◌, Option, none, some, List, [], ◌∷◌,
  if◌then◌else◌, eq_nat, leb, any, length,
}
use gas_station.Coverage.Outcome.{Result, ok, err, ◌>>=◌, ◌>>◌, policy_error, require, expect}
use gas_station.Coverage.Bytes.{Bytes, ends_with}

-- `code in "BCDFIJSZ"`
abbrev pub is_primitive : ℕ → Bool
is_primitive c =
    eq_nat c 66
    || eq_nat c 67
    || eq_nat c 68
    || eq_nat c 70
    || eq_nat c 73
    || eq_nat c 74
    || eq_nat c 83
    || eq_nat c 90

-- What stands in front of the first semicolon, and what behind it.
abbrev pub in_front : ℕ → Option (Bytes × Bytes) → Option (Bytes × Bytes)
in_front c none = none
in_front c (some (name, behind)) = some (c ∷ name, behind)

unfoldable pub up_to_semicolon : Bytes → Option (Bytes × Bytes)
up_to_semicolon [] = none
up_to_semicolon (c ∷ rest) =
    let further = up_to_semicolon rest in
    if eq_nat c 59 then some ([], rest) else in_front c further

abbrev pub has_code : ℕ → Bytes → Bool
has_code c = any (λ x. eq_nat x c)

-- `"//" in internal`
abbrev pub has_double_slash : Bytes → Bool
has_double_slash [] = false
has_double_slash (x ∷ []) = false
has_double_slash (x ∷ y ∷ rest) = eq_nat x 47 && eq_nat y 47 || has_double_slash (y ∷ rest)

abbrev pub starts_with_slash : Bytes → Bool
starts_with_slash [] = false
starts_with_slash (x ∷ rest) = eq_nat x 47

abbrev pub has_none : Bytes → Bool
has_none [] = true
has_none (x ∷ rest) = false

unfoldable pub is_internal_name : Bytes → Bool
unfolding any
is_internal_name internal = not (
    has_none internal
    || has_code 46 internal
    || has_code 91 internal
    || has_code 59 internal
    || starts_with_slash internal
    || ends_with internal 47
    || has_double_slash internal)

-- What is behind a class name and its semicolon.
unfoldable pub class_name : Bytes → Result Bytes
unfolding up_to_semicolon is_internal_name
class_name rest = expect (up_to_semicolon rest) policy_error >>= λ found.
    require (is_internal_name found.0) >> ok found.1

-- What is behind the type whose code, behind so many brackets, is given.
abbrev pub after_code : Bool → ℕ → ℕ → Bytes → Result Bytes
after_code allow_void dimensions c rest =
    if is_primitive c
    then ok rest
    else if eq_nat c 86
    then (require (allow_void && eq_nat dimensions 0) >> ok rest)
    else if eq_nat c 76
    then class_name rest
    else err policy_error

-- `field`, where so many brackets are read.
unfoldable pub field : Bool → ℕ → Bytes → Result Bytes
unfolding class_name
field allow_void dimensions [] = err policy_error
field allow_void dimensions (c ∷ rest) =
    let deeper = field allow_void (suc dimensions) rest in
    if eq_nat c 91
    then (require (leb (suc dimensions) 255) >> deeper)
    else after_code allow_void dimensions c rest

-- The loop over the parameters, in so many rounds.
unfoldable pub parameters : ℕ → Bytes → Result Bytes
unfolding field
parameters zero text = err policy_error
parameters (suc rounds) [] = ok []
parameters (suc rounds) (c ∷ rest) =
    if eq_nat c 41
    then ok (c ∷ rest)
    else (field false 0 (c ∷ rest) >>= λ behind. parameters rounds behind)

-- The closing parenthesis and the type of the result.
abbrev pub after_parameters : Bytes → Result (Unit {0})
after_parameters [] = err policy_error
after_parameters (c ∷ rest) =
    require (eq_nat c 41) >> (field true 0 rest >>= λ behind. require (has_none behind))

-- Each round of the loop reads a code point at least.
unfoldable pub validate_descriptor : Bytes → Result (Unit {0})
unfolding parameters field
validate_descriptor [] = err policy_error
validate_descriptor (c ∷ rest) =
    require (eq_nat c 40)
    >> (parameters (suc (length rest)) rest >>= λ behind. after_parameters behind)
