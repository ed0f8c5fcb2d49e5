-- ===== src/Mutation/Descriptor/Exact.antt =====
-- Which texts `_validate_descriptor` of scripts/quality/pitest_policy/__init__.py accepts.
use gas_station.Base.{
  ℕ, zero, suc, ◌+◌, ◌≤◌, Bool, true, false, ◌&&◌, Option, none, some, List, [], ◌∷◌, ◌++◌, ◌≡◌,
  ◌↔◌, inl, inr, refl, ap, ◌∙◌, arith, eq_nat, leb, length, All, Bool-cases,
}
use gas_station.Coverage.Outcome.{
  ok, err, ◌>>=◌, ◌>>◌, policy_error, require, >>=-eq-ok, require-eq-ok, expect-eq-ok,
}
use gas_station.Coverage.Bytes.{Bytes}
use gas_station.Mutation.Descriptor.{
  is_primitive, in_front, up_to_semicolon, has_none, is_internal_name, class_name, after_code,
  field, parameters, after_parameters, validate_descriptor,
}
use gas_station.Mutation.Descriptor.Grammar.{
  Element, primitive, void, object, FieldType, IsElement, IsFieldType, write_element, brackets,
  write_type, write_types, write_descriptor, validate_descriptor-write,
}

in_front-found :
    (c : ℕ) (text name behind : Bytes) (further : Option (Bytes × Bytes))
    → ((first others : Bytes) → further ≡ some (first, others) → text ≡ first ++ 59 ∷ others)
    → in_front c further ≡ some (name, behind)
    → c ∷ text ≡ name ++ 59 ∷ behind
in_front-found c text name behind none k h = cc
in_front-found c text name behind (some (first, others)) k h =
    let same : c ∷ first ++ 59 ∷ others ≡ name ++ 59 ∷ behind =
      ap (λ o. elim o [ none ↦ [] | some found ↦ found.0 ++ 59 ∷ found.1 ]) h in
    ap (λ t. c ∷ t) (k first others refl) ∙ same

up_to_semicolon-found :
    (text name behind : Bytes)
    → up_to_semicolon text ≡ some (name, behind)
    → text ≡ name ++ 59 ∷ behind
unfolding up_to_semicolon
up_to_semicolon-found [] name behind h = cc
up_to_semicolon-found (c ∷ text) name behind h = elim (Bool-cases (eq_nat c 59)) [
  | inl e ↦
      let is : c ≡ 59 = ground (arith, e) in
      let here : some ([], text) ≡ some (name, behind) = rw e at h in
      ap (λ x. x ∷ text) is
      ∙ ap (λ o. elim o [ none ↦ [] | some found ↦ found.0 ++ 59 ∷ found.1 ]) here
  | inr n ↦
      in_front-found c text name behind (up_to_semicolon text)
        (λ first others e. up_to_semicolon-found text first others e) (rw n at h)
]

read_object :
    (text behind : Bytes)
    → class_name text ≡ ok behind
    → (name : Bytes) × (is_internal_name name ≡ true) × (text ≡ name ++ 59 ∷ behind)
unfolding class_name
read_object text behind h =
    let (found, e, k) = expect-eq-ok (up_to_semicolon text) policy_error _ h in
    let (plain, last) = require-eq-ok (is_internal_name found.0) _ k in
    let same : found.1 ≡ behind = cc last in
    (
      found.0,
      plain,
      up_to_semicolon-found text found.0 found.1 e ∙ ap (λ b. found.0 ++ 59 ∷ b) same,
    )

read_element :
    (allow_void : Bool) (read c : ℕ) (text behind : Bytes)
    → after_code allow_void read c text ≡ ok behind
    → (element : Element) × IsElement allow_void read element
      × (c ∷ text ≡ write_element element behind)
read_element allow_void read c text behind h = elim (Bool-cases (is_primitive c)) [
  | inl p ↦
      let same : ok text ≡ ok behind = rw p at h in
      (primitive c, p, ap (λ r. elim r [ err e ↦ [] | ok t ↦ c ∷ t ]) same)
  | inr p ↦ elim (Bool-cases (eq_nat c 86)) [
    | inl v ↦
        let is : c ≡ 86 = ground (arith, v) in
        let run : (require (allow_void && eq_nat read 0) >> ok text) ≡ ok behind = rw (p, v) at h in
        let (fits, same) = require-eq-ok (allow_void && eq_nat read 0) (ok text) run in
        (void, fits, ap (λ x. x ∷ text) is ∙ ap (λ r. elim r [ err e ↦ [] | ok t ↦ 86 ∷ t ]) same)
    | inr v ↦ elim (Bool-cases (eq_nat c 76)) [
      | inr o ↦ let run : err policy_error ≡ ok behind = rw (p, v, o) at h in cc run
      | inl o ↦
          let is : c ≡ 76 = ground (arith, o) in
          let run : class_name text ≡ ok behind = rw (p, v, o) at h in
          let (name, plain, e) = read_object text behind run in
          (object name, plain, ap (λ x. x ∷ text) is ∙ ap (λ t. 76 ∷ t) e)
    ]
  ]
]

-- A type is read where one is written.
read_type :
    (allow_void : Bool) (read : ℕ) (text behind : Bytes)
    → field allow_void read text ≡ ok behind
    → read ≤ 255
    → (dimensions : ℕ) × (element : Element) × IsElement allow_void (read + dimensions) element
      × (read + dimensions ≤ 255)
      × (text ≡ brackets dimensions (write_element element behind))
unfolding field
read_type allow_void read [] behind h small = cc
read_type allow_void read (c ∷ text) behind h small = elim (Bool-cases (eq_nat c 91)) [
  | inr n ↦
      let run : after_code allow_void read c text ≡ ok behind = rw n at h in
      let (element, fine, e) = read_element allow_void read c text behind run in
      let same : read + 0 ≡ read = omega arith in
      let here : IsElement allow_void (read + 0) element = rw same fine in
      (0, element, here, omega (arith, small), e)
  | inl b ↦
      let is : c ≡ 91 = ground (arith, b) in
      let run : (require (leb (suc read) 255) >> field allow_void (suc read) text) ≡ ok behind =
        rw b at h in
      let (fits, deeper) =
        require-eq-ok (leb (suc read) 255) (field allow_void (suc read) text) run in
      let more : suc read ≤ 255 = ground (arith, fits) in
      let (n, element, fine, least, e) = read_type allow_void (suc read) text behind deeper more in
      let same : read + suc n ≡ suc read + n = omega arith in
      let here : IsElement allow_void (read + suc n) element = rw same fine in
      (suc n, element, here, omega (arith, least), ap (λ x. x ∷ text) is ∙ ap (λ t. 91 ∷ t) e)
]

read_field :
    (allow_void : Bool) (text behind : Bytes)
    → field allow_void 0 text ≡ ok behind
    → (t : FieldType) × IsFieldType allow_void t × (text ≡ write_type t behind)
read_field allow_void text behind h =
    let (dimensions, element, fine, small, e) =
      read_type allow_void 0 text behind h (omega arith) in
    let same : 0 + dimensions ≡ dimensions = omega arith in
    let here : IsElement allow_void dimensions element = rw same at fine in
    (record { dimensions = dimensions; element = element }, (here, omega (arith, small)), e)

read_types :
    (rounds : ℕ) (text behind : Bytes)
    → parameters rounds text ≡ ok behind
    → (ts : List FieldType) × All (IsFieldType false) ts × (text ≡ write_types ts behind)
unfolding parameters
read_types zero text behind h = cc
read_types (suc k) [] behind h = ([], tt, ap (λ r. elim r [ err e ↦ [] | ok t ↦ t ]) h)
read_types (suc k) (c ∷ text) behind h = elim (Bool-cases (eq_nat c 41)) [
  | inl e ↦
      let same : ok (c ∷ text) ≡ ok behind = rw e at h in
      ([], tt, ap (λ r. elim r [ err e ↦ [] | ok t ↦ t ]) same)
  | inr n ↦
      let run : (field false 0 (c ∷ text) >>= λ rest. parameters k rest) ≡ ok behind = rw n at h in
      let (rest, one, others) = >>=-eq-ok (field false 0 (c ∷ text)) _ run in
      let (t, fine, e) = read_field false (c ∷ text) rest one in
      let (ts, all_fine, same) = read_types k rest behind others in
      (t ∷ ts, (fine, all_fine), e ∙ ap (write_type t) same)
]

read_result :
    (text : Bytes)
    → after_parameters text ≡ ok tt
    → (t : FieldType) × IsFieldType true t × (text ≡ 41 ∷ write_type t [])
read_result [] h = cc
read_result (c ∷ text) h =
    let (closes, run) = require-eq-ok (eq_nat c 41) _ h in
    let (behind, one, last) = >>=-eq-ok (field true 0 text) _ run in
    let is : c ≡ 41 = ground (arith, closes) in
    let (t, fine, e) = read_field true text behind one in
    (t, fine, ap (λ x. x ∷ text) is ∙ ap (λ x. 41 ∷ x) (e ∙ ap (write_type t) (at_end behind last)))
  where
    at_end : (behind : Bytes) → require (has_none behind) ≡ ok tt → behind ≡ []
    at_end [] k = refl
    at_end (x ∷ xs) k = cc

abbrev IsDescriptor : Bytes → Type 0
IsDescriptor value =
    (ts : List FieldType) × (result : FieldType) × All (IsFieldType false) ts
    × IsFieldType true result
    × (value ≡ write_descriptor ts result)

read-IsDescriptor : (value : Bytes) → validate_descriptor value ≡ ok tt → IsDescriptor value
unfolding validate_descriptor
read-IsDescriptor [] h = cc
read-IsDescriptor (c ∷ text) h =
    let (starts, run) = require-eq-ok (eq_nat c 40) _ h in
    let (behind, many, last) = >>=-eq-ok (parameters (suc (length text)) text) _ run in
    let is : c ≡ 40 = ground (arith, starts) in
    let (ts, all_fine, e) = read_types (suc (length text)) text behind many in
    let (result, fine, f) = read_result behind last in
    (
      ts,
      result,
      all_fine,
      fine,
      ap (λ x. x ∷ text) is ∙ ap (λ x. 40 ∷ x) (e ∙ ap (write_types ts) f),
    )

-- A descriptor is accepted exactly where it is an opening parenthesis, the types of parameters, a
-- closing one, and the type of a result; a type is at most 255 brackets in front of a primitive code
-- or an internal name, and a result may also be void, with no brackets.
pub validate_descriptor_iff :
    (value : Bytes)
    → (validate_descriptor value ≡ ok tt) ↔ (
        (ts : List FieldType) × (result : FieldType) × All (IsFieldType false) ts
        × IsFieldType true result
        × (value ≡ write_descriptor ts result))
validate_descriptor_iff value = (
  read-IsDescriptor value,
  λ (ts, result, all_fine, fine, e).
      ap validate_descriptor e ∙ validate_descriptor-write ts result all_fine fine,
)
