-- ===== src/Mutation/Descriptor/Grammar.antt =====
-- The texts that `_validate_descriptor` of scripts/quality/pitest_policy/__init__.py accepts.
use gas_station.Base.{
  ℕ, zero, suc, ◌+◌, ◌≤◌, Bool, true, false, not, ◌&&◌, ◌||◌, some, List, [], ◌∷◌, ◌++◌, ◌≡◌, refl,
  ◌∙◌, arith, eq_nat, leb, length, length-append, any, All,
}
use gas_station.Coverage.Outcome.{ok}
use gas_station.Coverage.Bytes.{Bytes, ends_with}
use gas_station.Mutation.Descriptor.{
  is_primitive, up_to_semicolon, has_code, has_double_slash, starts_with_slash, has_none,
  is_internal_name, class_name, field, parameters, validate_descriptor,
}

-- A type without its brackets.
pub data Element : Type 0 where
  primitive : ℕ → Element
  void : Element
  object : Bytes → Element

pub record FieldType : Type 0 where
  pub dimensions : ℕ
  pub element : Element

-- The element, where it is one that so many brackets may stand before.
abbrev pub IsElement : Bool → ℕ → Element → Type 0
IsElement allow_void dimensions (primitive c) = is_primitive c ≡ true
IsElement allow_void dimensions void = (allow_void && eq_nat dimensions 0) ≡ true
IsElement allow_void dimensions (object name) = is_internal_name name ≡ true

abbrev pub IsFieldType : Bool → FieldType → Type 0
IsFieldType allow_void t = IsElement allow_void t.dimensions t.element × (t.dimensions ≤ 255)

-- The texts of types, with what is behind them.
abbrev pub write_element : Element → Bytes → Bytes
write_element (primitive c) behind = c ∷ behind
write_element void behind = 86 ∷ behind
write_element (object name) behind = 76 ∷ name ++ 59 ∷ behind

abbrev pub brackets : ℕ → Bytes → Bytes
brackets zero text = text
brackets (suc n) text = 91 ∷ brackets n text

abbrev pub write_type : FieldType → Bytes → Bytes
write_type t behind = brackets t.dimensions (write_element t.element behind)

abbrev pub write_types : List FieldType → Bytes → Bytes
write_types [] behind = behind
write_types (t ∷ ts) behind = write_type t (write_types ts behind)

abbrev pub write_descriptor : List FieldType → FieldType → Bytes
write_descriptor ts result = 40 ∷ write_types ts (41 ∷ write_type result [])

both_false : (b c : Bool) → (b || c) ≡ false → (b ≡ false) × (c ≡ false)
both_false true c h = cc
both_false false c h = (refl, h)

up_to_semicolon-append :
    (name behind : Bytes)
    → has_code 59 name ≡ false
    → up_to_semicolon (name ++ 59 ∷ behind) ≡ some (name, behind)
unfolding up_to_semicolon any
up_to_semicolon-append [] behind h = refl
up_to_semicolon-append (c ∷ name) behind h =
    let (n, k) = both_false (eq_nat c 59) (has_code 59 name) h in
    rw (n, up_to_semicolon-append name behind k) refl

internal_name-plain : (name : Bytes) → is_internal_name name ≡ true → has_code 59 name ≡ false
unfolding is_internal_name
internal_name-plain name h =
    of (has_none name) (has_code 46 name) (has_code 91 name) (has_code 59 name)
      (starts_with_slash name) (ends_with name 47) (has_double_slash name) h
  where
    of : (a b c d e f g : Bool) → not (a || b || c || d || e || f || g) ≡ true → d ≡ false
    of a b c d e f g k = ground (arith, k)

after_code-write :
    (allow_void : Bool) (dimensions : ℕ) (element : Element) (behind : Bytes)
    → IsElement allow_void dimensions element
    → field allow_void dimensions (write_element element behind) ≡ ok behind
unfolding field class_name
after_code-write allow_void dimensions (primitive c) behind h =
    let plain : eq_nat c 91 ≡ false = ground (arith, h) in rw (plain, h) refl
after_code-write allow_void dimensions void behind h = rw h refl
after_code-write allow_void dimensions (object name) behind h =
    rw (up_to_semicolon-append name behind (internal_name-plain name h), h) refl

field-write :
    (allow_void : Bool) (read dimensions total : ℕ) (element : Element) (behind : Bytes)
    → read + dimensions ≡ total
    → total ≤ 255
    → IsElement allow_void total element
    → field allow_void read (brackets dimensions (write_element element behind)) ≡ ok behind
unfolding field
field-write allow_void read zero total element behind e small h =
    let same : total ≡ read = omega (arith, e) in
    let here : IsElement allow_void read element = rw same at h in
    after_code-write allow_void read element behind here
field-write allow_void read (suc n) total element behind e small h =
    let fits : leb (suc read) 255 ≡ true = ground (arith, e, small) in
    rw fits (field-write allow_void (suc read) n total element behind (omega (arith, e)) small h)

-- A text that starts with something else than a closing parenthesis.
abbrev Opens : Bytes → Type 0
Opens text = (c : ℕ) × (rest : Bytes) × (text ≡ c ∷ rest) × (eq_nat c 41 ≡ false)

write_type-Opens :
    (dimensions total : ℕ) (element : Element) (behind : Bytes)
    → IsElement false total element
    → Opens (brackets dimensions (write_element element behind))
write_type-Opens zero total (primitive c) behind h = (c, behind, refl, ground (arith, h))
write_type-Opens zero total void behind h = cc
write_type-Opens zero total (object name) behind h = (76, name ++ 59 ∷ behind, refl, refl)
write_type-Opens (suc n) total element behind h =
    (91, brackets n (write_element element behind), refl, refl)

parameters-one :
    (rounds : ℕ) (text behind : Bytes)
    → Opens text
    → field false 0 text ≡ ok behind
    → parameters (suc rounds) text ≡ parameters rounds behind
unfolding parameters
parameters-one rounds text behind (c, rest, e, n) h =
    let read : field false 0 (c ∷ rest) ≡ ok behind = rw e at h in rw (e, n, read) refl

parameters-write_types :
    (rounds : ℕ) (ts : List FieldType) (behind : Bytes)
    → All (IsFieldType false) ts
    → suc (length ts) ≤ rounds
    → parameters rounds (write_types ts (41 ∷ behind)) ≡ ok (41 ∷ behind)
unfolding parameters
parameters-write_types zero ts behind h enough = absurd (omega (arith, enough))
parameters-write_types (suc k) [] behind h enough = refl
parameters-write_types (suc k) (t ∷ ts) behind h enough =
    let more = write_types ts (41 ∷ behind) in
    parameters-one k (write_type t more) more
      (write_type-Opens t.dimensions t.dimensions t.element more h.0.0)
      (field-write false 0 t.dimensions t.dimensions t.element more (omega arith) h.0.1 h.0.0)
    ∙ parameters-write_types k ts behind h.1 (omega (arith, enough))

length-write_element :
    (element : Element) (behind : Bytes)
    → suc (length behind) ≤ length (write_element element behind)
length-write_element (primitive c) behind = omega arith
length-write_element void behind = omega arith
length-write_element (object name) behind = omega (arith, length-append name (59 ∷ behind))

length-brackets : (n : ℕ) (text : Bytes) → length text ≤ length (brackets n text)
length-brackets zero text = omega arith
length-brackets (suc n) text = omega (arith, length-brackets n text)

length-write_types :
    (ts : List FieldType) (behind : Bytes) → length ts ≤ length (write_types ts behind)
length-write_types [] behind = omega arith
length-write_types (t ∷ ts) behind =
    let more = write_types ts behind in
    omega (
      arith,
      length-write_types ts behind,
      length-write_element t.element more,
      length-brackets t.dimensions (write_element t.element more),
    )

pub validate_descriptor-write :
    (ts : List FieldType) (result : FieldType)
    → All (IsFieldType false) ts
    → IsFieldType true result
    → validate_descriptor (write_descriptor ts result) ≡ ok tt
unfolding validate_descriptor
validate_descriptor-write ts result all_fine fine =
    let more = 41 ∷ write_type result [] in
    rw
      (
        parameters-write_types (suc (length (write_types ts more))) ts (write_type result [])
            all_fine (omega (arith, length-write_types ts more)),
        field-write true 0 result.dimensions result.dimensions result.element [] (omega arith)
            fine.1 fine.0,
      )
      refl
