-- ===== src/Mutation/Pool/Shapes.antt =====
-- The constants that each tag has in the constant pool that `_parse_class_source_file` of
-- scripts/quality/pitest_policy/__init__.py reads.
use gas_station.Base.{
  ℕ, zero, suc, Bool, true, false, Option, none, some, List, [], ◌∷◌, ◌≡◌, sym, ap, arith, All,
  eq_nat, Bool-cases, inl, inr,
}
use gas_station.Coverage.Bytes.{Bytes}
use gas_station.Coverage.Outcome.{ok, err, ◌>>=◌, policy_error, >>=-eq-ok}
use gas_station.Mutation.Text.{decode_modified_utf8}
use gas_station.Mutation.Pool.{
  Constant, absent, text, index, pair, Slot, number_in, take_bytes, u2, two_numbers, skipped,
  text_constant, method_handle, constant_of, slots, constant_pool,
}

-- The tags that have a constant of this form.
abbrev pub IsShaped : ℕ → Constant → Type 0
IsShaped t (text s) = t ≡ 1
IsShaped t absent = number_in t (3 ∷ 4 ∷ 5 ∷ 6 ∷ []) ≡ true
IsShaped t (index n) = number_in t (7 ∷ 8 ∷ 16 ∷ 19 ∷ 20 ∷ []) ≡ true
IsShaped t (pair a b) = number_in t (9 ∷ 10 ∷ 11 ∷ 12 ∷ 17 ∷ 18 ∷ 15 ∷ []) ≡ true

abbrev pub IsTagged : Option ℕ → Constant → Type 0
IsTagged none c = Unit
IsTagged (some t) c = IsShaped t c

first_of : {V W : Type 0} {x y : V × W} → ok x ≡ ok y → x.0 ≡ y.0
first_of {x = x} h = ap (λ r. elim r [ err e ↦ x.0 | ok v ↦ v.0 ]) h

text_constant-text :
    (bytes : Bytes) (r : Constant × Bytes)
    → text_constant bytes ≡ ok r
    → (s : List ℕ) × (r.0 ≡ text s)
unfolding text_constant
text_constant-text bytes r h =
    let (size, e1, k1) = >>=-eq-ok (u2 bytes) _ h in
    let (found, e2, k2) = >>=-eq-ok (take_bytes size.1 size.0) _ k1 in
    let (s, e3, k3) = >>=-eq-ok (decode_modified_utf8 found.0) _ k2 in (s, sym (first_of k3))

skipped-absent :
    (n : ℕ) (bytes : Bytes) (r : Constant × Bytes) → skipped n bytes ≡ ok r → r.0 ≡ absent
unfolding skipped
skipped-absent n bytes r h =
    let (found, e, k) = >>=-eq-ok (take_bytes bytes n) _ h in sym (first_of k)

two_numbers-pair :
    (bytes : Bytes) (r : Constant × Bytes)
    → two_numbers bytes ≡ ok r
    → (a : ℕ) × (b : ℕ) × (r.0 ≡ pair a b)
unfolding two_numbers
two_numbers-pair bytes r h =
    let (first, e1, k1) = >>=-eq-ok (u2 bytes) _ h in
    let (second, e2, k2) = >>=-eq-ok (u2 first.1) _ k1 in (first.0, second.0, sym (first_of k2))

method_handle-pair :
    (bytes : Bytes) (r : Constant × Bytes)
    → method_handle bytes ≡ ok r
    → (a : ℕ) × (b : ℕ) × (r.0 ≡ pair a b)
unfolding method_handle
method_handle-pair [] r h = cc
method_handle-pair (kind ∷ bytes) r h =
    let (second, e, k) = >>=-eq-ok (u2 bytes) _ h in (kind, second.0, sym (first_of k))

constant_of-IsShaped :
    (t : ℕ) (bytes : Bytes) (r : Constant × Bytes) → constant_of t bytes ≡ ok r → IsShaped t r.0
unfolding constant_of
constant_of-IsShaped t bytes r h = elim (Bool-cases (eq_nat t 1)) [
  | inl e ↦
      let (s, same) = text_constant-text bytes r (rw e at h) in
      let is : t ≡ 1 = ground (arith, e) in rw same is
  | inr n1 ↦ elim (Bool-cases (number_in t (3 ∷ 4 ∷ []))) [
    | inl e ↦ rw (skipped-absent 4 bytes r (rw (n1, e) at h)) (ground (arith, e))
    | inr n2 ↦ elim (Bool-cases (number_in t (5 ∷ 6 ∷ []))) [
      | inl e ↦ rw (skipped-absent 8 bytes r (rw (n1, n2, e) at h)) (ground (arith, e))
      | inr n3 ↦ elim (Bool-cases (number_in t (7 ∷ 8 ∷ 16 ∷ 19 ∷ 20 ∷ []))) [
        | inl e ↦
            let run : (u2 bytes >>= λ v. ok (index v.0, v.1)) ≡ ok r = rw (n1, n2, n3, e) at h in
            let (v, e1, k) = >>=-eq-ok (u2 bytes) _ run in rw (← (first_of k)) e
        | inr n4 ↦ elim (Bool-cases (number_in t (9 ∷ 10 ∷ 11 ∷ 12 ∷ 17 ∷ 18 ∷ []))) [
          | inl e ↦
              let (a, b, same) = two_numbers-pair bytes r (rw (n1, n2, n3, n4, e) at h) in
              rw same (ground (arith, e))
          | inr n5 ↦ elim (Bool-cases (eq_nat t 15)) [
            | inl e ↦
                let (a, b, same) = method_handle-pair bytes r (rw (n1, n2, n3, n4, n5, e) at h) in
                rw same (ground (arith, e))
            | inr n6 ↦
                let run : err policy_error ≡ ok r = rw (n1, n2, n3, n4, n5, n6) at h in cc run
          ]
        ]
      ]
    ]
  ]
]

slots-IsTagged :
    (wide : Bool) (n : ℕ) (bytes : Bytes) (r : List Slot × Bytes)
    → slots wide n bytes ≡ ok r
    → All (λ slot. IsTagged slot.tag slot.constant) r.0
unfolding slots
slots-IsTagged wide zero bytes r e = rw (← (first_of e)) tt
slots-IsTagged true (suc n) bytes r e =
    let (rest, e1, k) = >>=-eq-ok (slots false n bytes) _ e in
    rw (← (first_of k)) (tt, slots-IsTagged false n bytes rest e1)
slots-IsTagged false (suc n) [] r e = cc
slots-IsTagged false (suc n) (t ∷ bytes) r e =
    let (c, e1, k1) = >>=-eq-ok (constant_of t bytes) _ e in
    let (rest, e2, k2) = >>=-eq-ok (slots (number_in t (5 ∷ 6 ∷ [])) n c.1) _ k1 in
    rw (← (first_of k2))
      (constant_of-IsShaped t bytes c e1, slots-IsTagged (number_in t (5 ∷ 6 ∷ [])) n c.1 rest e2)

pub constant_pool-IsTagged :
    (count : ℕ) (bytes : Bytes) (r : List Slot × Bytes)
    → constant_pool count bytes ≡ ok r
    → All (λ slot. IsTagged slot.tag slot.constant) r.0
unfolding constant_pool
constant_pool-IsTagged zero bytes r e = rw (← (first_of e)) tt
constant_pool-IsTagged (suc n) bytes r e =
    let (rest, e1, k) = >>=-eq-ok (slots false n bytes) _ e in
    rw (← (first_of k)) (tt, slots-IsTagged false n bytes rest e1)
