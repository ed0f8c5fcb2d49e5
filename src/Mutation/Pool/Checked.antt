-- ===== src/Mutation/Pool/Checked.antt =====
-- Lemmas on `_validate_constant_pool` of scripts/quality/pitest_policy/__init__.py.
use gas_station.Base.{
  ℕ, Bool, true, false, ◌&&◌, List, [], ◌∷◌, ◌≡◌, refl, arith, All, eq_nat, leb, Bool-cases,
  Option-cases, inl, inr,
}
use gas_station.Coverage.Outcome.{ok, require, >>=-eq-ok, require-eq-ok}
use gas_station.Mutation.Pool.{
  Constant, absent, text, index, pair, Slot, number_in, is_text, is_index, is_pair, handle_tags,
  tagged, pool_index_tag, validate_constant, validate_slots,
}
use gas_station.Mutation.Pool.Shapes.{IsShaped, IsTagged}
use gas_station.Mutation.Pool.Sound.{
  Sound, utf8, numeric, named, member, name_and_type, dynamic, method_handle, IsSound, tagged-Holds,
  held_text, held_index, held_pair, handle_tags-Refers,
}

require-ok : (t : Bool) → require t ≡ ok tt → t ≡ true
require-ok true e = refl
require-ok false e = cc

pair-Sound :
    (pool : List Slot) (t a b : ℕ)
    → IsShaped t (pair a b)
    → validate_constant pool t (pair a b) ≡ ok tt
    → Sound pool t (pair a b)
unfolding validate_constant
pair-Sound pool t a b shape e =
    let others : number_in t (7 ∷ 8 ∷ 16 ∷ 19 ∷ 20 ∷ []) ≡ false = ground (arith, shape) in
    elim (Bool-cases (number_in t (9 ∷ 10 ∷ 11 ∷ []))) [
      | inl now ↦
          let (c, e1, k1) =
            >>=-eq-ok (pool_index_tag pool a 7 is_index) _ (rw (others, now) at e) in
          let (d, e2, k2) = >>=-eq-ok (pool_index_tag pool b 12 is_pair) _ k1 in
          let (n, first) = held_index pool a 7 c e1 in
          let (x, y, second) = held_pair pool b 12 d e2 in
          member n x y (ground (arith, now)) (ground (arith, now)) first second
      | inr n1 ↦ elim (Bool-cases (eq_nat t 12)) [
        | inl now ↦
            let (c, e1, k1) =
              >>=-eq-ok (pool_index_tag pool a 1 is_text) _ (rw (others, n1, now) at e) in
            let (d, e2, k2) = >>=-eq-ok (pool_index_tag pool b 1 is_text) _ k1 in
            let (s, first) = held_text pool a 1 c e1 in
            let (u, second) = held_text pool b 1 d e2 in
            let is : t ≡ 12 = ground (arith, now) in rw is (name_and_type s u first second)
        | inr n2 ↦ elim (Bool-cases (number_in t (17 ∷ 18 ∷ []))) [
          | inl now ↦
              let (d, e2, k2) =
                >>=-eq-ok (pool_index_tag pool b 12 is_pair) _ (rw (others, n1, n2, now) at e) in
              let (x, y, second) = held_pair pool b 12 d e2 in
              dynamic x y (ground (arith, now)) (ground (arith, now)) second
          | inr n3 ↦
              let is : t ≡ 15 = ground (arith, shape, n1, n2, n3) in
              let (bounds, k1) =
                require-eq-ok (leb 1 a && leb a 9) (require (tagged pool b (handle_tags a)))
                  (rw is at e) in
              let has : tagged pool b (handle_tags a) ≡ true = require-ok _ k1 in
              let (k, c, held, among) = tagged-Holds pool b (handle_tags a) has in
              rw is (method_handle k c (handle_tags-Refers a k bounds among) held)
        ]
      ]
    ]

validate_constant-Sound :
    (pool : List Slot) (t : ℕ) (c : Constant)
    → IsShaped t c
    → validate_constant pool t c ≡ ok tt
    → Sound pool t c
unfolding validate_constant
validate_constant-Sound pool t (text s) shape e = rw shape (utf8 s)
validate_constant-Sound pool t absent shape e =
    numeric (ground (arith, shape)) (ground (arith, shape))
validate_constant-Sound pool t (index n) shape e =
    let (c, e1, k) = >>=-eq-ok (pool_index_tag pool n 1 is_text) _ (rw shape at e) in
    let (s, held) = held_text pool n 1 c e1 in named s shape held
validate_constant-Sound pool t (pair a b) shape e = pair-Sound pool t a b shape e

pub validate_slots-IsSound :
    (pool found : List Slot)
    → All (λ slot. IsTagged slot.tag slot.constant) found
    → validate_slots pool found ≡ ok tt
    → All (λ slot. IsSound pool slot.tag slot.constant) found
unfolding validate_slots
validate_slots-IsSound pool [] shapes e = tt
validate_slots-IsSound pool (slot ∷ rest) shapes e = elim (Option-cases slot.tag) [
  | inl n ↦ (rw n tt, validate_slots-IsSound pool rest shapes.1 (rw (validate_slots, n) at e))
  | inr (t, is) ↦
      let (done, e1, e2) =
        >>=-eq-ok (validate_constant pool t slot.constant) _ (rw (validate_slots, is) at e) in
      let shape : IsShaped t slot.constant = rw is at shapes.0 in
      (
        rw is (validate_constant-Sound pool t slot.constant shape e1),
        validate_slots-IsSound pool rest shapes.1 e2,
      )
]
