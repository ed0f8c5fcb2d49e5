-- ===== src/Mutation/Pool.antt =====
-- The constant pool of a class file: `_take`, `_u2`, `_u4`, `_pool_index`, `_pool_index_tag`,
-- `_validate_constant_pool` and the first loop of `_parse_class_source_file` of
-- scripts/quality/pitest_policy/__init__.py. What the source holds as the data and an offset is here
-- the data behind the offset.
pub mod Size
pub mod Shapes
pub mod Sound
pub mod Checked
use gas_station.Base.{
  ℕ, zero, suc, ◌+◌, ◌*◌, ◌-◌, Bool, true, false, not, ◌&&◌, ◌||◌, Option, none, some, List, [],
  ◌∷◌, if◌then◌else◌, eq_nat, leb, ltb, take, drop, length, get_elem?,
}
use gas_station.Coverage.Bytes.{Bytes}
use gas_station.Coverage.Outcome.{Result, ok, err, ◌>>=◌, ◌>>◌, policy_error, require}
use gas_station.Mutation.Text.{decode_modified_utf8}

unfoldable pub take_bytes : Bytes → ℕ → Result (Bytes × Bytes)
take_bytes bytes n = require (leb n (length bytes)) >> ok (take n bytes, drop n bytes)

-- `int.from_bytes(raw, "big")`, behind a number
unfoldable pub big_endian : ℕ → Bytes → ℕ
big_endian n [] = n
big_endian n (b ∷ raw) = big_endian (256 * n + b) raw

unfoldable pub u2 : Bytes → Result (ℕ × Bytes)
unfolding take_bytes big_endian
u2 bytes = take_bytes bytes 2 >>= λ r. ok (big_endian 0 r.0, r.1)

unfoldable pub u4 : Bytes → Result (ℕ × Bytes)
unfolding take_bytes big_endian
u4 bytes = take_bytes bytes 4 >>= λ r. ok (big_endian 0 r.0, r.1)

-- `None`, a text, a number, or two numbers.
pub data Constant : Type 0 where
  absent : Constant
  text : List ℕ → Constant
  index : ℕ → Constant
  pair : ℕ → ℕ → Constant

-- The members of `tags` and `pool` at one index.
pub record Slot : Type 0 where
  pub tag : Option ℕ
  pub constant : Constant

abbrev pub hole : Slot
hole = record { tag = none; constant = absent }

abbrev pub number_in : ℕ → List ℕ → Bool
number_in n [] = false
number_in n (x ∷ xs) = eq_nat n x || number_in n xs

abbrev pub two_numbers : Bytes → Result (Constant × Bytes)
unfolding u2
two_numbers bytes =
    u2 bytes >>= λ first. u2 first.1 >>= λ second. ok (pair first.0 second.0, second.1)

abbrev pub skipped : ℕ → Bytes → Result (Constant × Bytes)
unfolding take_bytes
skipped n bytes = take_bytes bytes n >>= λ r. ok (absent, r.1)

abbrev pub text_constant : Bytes → Result (Constant × Bytes)
unfolding u2 take_bytes decode_modified_utf8
text_constant bytes = u2 bytes >>= λ size.
    take_bytes size.1 size.0 >>= λ r. decode_modified_utf8 r.0 >>= λ t. ok (text t, r.1)

-- A method handle. Where nothing is left, the source goes on with 0 and fails for the reference.
abbrev pub method_handle : Bytes → Result (Constant × Bytes)
unfolding u2
method_handle [] = err policy_error
method_handle (kind ∷ bytes) = u2 bytes >>= λ r. ok (pair kind r.0, r.1)

-- The constant of a tag.
unfoldable pub constant_of : ℕ → Bytes → Result (Constant × Bytes)
unfolding two_numbers skipped text_constant method_handle u2
constant_of tag bytes =
    if eq_nat tag 1
    then text_constant bytes
    else if number_in tag (3 ∷ 4 ∷ [])
    then skipped 4 bytes
    else if number_in tag (5 ∷ 6 ∷ [])
    then skipped 8 bytes
    else if number_in tag (7 ∷ 8 ∷ 16 ∷ 19 ∷ 20 ∷ [])
    then (u2 bytes >>= λ r. ok (index r.0, r.1))
    else if number_in tag (9 ∷ 10 ∷ 11 ∷ 12 ∷ 17 ∷ 18 ∷ [])
    then two_numbers bytes
    else if eq_nat tag 15
    then method_handle bytes
    else err policy_error

-- The slots that are left, the first a hole where the constant before it takes two.
unfoldable pub slots : Bool → ℕ → Bytes → Result (List Slot × Bytes)
unfolding constant_of
slots wide zero bytes = ok ([], bytes)
slots true (suc n) bytes = slots false n bytes >>= λ r. ok (hole ∷ r.0, r.1)
slots false (suc n) [] = err policy_error
slots false (suc n) (t ∷ bytes) = constant_of t bytes >>= λ c.
    slots (number_in t (5 ∷ 6 ∷ [])) n c.1 >>= λ r.
    ok (record { tag = some t; constant = c.0 } ∷ r.0, r.1)

-- The pool of so many slots, of which the first is not in the data.
unfoldable pub constant_pool : ℕ → Bytes → Result (List Slot × Bytes)
unfolding slots
constant_pool zero bytes = ok ([], bytes)
constant_pool (suc n) bytes = slots false n bytes >>= λ r. ok (hole ∷ r.0, r.1)

abbrev pub is_text : Constant → Bool
is_text (text t) = true
is_text _ = false

abbrev pub is_index : Constant → Bool
is_index (index n) = true
is_index _ = false

abbrev pub is_pair : Constant → Bool
is_pair (pair a b) = true
is_pair _ = false

unfoldable pub pool_index : List Slot → ℕ → (Constant → Bool) → Result Constant
pool_index pool zero expected = err policy_error
pool_index pool (suc i) expected = elim (get_elem? pool (suc i)) [
  | none ↦ err policy_error
  | some slot ↦ require (expected slot.constant) >> ok slot.constant
]

abbrev pub has_tag : List ℕ → Option ℕ → Bool
has_tag tags none = false
has_tag tags (some t) = number_in t tags

-- `0 < index < len(tags) and tags[index] in …`
unfoldable pub tagged : List Slot → ℕ → List ℕ → Bool
tagged pool zero allowed = false
tagged pool (suc i) allowed = elim (get_elem? pool (suc i)) [
  | none ↦ false
  | some slot ↦ has_tag allowed slot.tag
]

unfoldable pub pool_index_tag : List Slot → ℕ → ℕ → (Constant → Bool) → Result Constant
unfolding pool_index tagged
pool_index_tag pool i t expected = require (tagged pool i (t ∷ [])) >> pool_index pool i expected

abbrev numbers_of : Constant → ℕ × ℕ
numbers_of (pair a b) = (a, b)
numbers_of _ = (0, 0)

abbrev number_of : Constant → ℕ
number_of (index n) = n
number_of _ = 0

-- The tags that a method handle of a kind may refer to.
abbrev pub handle_tags : ℕ → List ℕ
handle_tags kind =
    if number_in kind (1 ∷ 2 ∷ 3 ∷ 4 ∷ [])
    then 9 ∷ []
    else if number_in kind (5 ∷ 8 ∷ [])
    then 10 ∷ []
    else if number_in kind (6 ∷ 7 ∷ [])
    then 10 ∷ 11 ∷ []
    else 11 ∷ []

module _ (pool : List Slot) where
  unfoldable pub validate_constant : ℕ → Constant → Result (Unit {0})
  unfolding pool_index_tag tagged
  validate_constant t c =
      let (first, second) = numbers_of c in
      if number_in t (7 ∷ 8 ∷ 16 ∷ 19 ∷ 20 ∷ [])
      then (pool_index_tag pool (number_of c) 1 is_text >>= λ _. ok tt)
      else if number_in t (9 ∷ 10 ∷ 11 ∷ [])
      then (pool_index_tag pool first 7 is_index >>= λ _.
          pool_index_tag pool second 12 is_pair >>= λ _. ok tt)
      else if eq_nat t 12
      then (pool_index_tag pool first 1 is_text >>= λ _.
          pool_index_tag pool second 1 is_text >>= λ _. ok tt)
      else if number_in t (17 ∷ 18 ∷ [])
      then (pool_index_tag pool second 12 is_pair >>= λ _. ok tt)
      else if eq_nat t 15
      then require (leb 1 first && leb first 9) >> require (tagged pool second (handle_tags first))
      else ok tt

  unfoldable pub validate_slots : List Slot → Result (Unit {0})
  unfolding validate_constant
  validate_slots [] = ok tt
  validate_slots (slot ∷ rest) = elim slot.tag [
    | none ↦ validate_slots rest
    | some t ↦ validate_constant t slot.constant >> validate_slots rest
  ]

-- The slot at 0 has no tag.
unfoldable pub validate_constant_pool : List Slot → Result (Unit {0})
unfolding validate_slots
validate_constant_pool pool = validate_slots pool pool
