-- ===== src/Mutation/Pool/Sound.antt =====
-- The forms of constants in the format of class files and what their indices point to, for
-- `_validate_constant_pool` of scripts/quality/pitest_policy/__init__.py.
use gas_station.Base.{
  ℕ, zero, suc, Bool, true, false, ◌&&◌, Option, none, some, List, [], ◌∷◌, ◌≡◌, ◌≤◌, ◌⊎◌, refl,
  arith, eq_nat, leb, get_elem?, Bool-cases, Option-cases, inl, inr,
}
use gas_station.Coverage.Outcome.{ok, err, ◌>>◌, policy_error, require, require-eq-ok}
use gas_station.Mutation.Pool.{
  Constant, absent, text, index, pair, Slot, number_in, has_tag, is_text, is_index, is_pair,
  handle_tags, tagged, pool_index, pool_index_tag,
}

-- The pool has a constant of the tag at an index.
abbrev pub Holds : List Slot → ℕ → ℕ → Constant → Type 0
Holds pool i t c =
    (slot : Slot) × (get_elem? pool i ≡ some slot) × (slot.tag ≡ some t) × (slot.constant ≡ c)

-- The tags of what a method handle of a kind refers to: a field, a method, a method of a class or of
-- an interface, a method of an interface.
pub data Refers : ℕ → ℕ → Type 0 where
  to_field : {kind : ℕ} → 1 ≤ kind → kind ≤ 4 → Refers kind 9
  to_virtual : Refers 5 10
  to_static : {t : ℕ} → (t ≡ 10) ⊎ (t ≡ 11) → Refers 6 t
  to_special : {t : ℕ} → (t ≡ 10) ⊎ (t ≡ 11) → Refers 7 t
  to_constructor : Refers 8 10
  to_interface : Refers 9 11

-- The constants that a tag has in a pool, by the format of class files.
pub data Sound (pool : List Slot) : ℕ → Constant → Type 0 where
  utf8 : (s : List ℕ) → Sound pool 1 (text s)
  numeric : {t : ℕ} → 3 ≤ t → t ≤ 6 → Sound pool t absent
  -- a class, a string, the type of a method, a module, a package
  named :
      {t n : ℕ} (s : List ℕ)
      → number_in t (7 ∷ 8 ∷ 16 ∷ 19 ∷ 20 ∷ []) ≡ true
      → Holds pool n 1 (text s)
      → Sound pool t (index n)
  -- a field, a method, a method of an interface
  member :
      {t a b : ℕ} (n x y : ℕ)
      → 9 ≤ t
      → t ≤ 11
      → Holds pool a 7 (index n)
      → Holds pool b 12 (pair x y)
      → Sound pool t (pair a b)
  name_and_type :
      {a b : ℕ} (s u : List ℕ)
      → Holds pool a 1 (text s)
      → Holds pool b 1 (text u)
      → Sound pool 12 (pair a b)
  -- `a` counts in an attribute
  dynamic :
      {t a b : ℕ} (x y : ℕ) → 17 ≤ t → t ≤ 18 → Holds pool b 12 (pair x y) → Sound pool t (pair a b)
  method_handle :
      {kind b : ℕ} (t : ℕ) (c : Constant)
      → Refers kind t
      → Holds pool b t c
      → Sound pool 15 (pair kind b)

abbrev pub IsSound : List Slot → Option ℕ → Constant → Type 0
IsSound pool none c = Unit
IsSound pool (some t) c = Sound pool t c

pub tagged-Holds :
    (pool : List Slot) (i : ℕ) (tags : List ℕ)
    → tagged pool i tags ≡ true
    → (t : ℕ) × (c : Constant) × Holds pool i t c × (number_in t tags ≡ true)
unfolding tagged
tagged-Holds pool zero tags e = cc
tagged-Holds pool (suc i) tags e = elim (Option-cases (get_elem? pool (suc i))) [
  | inl n ↦ let no : false ≡ true = rw (tagged, n) at e in cc no
  | inr (slot, is) ↦
      let has : has_tag tags slot.tag ≡ true = rw (tagged, is) at e in
      elim (Option-cases slot.tag) [
        | inl n ↦ let no : false ≡ true = rw n at has in cc no
        | inr (t, at) ↦ (t, slot.constant, (slot, is, at, refl), rw at at has)
      ]
]

pool_index_tag-Holds :
    (pool : List Slot) (i t : ℕ) (p : Constant → Bool) (c : Constant)
    → pool_index_tag pool i t p ≡ ok c
    → Holds pool i t c × (p c ≡ true)
unfolding pool_index_tag pool_index tagged
pool_index_tag-Holds pool zero t p c e = cc
pool_index_tag-Holds pool (suc i) t p c e =
    let (has, e1) = require-eq-ok (tagged pool (suc i) (t ∷ [])) _ e in
    elim (Option-cases (get_elem? pool (suc i))) [
      | inl n ↦ let no : err policy_error ≡ ok c = rw (pool_index, n) at e1 in cc no
      | inr (slot, is) ↦
          let run : (require (p slot.constant) >> ok slot.constant) ≡ ok c =
            rw (pool_index, is) at e1 in
          let (fits, same) = require-eq-ok (p slot.constant) _ run in
          let held : slot.constant ≡ c = cc same in
          let (t', c', (slot', is', at, _), among) = tagged-Holds pool (suc i) (t ∷ []) has in
          let one : slot' ≡ slot = cc (is, is') in
          let eq : t' ≡ t = ground (arith, among) in
          ((slot, is, cc (one, eq, at), held), rw held at fits)
    ]

pub held_text :
    (pool : List Slot) (i t : ℕ) (c : Constant)
    → pool_index_tag pool i t is_text ≡ ok c
    → (s : List ℕ) × Holds pool i t (text s)
held_text pool i t (text s) e = (s, (pool_index_tag-Holds pool i t is_text (text s) e).0)
held_text pool i t absent e = cc ((pool_index_tag-Holds pool i t is_text absent e).1)
held_text pool i t (index n) e = cc ((pool_index_tag-Holds pool i t is_text (index n) e).1)
held_text pool i t (pair a b) e = cc ((pool_index_tag-Holds pool i t is_text (pair a b) e).1)

pub held_index :
    (pool : List Slot) (i t : ℕ) (c : Constant)
    → pool_index_tag pool i t is_index ≡ ok c
    → (n : ℕ) × Holds pool i t (index n)
held_index pool i t (index n) e = (n, (pool_index_tag-Holds pool i t is_index (index n) e).0)
held_index pool i t absent e = cc ((pool_index_tag-Holds pool i t is_index absent e).1)
held_index pool i t (text s) e = cc ((pool_index_tag-Holds pool i t is_index (text s) e).1)
held_index pool i t (pair a b) e = cc ((pool_index_tag-Holds pool i t is_index (pair a b) e).1)

pub held_pair :
    (pool : List Slot) (i t : ℕ) (c : Constant)
    → pool_index_tag pool i t is_pair ≡ ok c
    → (x : ℕ) × (y : ℕ) × Holds pool i t (pair x y)
held_pair pool i t (pair x y) e = (x, y, (pool_index_tag-Holds pool i t is_pair (pair x y) e).0)
held_pair pool i t absent e = cc ((pool_index_tag-Holds pool i t is_pair absent e).1)
held_pair pool i t (text s) e = cc ((pool_index_tag-Holds pool i t is_pair (text s) e).1)
held_pair pool i t (index n) e = cc ((pool_index_tag-Holds pool i t is_pair (index n) e).1)

pub handle_tags-Refers :
    (kind t : ℕ)
    → (leb 1 kind && leb kind 9) ≡ true
    → number_in t (handle_tags kind) ≡ true
    → Refers kind t
handle_tags-Refers kind t bounds among = elim (Bool-cases (number_in kind (1 ∷ 2 ∷ 3 ∷ 4 ∷ []))) [
  | inl e ↦
      let all : number_in t (9 ∷ []) ≡ true = rw e at among in
      let is : t ≡ 9 = ground (arith, all) in
      let low : 1 ≤ kind = ground (arith, e) in
      let high : kind ≤ 4 = ground (arith, e) in rw is (to_field low high)
  | inr n1 ↦ elim (Bool-cases (eq_nat kind 5)) [
    | inl e ↦
        let is : kind ≡ 5 = ground (arith, e) in
        let all : number_in t (10 ∷ []) ≡ true = rw is at among in
        let one : t ≡ 10 = ground (arith, all) in rw (is, one) to_virtual
    | inr n2 ↦ elim (Bool-cases (eq_nat kind 8)) [
      | inl e ↦
          let is : kind ≡ 8 = ground (arith, e) in
          let all : number_in t (10 ∷ []) ≡ true = rw is at among in
          let one : t ≡ 10 = ground (arith, all) in rw (is, one) to_constructor
      | inr n3 ↦ elim (Bool-cases (eq_nat kind 6)) [
        | inl e ↦
            let is : kind ≡ 6 = ground (arith, e) in
            let all : number_in t (10 ∷ 11 ∷ []) ≡ true = rw is at among in
            let one : (t ≡ 10) ⊎ (t ≡ 11) = ground (arith, all) in rw is (to_static one)
        | inr n4 ↦ elim (Bool-cases (eq_nat kind 7)) [
          | inl e ↦
              let is : kind ≡ 7 = ground (arith, e) in
              let all : number_in t (10 ∷ 11 ∷ []) ≡ true = rw is at among in
              let one : (t ≡ 10) ⊎ (t ≡ 11) = ground (arith, all) in rw is (to_special one)
          | inr n5 ↦
              let is : kind ≡ 9 = ground (arith, bounds, n1, n2, n3, n4, n5) in
              let all : number_in t (11 ∷ []) ≡ true = rw is at among in
              let one : t ≡ 11 = ground (arith, all) in rw (is, one) to_interface
        ]
      ]
    ]
  ]
]
