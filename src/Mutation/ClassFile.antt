-- ===== src/Mutation/ClassFile.antt =====
-- `_parse_class_source_file` and `_skip_attributes` of scripts/quality/pitest_policy/__init__.py.
pub mod Accepted
use gas_station.Base.{
  ℕ, zero, suc, ◌+◌, Bool, true, false, not, ◌&&◌, Option, none, some, List, [], ◌∷◌, ◌++◌,
  if◌then◌else◌, eq_nat, leb, take, drop, length,
}
use gas_station.Coverage.Bytes.{Bytes, ascii, bytes_eq}
use gas_station.Coverage.Outcome.{Result, ok, err, ◌>>=◌, ◌>>◌, policy_error, require}
use gas_station.Mutation.Pool.{
  Slot, Constant, text, take_bytes, big_endian, u2, u4, constant_pool, pool_index, pool_index_tag,
  validate_constant_pool, is_text, is_index, is_pair,
}

-- The text of a constant that is one.
abbrev text_of : Constant → List ℕ
text_of (text t) = t
text_of _ = []

abbrev index_of_constant : Constant → ℕ
index_of_constant (Constant.index n) = n
index_of_constant _ = 0

module _ (pool : List Slot) where
  unfoldable pub skip_attributes : ℕ → Bytes → Result Bytes
  unfolding u2 pool_index_tag u4 take_bytes
  skip_attributes zero bytes = ok bytes
  skip_attributes (suc n) bytes = do
    name ← u2 bytes
    named ← pool_index_tag pool name.0 1 is_text
    size ← u4 name.1
    payload ← take_bytes size.1 size.0
    skip_attributes n payload.1

  unfoldable pub interfaces : ℕ → Bytes → Result Bytes
  unfolding u2 pool_index_tag
  interfaces zero bytes = ok bytes
  interfaces (suc n) bytes = do
    i ← u2 bytes
    class_at ← pool_index_tag pool i.0 7 is_index
    interfaces n i.1

  -- The fields, or the methods.
  unfoldable pub members : ℕ → Bytes → Result Bytes
  unfolding u2 pool_index_tag skip_attributes
  members zero bytes = ok bytes
  members (suc n) bytes = do
    access ← u2 bytes
    name ← u2 access.1
    descriptor ← u2 name.1
    named ← pool_index_tag pool name.0 1 is_text
    described ← pool_index_tag pool descriptor.0 1 is_text
    count ← u2 descriptor.1
    rest ← skip_attributes count.0 count.1
    members n rest

  -- The names that attributes give as the source file, and the data behind them.
  unfoldable pub source_files : ℕ → Bytes → Result (List (List ℕ) × Bytes)
  unfolding u2 u4 take_bytes pool_index_tag pool_index big_endian ascii
  source_files zero bytes = ok ([], bytes)
  source_files (suc n) bytes = do
    name ← u2 bytes
    size ← u4 name.1
    payload ← take_bytes size.1 size.0
    named ← pool_index_tag pool name.0 1 is_text
    found ←
        (if bytes_eq (text_of named) (ascii "SourceFile")
          then (require (eq_nat size.0 2)
              >> (pool_index pool (big_endian 0 payload.0) is_text >>= λ file.
                  ok (text_of file ∷ [])))
          else ok [])
    rest ← source_files n payload.1
    ok (found ++ rest.0, rest.1)

  abbrev check_parent : ℕ → Result (Unit {0})
  unfolding pool_index_tag
  check_parent super =
      if eq_nat super 0 then ok tt else (pool_index_tag pool super 7 is_index >>= λ _. ok tt)

  -- The name of the class, and what is behind the interfaces.
  unfoldable pub class_header : Bytes → Result (List ℕ × Bytes)
  unfolding u2 pool_index_tag pool_index interfaces check_parent
  class_header bytes = do
    access ← u2 bytes
    this ← u2 access.1
    super ← u2 this.1
    class_at ← pool_index_tag pool this.0 7 is_index
    name ← pool_index pool (index_of_constant class_at) is_text
    check_parent super.0
    count ← u2 super.1
    rest ← interfaces count.0 count.1
    ok (text_of name, rest)

  unfoldable pub all_members : Bytes → Result Bytes
  unfolding u2 members
  all_members bytes = do
    fields ← u2 bytes
    methods_at ← members fields.0 fields.1
    methods ← u2 methods_at
    members methods.0 methods.1

abbrev is_done : Bytes → Bool
is_done [] = true
is_done (x ∷ xs) = false

abbrev pub only_one : List (List ℕ) → Result (List ℕ)
only_one (file ∷ []) = ok file
only_one _ = err policy_error

unfoldable pub parse_class_source_file : Bytes → Result (List ℕ × List ℕ)
unfolding u2 constant_pool validate_constant_pool class_header all_members source_files
parse_class_source_file bytes = do
  require (leb 10 (length bytes) && bytes_eq (take 4 bytes) (202 ∷ 254 ∷ 186 ∷ 190 ∷ []))
  count ← u2 (drop 8 bytes)
  pool ← constant_pool count.0 count.1
  validate_constant_pool pool.0
  header ← class_header pool.0 pool.1
  attributes ← all_members pool.0 header.1
  number ← u2 attributes
  files ← source_files pool.0 number.0 number.1
  require (is_done files.1)
  file ← only_one files.0
  ok (header.0, file)
