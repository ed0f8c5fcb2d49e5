-- ===== src/Mutation/ClassFile/Accepted.antt =====
-- What holds of a class file that `_parse_class_source_file` of
-- scripts/quality/pitest_policy/__init__.py accepts.
use gas_station.Base.{ℕ, true, ◌&&◌, List, [], ◌∷◌, ◌≡◌, arith, All, leb, take, drop, length}
use gas_station.Coverage.Bytes.{Bytes, bytes_eq}
use gas_station.Coverage.Outcome.{ok, >>=-eq-ok, require-eq-ok}
use gas_station.Mutation.Pool.{Slot, u2, constant_pool, validate_constant_pool}
use gas_station.Mutation.Pool.Size.{length-constant_pool}
use gas_station.Mutation.Pool.Shapes.{constant_pool-IsTagged}
use gas_station.Mutation.Pool.Sound.{IsSound}
use gas_station.Mutation.Pool.Checked.{validate_slots-IsSound}
use gas_station.Mutation.ClassFile.{parse_class_source_file}

-- The class file starts with its magic number, its constant pool is read with as many slots as its
-- count says, and every constant with a tag is sound.
abbrev pub HasSoundPool : Bytes → Type 0
HasSoundPool bytes =
    (count : ℕ) × (behind : Bytes) × (pool : List Slot) × (rest : Bytes) × (bytes_eq (take 4 bytes)
        (202 ∷ 254 ∷ 186 ∷ 190 ∷ [])
      ≡ true)
    × (u2 (drop 8 bytes) ≡ ok (count, behind))
    × (constant_pool count behind ≡ ok (pool, rest))
    × (length pool ≡ count)
    × All (λ slot. IsSound pool slot.tag slot.constant) pool

-- A class file that is accepted starts with its magic number, its constant pool is read with as many
-- slots as its count says, and every constant with a tag is a text, a number, or a constant whose
-- indices point to constants of the pool of the tags and forms that the format of class files has for
-- its own tag, but for the first index of a dynamic constant, which counts in an attribute.
pub parse_class_source_file-IsSound :
    (bytes : Bytes) (found : List ℕ × List ℕ)
    → parse_class_source_file bytes ≡ ok found
    → HasSoundPool bytes
unfolding parse_class_source_file validate_constant_pool
parse_class_source_file-IsSound bytes found e =
    let magic = bytes_eq (take 4 bytes) (202 ∷ 254 ∷ 186 ∷ 190 ∷ []) in
    let (starts, e1) = require-eq-ok (leb 10 (length bytes) && magic) _ e in
    let (count, e2, e3) = >>=-eq-ok (u2 (drop 8 bytes)) _ e1 in
    let (pool, e4, e5) = >>=-eq-ok (constant_pool count.0 count.1) _ e3 in
    let (done, e6, e7) = >>=-eq-ok (validate_constant_pool pool.0) _ e5 in
    let magical : magic ≡ true = ground (arith, starts) in
    (
      count.0,
      count.1,
      pool.0,
      pool.1,
      magical,
      e2,
      e4,
      length-constant_pool count.0 count.1 pool.1 pool.0 e4,
      validate_slots-IsSound pool.0 pool.0 (constant_pool-IsTagged count.0 count.1 pool e4) e6,
    )
