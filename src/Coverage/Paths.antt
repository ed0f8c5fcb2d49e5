-- ===== src/Coverage/Paths.antt =====
-- `_decode_path`, `_strip_patch_prefix` and `_diff_git_paths` of
-- scripts/quality/verify_coverage.py.
use gas_station.Base.{
  ℕ, zero, suc, ◌+◌, ◌-◌, ◌*◌, String, Bool, true, false, ◌&&◌, Option, none, some, List, [], ◌∷◌,
  ◌++◌, if◌then◌else◌, eq_nat, leb, drop, starts_with, suffix_from, size,
}
use gas_station.Coverage.Outcome.{
  Result, ok, err, ◌>>=◌, ◌>>◌, policy_error, index_error, value_error, require, expect,
}
use gas_station.Coverage.Bytes.{Bytes, ends_with, without_last}

abbrev is_octal : ℕ → Bool
is_octal x = leb 48 x && leb x 55

-- `escapes.get(byte, byte)`
abbrev pub escape : ℕ → ℕ
escape x = if eq_nat x 116 then 9 else if eq_nat x 110 then 10 else if eq_nat x 114 then 13 else x

-- `bytearray.append`
abbrev appended : ℕ → ℕ → Result (ℕ × ℕ)
appended value n = if leb value 255 then ok (value, n) else err value_error

abbrev octal? : Bytes → Option ℕ
octal? (a ∷ b ∷ c ∷ rest) =
    if is_octal a && is_octal b && is_octal c
    then some (64 * (a - 48) + 8 * (b - 48) + (c - 48))
    else none
octal? _ = none

-- What a backslash and the bytes behind it stand for, and how many bytes those are.
abbrev escaped : Bytes → Result (ℕ × ℕ)
escaped rest = elim (octal? rest) [
  | some value ↦ appended value 3
  | none ↦ elim rest [ [] ↦ err index_error | a ∷ _ ↦ ok (escape a, 1) ]
]

-- The next byte of a path, and how many of the bytes behind the first it takes.
abbrev pub next_byte : ℕ → Bytes → Result (ℕ × ℕ)
next_byte x rest = if eq_nat x 92 then escaped rest else ok (x, 0)

-- The bytes of a path in quotes, where so many are skipped.
unfoldable pub unescape : ℕ → Bytes → Result Bytes
unescape n [] = ok []
unescape (suc n) (x ∷ xs) = unescape n xs
unescape zero (x ∷ xs) = next_byte x xs >>= λ r. unescape r.1 xs >>= λ rest. ok (r.0 ∷ rest)

-- `token.startswith(b'"') and token.endswith(b'"')`
abbrev pub is_quoted : Bytes → Bool
is_quoted [] = false
is_quoted (x ∷ xs) = eq_nat x 34 && ends_with (x ∷ xs) 34

unfoldable pub strip_patch_prefix : String → String → Result String
unfolding starts_with suffix_from size
strip_patch_prefix path prefix =
    require (starts_with path prefix) >> ok (suffix_from (size prefix) path)

-- Where the loop over the header stands: between tokens, in one, or in one in quotes.
pub data Header : Type 0 where
  between : Header
  bare : Bytes → Header
  quoted : Bytes → Bool → Header

abbrev with_token : Bytes → Result (List Bytes) → Result (List Bytes)
with_token t r = r >>= λ ts. ok (t ∷ ts)

-- The tokens of a header, in which a token in quotes ends with its closing quote.
unfoldable pub header_tokens : Header → Bytes → Result (List Bytes)
header_tokens between [] = ok []
header_tokens (bare t) [] = ok (t ∷ [])
header_tokens (quoted t e) [] = err policy_error
header_tokens between (x ∷ xs) = elim (eq_nat x 32) [
  | true ↦ header_tokens between xs
  | false ↦ header_tokens (if eq_nat x 34 then quoted (x ∷ []) false else bare (x ∷ [])) xs
]
header_tokens (bare t) (x ∷ xs) = elim (eq_nat x 32) [
  | true ↦ with_token t (header_tokens between xs)
  | false ↦ header_tokens (bare (t ++ x ∷ [])) xs
]
header_tokens (quoted t true) (x ∷ xs) = header_tokens (quoted (t ++ x ∷ []) false) xs
header_tokens (quoted t false) (x ∷ xs) = elim (eq_nat x 34) [
  | true ↦ with_token (t ++ x ∷ []) (header_tokens between xs)
  | false ↦ header_tokens (quoted (t ++ x ∷ []) (eq_nat x 92)) xs
]

-- `utf8` is Python's decoding of UTF-8, `none` where it fails.
module _ (utf8 : Bytes → Option String) where
  unfoldable pub decode_path : Bytes → Result String
  unfolding unescape
  decode_path token =
      (if is_quoted token then unescape 0 (drop 1 (without_last token)) else ok token) >>= λ path.
      expect (utf8 path) value_error

  -- The two paths of a header of which the tokens are found.
  unfoldable pub header_paths : List Bytes → Result (String × String)
  unfolding decode_path strip_patch_prefix
  header_paths (a ∷ b ∷ []) = do
    old ← decode_path a
    old_path ← strip_patch_prefix old "a/"
    new ← decode_path b
    new_path ← strip_patch_prefix new "b/"
    ok (old_path, new_path)
  header_paths _ = err policy_error

  -- The line starts with `diff --git `, 11 bytes.
  unfoldable pub diff_git_paths : Bytes → Result (String × String)
  unfolding header_tokens header_paths
  diff_git_paths line = header_tokens between (drop 11 line) >>= header_paths
