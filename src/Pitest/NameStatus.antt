-- ===== src/Pitest/NameStatus.antt =====
-- `parse_name_status` of scripts/quality/verify_pitest.py.
pub mod RoundTrip
use gas_station.Base.{
  ℕ, zero, suc, String, Bool, true, false, not, ◌&&◌, ◌||◌, Option, none, some, List, [], ◌∷◌,
  if◌then◌else◌, eq_nat, ltb, all,
}
use gas_station.Coverage.Outcome.{
  Result, ok, err, ◌>>=◌, policy_error, index_error, value_error, expect,
}
use gas_station.Coverage.Bytes.{Bytes, split_bytes}
use gas_station.Mutation.Routing.{Change}

-- `if tokens and tokens[-1] == b"": tokens.pop()`
abbrev pub without_empty_end : List Bytes → List Bytes
without_empty_end [] = []
without_empty_end ([] ∷ []) = []
without_empty_end ((x ∷ xs) ∷ []) = (x ∷ xs) ∷ []
without_empty_end (t ∷ u ∷ tokens) = t ∷ without_empty_end (u ∷ tokens)

-- `tokens[index].decode("ascii", errors="strict")[0]`
abbrev first_of : Bytes → Result ℕ
first_of [] = err index_error
first_of (s ∷ score) = ok s

unfoldable pub status_of : Bytes → Result ℕ
unfolding all
status_of token = if all (λ x. ltb x 128) token then first_of token else err value_error

-- `status in {"R", "C"}`
abbrev pub has_two_paths : ℕ → Bool
has_two_paths s = eq_nat s 82 || eq_nat s 67

-- The record of a status that names one path.
abbrev pub one_path : ℕ → String → Change
one_path s path = record {
  status = s;
  old_path = if eq_nat s 65 then none else some path;
  new_path = if eq_nat s 68 then none else some path;
}

abbrev pub two_paths : ℕ → String → String → Change
two_paths s old new = record { status = s; old_path = some old; new_path = some new }

module _ (utf8 : Bytes → Option String) where
  -- The record behind a status, and how many tokens it takes.
  unfoldable pub paths_behind : ℕ → List Bytes → Result (Change × ℕ)
  paths_behind s [] = err policy_error
  paths_behind s (p ∷ []) =
      if has_two_paths s
      then err policy_error
      else (expect (utf8 p) value_error >>= λ path. ok (one_path s path, 1))
  paths_behind s (p ∷ q ∷ _) = expect (utf8 p) value_error >>= λ path.
      (if has_two_paths s
        then (expect (utf8 q) value_error >>= λ new. ok (two_paths s path new, 2))
        else ok (one_path s path, 1))

  -- The records of the tokens, where so many are skipped.
  unfoldable pub records : ℕ → List Bytes → Result (List Change)
  unfolding paths_behind status_of
  records n [] = ok []
  records (suc n) (t ∷ tokens) = records n tokens
  records zero (t ∷ tokens) = status_of t >>= λ s.
      paths_behind s tokens >>= λ r. records r.1 tokens >>= λ rest. ok (r.0 ∷ rest)

  -- The bytes are cut at each zero.
  unfoldable pub parse_name_status : Bytes → Result (List Change)
  unfolding records
  parse_name_status stream = records 0 (without_empty_end (split_bytes 0 stream))
