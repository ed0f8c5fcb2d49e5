-- ===== src/Coverage/Statuses.antt =====
-- The name-status records that `parse_zero_context_diff` of scripts/quality/verify_coverage.py
-- reads.
use gas_station.Base.{
  ℕ, zero, suc, String, Bool, true, false, not, ◌&&◌, ◌||◌, Option, none, some, List, [], ◌∷◌, ◌++◌,
  if◌then◌else◌, ◌==◌, eq_nat, leb, ltb, any, all, length,
}
use gas_station.Coverage.Outcome.{Result, ok, err, ◌>>=◌, ◌>>◌, policy_error, require}
use gas_station.Coverage.Bytes.{Bytes, decimal, is_digit, ends_with, split_bytes}
use gas_station.Coverage.Paths.{decode_path}

-- The set of the new lines is a list of its members.
pub record ChangedFile : Type 0 where
  pub status : ℕ
  pub old_path : Option String
  pub new_path : String
  pub new_lines : List ℕ
  pub hunk_count : ℕ

-- A dictionary, in the order of its keys' insertion.
abbrev pub Changes : Type 0
Changes = List (String × ChangedFile)

unfoldable pub find {ℓ} : {A : Type ℓ} → String → List (String × A) → Option A
find key [] = none
find key ((k, a) ∷ rest) = if k == key then some a else find key rest

abbrev pub is_there : String → Changes → Bool
is_there key changes = elim (find key changes) [ none ↦ false | some _ ↦ true ]

-- `status in {"R", "C"}`
abbrev pub is_rename : ℕ → Bool
is_rename s = eq_nat s 82 || eq_nat s 67

-- `status_token in {"A", "M"}` or `[RC][0-9]{1,3}`
abbrev pub is_status : ℕ → Bytes → Bool
is_status s [] = eq_nat s 65 || eq_nat s 77
is_status s (d ∷ ds) = is_rename s && leb (length ds) 2 && all is_digit (d ∷ ds)

abbrev pub check_status : ℕ → Bytes → Result (Unit {0})
check_status s score =
    require (all (λ x. ltb x 128) (s ∷ score))
    >> (require (is_status s score) >> require (not (is_rename s) || leb (decimal score) 100))

abbrev is_empty : Bytes → Bool
is_empty [] = true
is_empty (x ∷ xs) = false

abbrev new_file : ℕ → Option String → String → ChangedFile
new_file s old new = record {
  status = s;
  old_path = old;
  new_path = new;
  new_lines = [];
  hunk_count = 0;
}

-- The file of a status that names one path.
abbrev plain_file : ℕ → String → ChangedFile
plain_file s path = new_file s (if eq_nat s 65 then none else some path) path

module _ (utf8 : Bytes → Option String) where
  -- The paths behind a status, and how many parts they are.
  unfoldable pub status_paths : ℕ → List Bytes → Result (ChangedFile × ℕ)
  unfolding decode_path
  status_paths s [] = err policy_error
  status_paths s (p ∷ []) =
      if is_rename s
      then err policy_error
      else (decode_path utf8 p >>= λ path. ok (plain_file s path, 1))
  status_paths s (p ∷ q ∷ _) = decode_path utf8 p >>= λ path.
      (if is_rename s
        then (decode_path utf8 q >>= λ new. ok (new_file s (some path) new, 2))
        else ok (plain_file s path, 1))

  -- The records of the parts, where so many are skipped.
  unfoldable pub status_records : ℕ → List Bytes → Changes → Result Changes
  unfolding status_paths find all any
  status_records n [] changes = ok changes
  status_records (suc n) (p ∷ parts) changes = status_records n parts changes
  status_records zero ([] ∷ parts) changes =
      require (not (any (λ p. not (is_empty p)) parts)) >> ok changes
  status_records zero ((s ∷ score) ∷ parts) changes =
      check_status s score
      >> (status_paths s parts >>= λ r.
          require (not (is_there r.0.new_path changes))
          >> status_records r.1 parts (changes ++ (r.0.new_path, r.0) ∷ []))

  unfoldable pub name_status : Bytes → Result Changes
  unfolding status_records
  name_status stream =
      require (is_empty stream || ends_with stream 0) >> status_records 0 (split_bytes 0 stream) []
