-- ===== src/Pitest/NameStatus/RoundTrip.antt =====
-- Streams of written records, for `parse_name_status` of scripts/quality/verify_pitest.py.
use gas_station.Base.{
  none, ◌≢◌, ◌∙◌, arith, ℕ, String, Bool, true, false, not, ◌&&◌, Option, some, List, [], ◌∷◌, ◌++◌,
  ◌≡◌, refl, ap, map, eq_nat, ltb, all, All,
}
use gas_station.Coverage.Outcome.{ok}
use gas_station.Coverage.Bytes.{Bytes, split_bytes, split_bytes_pair}
use gas_station.Mutation.Routing.{Change}
use gas_station.Pitest.NameStatus.{
  without_empty_end, status_of, has_two_paths, one_path, two_paths, paths_behind, records,
  parse_name_status,
}

-- What git writes a record for, with what stands behind the letter of its status: a path that is
-- added, deleted or changed in another way, or one that is renamed or copied to another.
pub data Entry : Type 0 where
  added deleted : Bytes → String → Entry
  modified : ℕ → Bytes → String → Entry
  renamed copied : Bytes → String → String → Entry

-- The letters A, D, R and C, and the paths before and after.
abbrev pub change_of : Entry → Change
change_of (added score path) = record { status = 65; old_path = none; new_path = some path }
change_of (deleted score path) = record { status = 68; old_path = some path; new_path = none }
change_of (modified s score path) = record {
  status = s;
  old_path = some path;
  new_path = some path;
}
change_of (renamed score old new) = record { status = 82; old_path = some old; new_path = some new }
change_of (copied score old new) = record { status = 67; old_path = some old; new_path = some new }

-- Each token with a zero behind it.
abbrev pub write_tokens : List Bytes → Bytes
write_tokens [] = []
write_tokens (t ∷ tokens) = t ++ 0 ∷ write_tokens tokens

abbrev pub zero_free : Bytes → Bool
zero_free [] = true
zero_free (x ∷ xs) = not (eq_nat x 0) && zero_free xs

split_bytes_pair-append :
    (t rest : Bytes)
    → zero_free t ≡ true
    → split_bytes_pair 0 (t ++ 0 ∷ rest) ≡ (t, split_bytes 0 rest)
split_bytes_pair-append [] rest h = refl
split_bytes_pair-append (x ∷ xs) rest h =
    let (plain, rest_plain) = both (eq_nat x 0) (zero_free xs) h in
    rw (plain, split_bytes_pair-append xs rest rest_plain) refl
  where
    both : (b c : Bool) → (not b && c) ≡ true → (b ≡ false) × (c ≡ true)
    both true c e = cc
    both false c e = (refl, e)

split_bytes-write_tokens :
    (tokens : List Bytes)
    → All (λ t. zero_free t ≡ true) tokens
    → split_bytes 0 (write_tokens tokens) ≡ tokens ++ [] ∷ []
split_bytes-write_tokens [] h = refl
split_bytes-write_tokens (t ∷ tokens) h =
    rw (split_bytes_pair-append t (write_tokens tokens) h.0)
      (ap (λ ts. t ∷ ts) (split_bytes-write_tokens tokens h.1))

without_empty_end-append : (tokens : List Bytes) → without_empty_end (tokens ++ [] ∷ []) ≡ tokens
without_empty_end-append [] = refl
without_empty_end-append (t ∷ []) = refl
without_empty_end-append (t ∷ u ∷ tokens) =
    ap (λ ts. t ∷ ts) (without_empty_end-append (u ∷ tokens))

module _ (utf8 : Bytes → Option String) (encode : String → Bytes) where
  abbrev tokens_of : List Entry → List Bytes
  tokens_of [] = []
  tokens_of (added score path ∷ entries) = (65 ∷ score) ∷ encode path ∷ tokens_of entries
  tokens_of (deleted score path ∷ entries) = (68 ∷ score) ∷ encode path ∷ tokens_of entries
  tokens_of (modified s score path ∷ entries) = (s ∷ score) ∷ encode path ∷ tokens_of entries
  tokens_of (renamed score old new ∷ entries) =
      (82 ∷ score) ∷ encode old ∷ encode new ∷ tokens_of entries
  tokens_of (copied score old new ∷ entries) =
      (67 ∷ score) ∷ encode old ∷ encode new ∷ tokens_of entries

  abbrev pub write_entries : List Entry → Bytes
  write_entries entries = write_tokens (tokens_of entries)

  -- A path that is read back, with no zero in it.
  abbrev pub IsWritable : String → Type 0
  IsWritable path = (utf8 (encode path) ≡ some path) × (zero_free (encode path) ≡ true)

  abbrev pub IsStatus : ℕ → Bytes → Type 0
  IsStatus s score = (all (λ x. ltb x 128) (s ∷ score) ≡ true) × (zero_free (s ∷ score) ≡ true)

  -- The letter of another change is none of the four.
  abbrev pub IsEntry : Entry → Type 0
  IsEntry (added score path) = IsStatus 65 score × IsWritable path
  IsEntry (deleted score path) = IsStatus 68 score × IsWritable path
  IsEntry (modified s score path) =
      ((s ≢ 65) × (s ≢ 68) × (s ≢ 82) × (s ≢ 67)) × IsStatus s score × IsWritable path
  IsEntry (renamed score old new) = IsStatus 82 score × IsWritable old × IsWritable new
  IsEntry (copied score old new) = IsStatus 67 score × IsWritable old × IsWritable new

  tokens_of-All :
      (entries : List Entry)
      → All IsEntry entries
      → All (λ t. zero_free t ≡ true) (tokens_of entries)
  tokens_of-All [] h = tt
  tokens_of-All (added score path ∷ entries) ((status, one), h) =
      (status.1, (one.1, tokens_of-All entries h))
  tokens_of-All (deleted score path ∷ entries) ((status, one), h) =
      (status.1, (one.1, tokens_of-All entries h))
  tokens_of-All (modified s score path ∷ entries) ((letter, status, one), h) =
      (status.1, (one.1, tokens_of-All entries h))
  tokens_of-All (renamed score old new ∷ entries) ((status, one, other), h) =
      (status.1, (one.1, (other.1, tokens_of-All entries h)))
  tokens_of-All (copied score old new ∷ entries) ((status, one, other), h) =
      (status.1, (one.1, (other.1, tokens_of-All entries h)))

  status_of-ok :
      (s : ℕ) (score : Bytes)
      → all (λ x. ltb x 128) (s ∷ score) ≡ true
      → status_of (s ∷ score) ≡ ok s
  unfolding status_of
  status_of-ok s score h = rw (status_of, h) refl

  paths_behind-single :
      (s : ℕ) (path : String) (rest : List Bytes)
      → has_two_paths s ≡ false
      → utf8 (encode path) ≡ some path
      → paths_behind utf8 s (encode path ∷ rest) ≡ ok (one_path s path, 1)
  unfolding paths_behind
  paths_behind-single s path [] h e = rw (h, e) refl
  paths_behind-single s path (q ∷ rest) h e = rw (h, e) refl

  paths_behind-double :
      (s : ℕ) (old new : String) (rest : List Bytes)
      → has_two_paths s ≡ true
      → utf8 (encode old) ≡ some old
      → utf8 (encode new) ≡ some new
      → paths_behind utf8 s (encode old ∷ encode new ∷ rest) ≡ ok (two_paths s old new, 2)
  unfolding paths_behind
  paths_behind-double s old new rest h e f = rw (h, e, f) refl

  single-records :
      (s : ℕ) (score : Bytes) (path : String) (tokens : List Bytes) (changes : List Change)
      → has_two_paths s ≡ false
      → IsStatus s score
      → IsWritable path
      → records utf8 0 tokens ≡ ok changes
      → records utf8 0 ((s ∷ score) ∷ encode path ∷ tokens) ≡ ok (one_path s path ∷ changes)
  unfolding records
  single-records s score path tokens changes one_only status one rest =
      rw (status_of-ok s score status.0, paths_behind-single s path tokens one_only one.0, rest)
        refl

  double-records :
      (s : ℕ) (score : Bytes) (old new : String) (tokens : List Bytes) (changes : List Change)
      → has_two_paths s ≡ true
      → IsStatus s score
      → IsWritable old
      → IsWritable new
      → records utf8 0 tokens ≡ ok changes
      → records utf8 0 ((s ∷ score) ∷ encode old ∷ encode new ∷ tokens)
        ≡ ok (two_paths s old new ∷ changes)
  unfolding records
  double-records s score old new tokens changes two status one other rest =
      rw
        (
          status_of-ok s score status.0,
          paths_behind-double s old new tokens two one.0 other.0,
          rest,
        )
        refl

  modified-letter :
      (s : ℕ)
      → (s ≢ 65) × (s ≢ 68) × (s ≢ 82) × (s ≢ 67)
      → (eq_nat s 65 ≡ false) × (eq_nat s 68 ≡ false) × (has_two_paths s ≡ false)
  modified-letter s (a, d, r, c) = (ground (arith, a), ground (arith, d), ground (arith, r, c))

  records-tokens_of :
      (entries : List Entry)
      → All IsEntry entries
      → records utf8 0 (tokens_of entries) ≡ ok (map change_of entries)
  unfolding records
  records-tokens_of [] h = refl
  records-tokens_of (added score path ∷ entries) ((status, one), h) =
      single-records 65 score path _ _ refl status one (records-tokens_of entries h)
  records-tokens_of (deleted score path ∷ entries) ((status, one), h) =
      single-records 68 score path _ _ refl status one (records-tokens_of entries h)
  records-tokens_of (modified s score path ∷ entries) ((letter, status, one), h) =
      let (not_added, not_deleted, one_only) = modified-letter s letter in
      single-records s score path _ _ one_only status one (records-tokens_of entries h)
      ∙ rw (not_added, not_deleted) refl
  records-tokens_of (renamed score old new ∷ entries) ((status, one, other), h) =
      double-records 82 score old new _ _ refl status one other (records-tokens_of entries h)
  records-tokens_of (copied score old new ∷ entries) ((status, one, other), h) =
      double-records 67 score old new _ _ refl status one other (records-tokens_of entries h)

  -- Paths that are added, deleted, changed, renamed or copied are read back, each with its letter
  -- and the paths before and after, from the stream of their records, where statuses and scores are
  -- ASCII and paths are read back, and none of these holds a zero.
  pub parse_name_status-write :
      (entries : List Entry)
      → All IsEntry entries
      → parse_name_status utf8 (write_entries entries) ≡ ok (map change_of entries)
  unfolding parse_name_status
  parse_name_status-write entries h =
      rw
        (
          split_bytes-write_tokens (tokens_of entries) (tokens_of-All entries h),
          without_empty_end-append (tokens_of entries),
        )
        (records-tokens_of entries h)
