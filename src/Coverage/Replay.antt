-- ===== src/Coverage/Replay.antt =====
-- The replay of hunks on the old blob in `parse_zero_context_diff` of
-- scripts/quality/verify_coverage.py.
pub mod Edits
use gas_station.Base.{
  ℕ, zero, suc, ◌+◌, ◌-◌, Bool, true, false, ◌&&◌, Option, none, some, List, [], ◌∷◌, ◌++◌, eq_nat,
  leb, drop, take, length, if◌then◌else◌,
}
use gas_station.Coverage.Outcome.{Result, ok, ◌>>=◌, ◌>>◌, policy_error, require, expect}
use gas_station.Coverage.Bytes.{Bytes, lines_eq, ends_with, split_bytes, without_last}
use gas_station.Coverage.Sections.{Hunk}

-- The index of the first line of a range: `start` for an empty one, else `start - 1`, `none` where
-- that is below 0.
abbrev pub index_of : ℕ → ℕ → Option ℕ
index_of start zero = some start
index_of zero (suc count) = none
index_of (suc start) (suc count) = some start

-- The lines of a blob, without the piece behind a final line feed.
abbrev pub blob_lines : Bytes → List Bytes
blob_lines [] = []
blob_lines (x ∷ xs) =
    if ends_with (x ∷ xs) 10
    then without_last (split_bytes 10 (x ∷ xs))
    else split_bytes 10 (x ∷ xs)

module _ (old : List Bytes) where
  -- The lines that are rebuilt when the hunk is applied, where all before `cursor` is done.
  abbrev pub kept : ℕ → ℕ → List Bytes
  kept cursor old_index = take (old_index - cursor) (drop cursor old)

  abbrev pub old_matches : ℕ → ℕ → Hunk → Bool
  old_matches cursor old_index h =
      leb old_index (length old)
      && leb cursor old_index
      && lines_eq (take h.old_count (drop old_index old)) h.removed

  module _ (new : List Bytes) where
    unfoldable pub replay : ℕ → List Bytes → List Hunk → Result (Unit {0})
    replay cursor rebuilt [] = require (lines_eq (rebuilt ++ drop cursor old) new)
    replay cursor rebuilt (h ∷ hs) =
        expect (index_of h.old_start h.old_count) policy_error >>= λ old_index.
        require (old_matches cursor old_index h)
        >> (expect (index_of h.new_start h.new_count) policy_error >>= λ new_index.
            require (
              leb new_index (length new)
              && eq_nat new_index (length (rebuilt ++ kept cursor old_index)))
            >> replay (old_index + h.old_count) ((rebuilt ++ kept cursor old_index) ++ h.added) hs)

-- The replay for one path: the old blob, the new blob, its hunks.
unfoldable pub check_blobs : Bytes → Bytes → List Hunk → Result (Unit {0})
unfolding replay
check_blobs old_bytes new_bytes hs = replay (blob_lines old_bytes) (blob_lines new_bytes) 0 [] hs
