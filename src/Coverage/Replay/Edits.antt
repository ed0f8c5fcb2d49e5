-- ===== src/Coverage/Replay/Edits.antt =====
-- The replay against a description of edits by hunks, for
-- scripts/quality/verify_coverage.py.
use mathlib.Core.List.{append_assoc}
use gas_station.Base.{
  ℕ, ◌+◌, ◌-◌, ◌≤◌, Bool, true, false, ◌&&◌, some, List, [], ◌∷◌, ◌++◌, ◌≡◌, refl, sym, ap, ◌∙◌,
  ◌↔◌, arith, eq_nat, leb, drop, take, length, length-append, All,
}
use gas_station.Coverage.Outcome.{ok, policy_error, require, require-eq-ok, expect-eq-ok}
use gas_station.Coverage.Bytes.{Bytes, lines_eq, lines_eq-eq, lines_eq_refl}
use gas_station.Coverage.Slices.{
  take-drop, drop-drop, length-take, length-drop, length-take_le, drop-append, take-append,
}
use gas_station.Coverage.Sections.{Hunk}
use gas_station.Coverage.Sections.Counted.{IsCounted}
use gas_station.Coverage.Replay.{index_of, kept, old_matches, replay, blob_lines, check_blobs}

-- Edits by hunks turn lines into new ones: what stands before a hunk is the same in both, its
-- removed lines stand in the old ones only and its added lines in the new ones only, at the places
-- that its ranges name. `o` and `n` count the lines before these.
abbrev pub Edits : List Hunk → ℕ → ℕ → List Bytes → List Bytes → Type 0
Edits [] o n old new = old ≡ new
Edits (h ∷ hs) o n old new =
    (same : List Bytes) × (old' : List Bytes) × (new' : List Bytes) × (old
      ≡ same ++ (h.removed ++ old'))
    × (new ≡ same ++ (h.added ++ new'))
    × (index_of h.old_start h.old_count ≡ some (o + length same))
    × (index_of h.new_start h.new_count ≡ some (n + length same))
    × Edits hs (o + length same + length h.removed) (n + length same + length h.added) old' new'

-- A hunk that matches: the old lines from `cursor` are the lines kept, those removed, and the rest.
record Match (old : List Bytes) (cursor i : ℕ) (h : Hunk) : Type 0 where
  reached : cursor ≤ i
  inside : i + length h.removed ≤ length old
  count : length (kept old cursor i) ≡ i - cursor
  parts : drop cursor old ≡ kept old cursor i ++ (h.removed ++ drop (i + h.old_count) old)

old_matches-Match :
    (old : List Bytes) (cursor i : ℕ) (h : Hunk)
    → IsCounted h
    → old_matches old cursor i h ≡ true
    → Match old cursor i h
old_matches-Match old cursor i h c e =
    let all3 : (i ≤ length old)
        × (cursor ≤ i)
        × (lines_eq (take h.old_count (drop i old)) h.removed ≡ true) =
      ground (arith, e) in
    let (low, reach, same) = all3 in
    let taken : take h.old_count (drop i old) ≡ h.removed = lines_eq-eq _ _ same in
    let rest : drop i old ≡ h.removed ++ drop (i + h.old_count) old =
      take-drop h.old_count (drop i old)
      ∙ (ap (λ t. t ++ drop h.old_count (drop i old)) taken
          ∙ ap (λ t. h.removed ++ t) (drop-drop h.old_count i old refl)) in
    record {
      reached = reach;
      inside = omega (
        arith,
        low,
        length-drop i old,
        length-take_le h.old_count (drop i old),
        ap length taken,
        c,
      );
      count =
          length-take (i - cursor) (drop cursor old)
            (omega (arith, low, reach, length-drop cursor old));
      parts =
          take-drop (i - cursor) (drop cursor old)
          ∙ ap (λ t. kept old cursor i ++ t)
              (drop-drop (i - cursor) cursor old {k = i} (omega (arith, reach)) ∙ rest);
    }

-- Appended parts, parted anew.
regroup : (a b c d : List Bytes) → ((a ++ b) ++ c) ++ d ≡ a ++ (b ++ (c ++ d))
regroup a b c d = append_assoc (a ++ b) c d ∙ append_assoc a b (c ++ d)

require-true : (t : Bool) {u : Unit {0}} → require t ≡ ok u → t ≡ true
require-true true e = refl
require-true false e = cc

replay-from :
    (old new : List Bytes) (cursor : ℕ) (rebuilt : List Bytes) (hs : List Hunk)
    → All IsCounted hs
    → replay old new cursor rebuilt hs ≡ ok tt
    → (rest : List Bytes) × (new ≡ rebuilt ++ rest)
      × Edits hs cursor (length rebuilt) (drop cursor old) rest
unfolding replay
replay-from old new cursor rebuilt [] c e =
    let same = lines_eq-eq (rebuilt ++ drop cursor old) new (require-true _ e) in
    (drop cursor old, sym same, refl)
replay-from old new cursor rebuilt (h ∷ hs) c e =
    let (i, index, e1) = expect-eq-ok (index_of h.old_start h.old_count) policy_error _ e in
    let (same, e2) = require-eq-ok (old_matches old cursor i h) _ e1 in
    let (k, new_index, e3) = expect-eq-ok (index_of h.new_start h.new_count) policy_error _ e2 in
    let (place, e4) =
      require-eq-ok (leb k (length new) && eq_nat k (length (rebuilt ++ kept old cursor i)))
        (replay old new (i + h.old_count) ((rebuilt ++ kept old cursor i) ++ h.added) hs) e3 in
    let m : Match old cursor i h = old_matches-Match old cursor i h c.0 same in
    let same_lines = kept old cursor i in
    let (rest, new_is, edits) =
      replay-from old new (i + h.old_count) ((rebuilt ++ same_lines) ++ h.added) hs c.1 e4 in
    let at_old : i ≡ cursor + length same_lines = omega (arith, m.reached, m.count) in
    let at_new : k ≡ length rebuilt + length same_lines =
      ground (arith, place, length-append rebuilt same_lines) in
    let old_end : i + h.old_count ≡ cursor + length same_lines + length h.removed =
      omega (arith, at_old, c.0) in
    let new_end : length ((rebuilt ++ same_lines) ++ h.added)
        ≡ length rebuilt + length same_lines + length h.added =
      omega
        (arith, length-append (rebuilt ++ same_lines) h.added, length-append rebuilt same_lines) in
    (
      same_lines ++ (h.added ++ rest),
      new_is ∙ regroup rebuilt same_lines h.added rest,
      (
        same_lines,
        drop (i + h.old_count) old,
        rest,
        m.parts,
        refl,
        index ∙ ap some at_old,
        new_index ∙ ap some at_new,
        rw (← old_end, ← new_end) edits,
      ),
    )

lines_eq-of_eq : (xs ys : List Bytes) → xs ≡ ys → lines_eq xs ys ≡ true
lines_eq-of_eq xs ys e = rw (← e) (lines_eq_refl xs)

-- Where the old lines from `cursor` start with `same` and the removed lines, the hunk matches.
Match-of_parts :
    (old : List Bytes) (cursor : ℕ) (h : Hunk) (same old' : List Bytes)
    → IsCounted h
    → cursor ≤ length old
    → drop cursor old ≡ same ++ (h.removed ++ old')
    → (old_matches old cursor (cursor + length same) h ≡ true)
      × (kept old cursor (cursor + length same) ≡ same)
      × (drop (cursor + length same + h.old_count) old ≡ old')
      × (cursor + length same + h.old_count ≤ length old)
Match-of_parts old cursor h same old' c low parts =
    let i = cursor + length same in
    let behind : drop i old ≡ h.removed ++ old' =
      sym (drop-drop (length same) cursor old refl)
      ∙ (ap (λ t. drop (length same) t) parts ∙ drop-append same (h.removed ++ old') refl) in
    let sizes : length old - cursor ≡ length same + (length h.removed + length old') = omega (
      arith,
      length-drop cursor old,
      ap length parts,
      length-append same (h.removed ++ old'),
      length-append h.removed old',
    ) in
    let taken : lines_eq (take h.old_count (drop i old)) h.removed ≡ true =
      lines_eq-of_eq _ _
        (ap (λ t. take h.old_count t) behind ∙ take-append h.removed old' (sym c)) in
    (
      ground (arith, sizes, low, taken),
      ap (λ t. take (i - cursor) t) parts ∙ take-append same (h.removed ++ old') (omega arith),
      sym (drop-drop h.old_count i old refl)
          ∙ (ap (λ t. drop h.old_count t) behind ∙ drop-append h.removed old' (sym c)),
      omega (arith, sizes, low, c),
    )

Edits-replay :
    (old new : List Bytes) (cursor : ℕ) (rebuilt : List Bytes) (hs : List Hunk) (rest : List Bytes)
    → All IsCounted hs
    → cursor ≤ length old
    → new ≡ rebuilt ++ rest
    → Edits hs cursor (length rebuilt) (drop cursor old) rest
    → replay old new cursor rebuilt hs ≡ ok tt
unfolding replay
Edits-replay old new cursor rebuilt [] rest c low e edits =
    rw (lines_eq-of_eq _ _ (ap (λ t. rebuilt ++ t) edits ∙ sym e)) refl
Edits-replay old new cursor rebuilt (h ∷ hs) rest c low e edits =
    let (same, old', new', old_is, new_is, index, new_index, more) = edits in
    let (matches, kept_is, behind, inside) = Match-of_parts old cursor h same old' c.0 low old_is in
    let i = cursor + length same in
    let rebuilt' = (rebuilt ++ kept old cursor i) ++ h.added in
    let place : length (rebuilt ++ kept old cursor i) ≡ length rebuilt + length same =
      omega (arith, length-append rebuilt (kept old cursor i), ap length kept_is) in
    let new_size : length new ≡ length rebuilt + (length same + length (h.added ++ new')) = omega (
      arith,
      ap length e,
      length-append rebuilt rest,
      ap length new_is,
      length-append same (h.added ++ new'),
    ) in
    let fits : (leb (length rebuilt + length same) (length new)
          && eq_nat (length rebuilt + length same) (length (rebuilt ++ kept old cursor i)))
        ≡ true =
      ground (arith, place, new_size) in
    let new_parts : new ≡ rebuilt' ++ new' =
      e
      ∙ (ap (λ t. rebuilt ++ t) (new_is ∙ ap (λ t. t ++ (h.added ++ new')) (sym kept_is))
          ∙ sym (regroup rebuilt (kept old cursor i) h.added new')) in
    let old_end : cursor + length same + length h.removed ≡ i + h.old_count = omega (arith, c.0) in
    let new_end : length rebuilt + length same + length h.added ≡ length rebuilt' =
      omega (arith, place, length-append (rebuilt ++ kept old cursor i) h.added) in
    rw (index, matches, new_index, fits)
      (Edits-replay old new (i + h.old_count) rebuilt' hs new' c.1 inside new_parts
        (rw behind (rw (old_end, new_end) at more)))

-- For hunks whose removed lines are as many as the header counts, the replay accepts two blobs
-- exactly when the lines of the new one come from the lines of the old one by the hunks' edits.
pub check_blobs-Edits :
    (old new : Bytes) (hs : List Hunk)
    → All IsCounted hs
    → (check_blobs old new hs ≡ ok tt) ↔ Edits hs 0 0 (blob_lines old) (blob_lines new)
unfolding check_blobs
check_blobs-Edits old new hs c = (
  λ e.
      let (rest, new_is, edits) = replay-from (blob_lines old) (blob_lines new) 0 [] hs c e in
      rw new_is edits,
  λ edits.
      Edits-replay (blob_lines old) (blob_lines new) 0 [] hs (blob_lines new) c (omega arith) refl
        edits,
)
