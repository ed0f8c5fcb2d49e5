-- ===== src/Guard/Brace/Sequence.antt =====
-- `sequence_alternatives` of scripts/agent/pre_tool_policy.py: the values of `{a..b}` and `{a..b..s}`.
use Prim.Native.Nat.{◌/◌, ◌%◌, max}
use gas_station.Base.{
  ℕ, zero, suc, ◌+◌, ◌-◌, ◌*◌, Char, code, String, ◌<>◌, Bool, true, false, ◌&&◌, ◌||◌, Option,
  none, some, List, [], ◌∷◌, if◌then◌else◌, ltb, leb, map, size, starts_with, lstrip, split,
  suffix_from,
}
use gas_station.Guard.Host.{Host}

-- `negsuc n` is -(n + 1).
pub data ℤ : Type 0 where
  pos : ℕ → ℤ
  negsuc : ℕ → ℤ

abbrev sub_ℕ : ℕ → ℕ → ℤ
sub_ℕ a b = if leb b a then pos (a - b) else negsuc (b - a - 1)

abbrev negated : Bool → ℕ → ℤ
negated false n = pos n
negated true zero = pos 0
negated true (suc n) = negsuc n

-- `value + k` and `value - k`
unfoldable pub moved : Bool → ℕ → ℤ → ℤ
moved true k (pos n) = pos (n + k)
moved true k (negsuc n) = sub_ℕ k (n + 1)
moved false k (pos n) = sub_ℕ n k
moved false k (negsuc n) = negsuc (n + k)

-- `abs(b - a)`
unfoldable pub distance : ℤ → ℤ → ℕ
distance (pos a) (pos b) = if leb a b then b - a else a - b
distance (pos a) (negsuc b) = a + b + 1
distance (negsuc a) (pos b) = a + b + 1
distance (negsuc a) (negsuc b) = if leb a b then b - a else a - b

-- `b >= a`
unfoldable pub at_least : ℤ → ℤ → Bool
at_least (pos a) (pos b) = leb a b
at_least (pos a) (negsuc b) = false
at_least (negsuc a) (pos b) = true
at_least (negsuc a) (negsuc b) = leb b a

abbrev pub digit_char : ℕ → String
digit_char zero = "0"
digit_char (suc zero) = "1"
digit_char (suc (suc zero)) = "2"
digit_char (suc (suc (suc zero))) = "3"
digit_char (suc (suc (suc (suc zero)))) = "4"
digit_char (suc (suc (suc (suc (suc zero))))) = "5"
digit_char (suc (suc (suc (suc (suc (suc zero)))))) = "6"
digit_char (suc (suc (suc (suc (suc (suc (suc zero))))))) = "7"
digit_char (suc (suc (suc (suc (suc (suc (suc (suc zero)))))))) = "8"
digit_char _ = "9"

-- The digits of a number before the ones that are there; `n + 1` rounds are enough for `n`.
unfoldable pub digits_onto : ℕ → ℕ → String → String
digits_onto zero n acc = acc
digits_onto (suc fuel) n acc =
    let longer = digit_char (n % 10) <> acc in
    let rest = digits_onto fuel (n / 10) longer in if ltb n 10 then longer else rest

unfoldable pub decimal : ℕ → String
unfolding digits_onto
decimal n = digits_onto (suc n) n ""

unfoldable pub zeros : ℕ → String
zeros zero = ""
zeros (suc n) = "0" <> zeros n

abbrev pub magnitude : ℤ → ℕ
magnitude (pos n) = n
magnitude (negsuc n) = suc n

abbrev pub sign : ℤ → String
sign (pos n) = ""
sign (negsuc n) = "-"

-- The formatter: padded to the width, or `str(value)`.
unfoldable pub format : Bool → ℕ → ℤ → String
unfolding decimal zeros size
format padded width v =
    let shown = decimal (magnitude v) in
    sign v <> (if padded then zeros (width - size shown) <> shown else shown)

-- The characters from "A" to "z".
abbrev pub letters : String
letters = "ABCDEFGHIJKLMNOPQRSTUVWXYZ[\\]^_`abcdefghijklmnopqrstuvwxyz"

abbrev pub first_char : String → String
first_char String.[] = String.[]
first_char (String.◌∷◌ c s) = String.◌∷◌ c String.[]

-- `chr` of a value between "A" and "z"
unfoldable pub letter_of : ℤ → String
unfolding suffix_from
letter_of (pos n) = first_char (suffix_from (n - 65) letters)
letter_of (negsuc n) = ""

-- An integer literal: `none` where the text is none, `too_long` for the `ValueError` of `int`.
pub data Literal : Type 0 where
  no_literal too_long : Literal
  literal : ℤ → Literal

abbrev pub is_letter : String → Option ℤ
is_letter (String.◌∷◌ c String.[]) =
    let n = code c in
    if (leb 65 n && leb n 90) || (leb 97 n && leb n 122) then some (pos n) else none
is_letter _ = none

-- No sequence, an invalid one, or its values.
pub data Sequence : Type 0 where
  no_sequence invalid : Sequence
  values : List String → Sequence

-- The number of rounds left, the round, the step and the direction of `range`.
unfoldable pub range_values : ℕ → ℕ → ℕ → Bool → ℤ → List ℤ
unfolding moved
range_values zero i step up start = []
range_values (suc n) i step up start =
    moved up (i * step) start ∷ range_values n (i + 1) step up start

unfoldable pub enumerate : (ℤ → String) → ℤ → ℤ → ℕ → Sequence
unfolding distance at_least range_values
enumerate formatter start end zero = invalid
enumerate formatter start end (suc k) =
    let count = distance start end / suc k + 1 in
    if ltb 64 count
    then invalid
    else values (map formatter (range_values count 0 (suc k) (at_least start end) start))

-- `len(value.lstrip("-")) > 1 and value.lstrip("-").startswith("0")`
abbrev has_leading_zero : String → Bool
has_leading_zero t = ltb 1 (size (lstrip "-" t)) && starts_with (lstrip "-" t) "0"

unfoldable pub has_dots : String → Bool
unfolding starts_with
has_dots String.[] = false
has_dots (String.◌∷◌ c s) = starts_with (String.◌∷◌ c s) ".." || has_dots s

-- `(None, True) if ".." in contents else (None, False)`
unfoldable pub no_match : String → Sequence
unfolding has_dots
no_match contents = if has_dots contents then invalid else no_sequence

module _ (host : Host) where
  unfoldable pub digit_value : Char → Option ℕ
  digit_value c =
      let n = code c in
      if leb 48 n && leb n 57
      then some (n - 48)
      else if ltb n 128
      then none
      else host.unicode_digit c

  -- The value of the digits, if there is nothing else.
  unfoldable pub digits_value : ℕ → String → Option ℕ
  unfolding digit_value
  digits_value acc String.[] = some acc
  digits_value acc (String.◌∷◌ c s) = elim (digit_value c) [
    | none ↦ none
    | some d ↦ digits_value (acc * 10 + d) s
  ]

  unfoldable pub unsigned : Bool → String → Literal
  unfolding digits_value size
  unsigned minus String.[] = no_literal
  unsigned minus (String.◌∷◌ c s) = elim (digits_value 0 (String.◌∷◌ c s)) [
    | none ↦ no_literal
    | some n ↦ if ltb 4300 (size (String.◌∷◌ c s)) then too_long else literal (negated minus n)
  ]

  -- `-?\d+` and `int`
  unfoldable pub integer : String → Literal
  unfolding unsigned starts_with suffix_from
  integer t = if starts_with t "-" then unsigned true (suffix_from 1 t) else unsigned false t

  -- `abs(int(step_text)) if step_text is not None else 1`
  unfoldable pub step_of : Option String → Literal
  unfolding integer
  step_of none = literal (pos 1)
  step_of (some t) = elim (integer t) [
    | no_literal ↦ no_literal
    | too_long ↦ too_long
    | literal n ↦ literal (pos (magnitude n))
  ]

  -- The three numbers of a match, read from left to right.
  unfoldable pub numbers : (ℤ → String) → Literal → Literal → Literal → Sequence
  unfolding enumerate
  numbers formatter (literal a) (literal b) (literal (pos k)) = enumerate formatter a b k
  numbers formatter _ _ _ = invalid

  abbrev pub is_matched : Literal → Bool
  is_matched no_literal = false
  is_matched _ = true

  abbrev pub numeric_format : String → String → ℤ → String
  numeric_format a b =
      format (has_leading_zero a || has_leading_zero b)
        (max (size (lstrip "-" a)) (size (lstrip "-" b)))

  abbrev pub letters_sequence : Option ℤ → Option ℤ → Literal → String → Sequence
  letters_sequence (some a) (some b) (literal (pos k)) contents = enumerate letter_of a b k
  letters_sequence (some a) (some b) too_long contents = invalid
  letters_sequence _ _ _ contents = no_match contents

  unfoldable pub matched : String → String → Option String → String → Sequence
  unfolding integer step_of numbers enumerate format lstrip size starts_with letter_of no_match
  matched a b step contents =
      if is_matched (integer a) && is_matched (integer b) && is_matched (step_of step)
      then numbers (numeric_format a b) (integer a) (integer b) (step_of step)
      else letters_sequence (is_letter a) (is_letter b) (step_of step) contents

  -- The two patterns have no "." beside the dots between their numbers or letters.
  unfoldable pub of_parts : List String → String → Sequence
  unfolding matched no_match
  of_parts (a ∷ String.[] ∷ b ∷ []) contents = matched a b none contents
  of_parts (a ∷ String.[] ∷ b ∷ String.[] ∷ c ∷ []) contents = matched a b (some c) contents
  of_parts _ contents = no_match contents

  unfoldable pub sequence_alternatives : String → Sequence
  unfolding of_parts split
  sequence_alternatives contents = of_parts (split "." contents) contents
