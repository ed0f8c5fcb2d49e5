-- ===== src/Guard/Brace/Values.antt =====
-- The values of a sequence and opening braces, for `sequence_alternatives` of
-- scripts/agent/pre_tool_policy.py.
use Prim.Native.Nat.{◌/◌, ◌%◌}
use gas_station.Base.{
  ℕ, zero, suc, ◌+◌, ◌-◌, ◌<◌, String, ◌<>◌, Bool, true, false, ◌&&◌, Option, none, some, List, [],
  ◌∷◌, ◌≡◌, refl, ap, arith, count_char, suffix_from, map, All, length, ltb, Bool-cases, inl, inr,
  split, size,
}
use gas_station.Guard.Host.{Host}
use gas_station.Guard.Brace.Counts.{braces, braces-append, braces-cut}
use gas_station.Guard.Brace.Sequence.{
  ℤ, pos, negsuc, digit_char, digits_onto, decimal, zeros, sign, magnitude, format, letters,
  first_char, letter_of, Literal, no_literal, too_long, literal, is_letter, Sequence, values,
  range_values, at_least, distance, enumerate, no_match, has_dots, is_matched, integer, step_of,
  numeric_format, numbers, letters_sequence, matched, of_parts, sequence_alternatives,
}

-- A text without an opening brace.
abbrev IsPlain : String → Type 0
IsPlain s = braces s ≡ 0

IsPlain-append : (s t : String) → IsPlain s → IsPlain t → IsPlain (s <> t)
IsPlain-append s t h k = omega (arith, braces-append s t, h, k)

digit_char-IsPlain : (n : ℕ) → IsPlain (digit_char n)
unfolding count_char
digit_char-IsPlain zero = refl
digit_char-IsPlain (suc zero) = refl
digit_char-IsPlain (suc (suc zero)) = refl
digit_char-IsPlain (suc (suc (suc zero))) = refl
digit_char-IsPlain (suc (suc (suc (suc zero)))) = refl
digit_char-IsPlain (suc (suc (suc (suc (suc zero))))) = refl
digit_char-IsPlain (suc (suc (suc (suc (suc (suc zero)))))) = refl
digit_char-IsPlain (suc (suc (suc (suc (suc (suc (suc zero))))))) = refl
digit_char-IsPlain (suc (suc (suc (suc (suc (suc (suc (suc zero)))))))) = refl
digit_char-IsPlain (suc (suc (suc (suc (suc (suc (suc (suc (suc n))))))))) = refl

digits_onto-IsPlain : (fuel n : ℕ) (acc : String) → IsPlain acc → IsPlain (digits_onto fuel n acc)
unfolding digits_onto
digits_onto-IsPlain zero n acc h = h
digits_onto-IsPlain (suc fuel) n acc h =
    let longer = IsPlain-append (digit_char (n % 10)) acc (digit_char-IsPlain (n % 10)) h in
    elim (Bool-cases (ltb n 10)) [
      | inl last ↦ rw last longer
      | inr more ↦ rw more (digits_onto-IsPlain fuel (n / 10) _ longer)
    ]

zeros-IsPlain : (n : ℕ) → IsPlain (zeros n)
unfolding zeros count_char
zeros-IsPlain zero = refl
zeros-IsPlain (suc n) = IsPlain-append "0" (zeros n) refl (zeros-IsPlain n)

sign-IsPlain : (v : ℤ) → IsPlain (sign v)
unfolding count_char
sign-IsPlain (pos n) = refl
sign-IsPlain (negsuc n) = refl

decimal-IsPlain : (n : ℕ) → IsPlain (decimal n)
unfolding decimal count_char
decimal-IsPlain n = digits_onto-IsPlain (suc n) n "" refl

format-IsPlain : (padded : Bool) (width : ℕ) (v : ℤ) → IsPlain (format padded width v)
unfolding format
format-IsPlain false width v =
    IsPlain-append (sign v) _ (sign-IsPlain v) (decimal-IsPlain (magnitude v))
format-IsPlain true width v = IsPlain-append (sign v) _ (sign-IsPlain v) (
    IsPlain-append (zeros (width - size (decimal (magnitude v)))) _ (zeros-IsPlain _)
      (decimal-IsPlain (magnitude v)))

first_char-IsPlain : (s : String) → IsPlain s → IsPlain (first_char s)
unfolding count_char
first_char-IsPlain String.[] h = refl
first_char-IsPlain (String.◌∷◌ c s) h = ground (arith, h)

letter_of-IsPlain : (v : ℤ) → IsPlain (letter_of v)
unfolding letter_of count_char
letter_of-IsPlain (negsuc n) = refl
letter_of-IsPlain (pos n) =
    let all : braces letters ≡ 0 = refl in
    first_char-IsPlain (suffix_from (n - 65) letters)
      (omega (arith, all, braces-cut (n - 65) letters))

-- Values that are there, and plain.
abbrev pub IsGood : List String → Type 0
IsGood vs = (0 < length vs) × All IsPlain vs

-- A sequence that gives values gives good ones.
abbrev GivesGood : Sequence → Type 0
GivesGood (values vs) = IsGood vs
GivesGood _ = Unit

map-IsPlain : (f : ℤ → String) (xs : List ℤ) → ((v : ℤ) → IsPlain (f v)) → All IsPlain (map f xs)
map-IsPlain f [] h = tt
map-IsPlain f (x ∷ xs) h = (h x, map-IsPlain f xs h)

range_values-length : (n i k : ℕ) (up : Bool) (a : ℤ) → length (range_values n i k up a) ≡ n
unfolding range_values
range_values-length zero i k up a = refl
range_values-length (suc n) i k up a = ap suc (range_values-length n (i + 1) k up a)

length-map : (f : ℤ → String) (xs : List ℤ) → length (map f xs) ≡ length xs
length-map f [] = refl
length-map f (x ∷ xs) = ap suc (length-map f xs)

enumerate-GivesGood :
    (f : ℤ → String) (a b : ℤ) (step : ℕ)
    → ((v : ℤ) → IsPlain (f v))
    → GivesGood (enumerate f a b step)
unfolding enumerate
enumerate-GivesGood f a b zero h = tt
enumerate-GivesGood f a b (suc k) h =
    let n = distance a b / suc k + 1 in
    let found = range_values n 0 (suc k) (at_least a b) a in
    elim (Bool-cases (ltb 64 n)) [
      | inl many ↦ rw many tt
      | inr few ↦ rw few (
        omega (arith, length-map f found, range_values-length n 0 (suc k) (at_least a b) a),
        map-IsPlain f found h,
      )
    ]

no_match-GivesGood : (contents : String) → GivesGood (no_match contents)
unfolding no_match
no_match-GivesGood contents = elim (Bool-cases (has_dots contents)) [
  | inl d ↦ rw d tt
  | inr d ↦ rw d tt
]

module _ (host : Host) where
  numbers-GivesGood :
      (f : ℤ → String) (a b step : Literal)
      → ((v : ℤ) → IsPlain (f v))
      → GivesGood (numbers host f a b step)
  unfolding numbers
  numbers-GivesGood f (literal a) (literal b) (literal (pos k)) h = enumerate-GivesGood f a b k h
  numbers-GivesGood f (literal a) (literal b) (literal (negsuc k)) h = tt
  numbers-GivesGood f (literal a) (literal b) no_literal h = tt
  numbers-GivesGood f (literal a) (literal b) too_long h = tt
  numbers-GivesGood f (literal a) no_literal step h = tt
  numbers-GivesGood f (literal a) too_long step h = tt
  numbers-GivesGood f no_literal b step h = tt
  numbers-GivesGood f too_long b step h = tt

  letters_sequence-GivesGood :
      (a b : Option ℤ) (step : Literal) (contents : String)
      → GivesGood (letters_sequence host a b step contents)
  letters_sequence-GivesGood (some a) (some b) (literal (pos k)) contents =
      enumerate-GivesGood letter_of a b k letter_of-IsPlain
  letters_sequence-GivesGood (some a) (some b) too_long contents = tt
  letters_sequence-GivesGood (some a) (some b) (literal (negsuc k)) contents =
      no_match-GivesGood contents
  letters_sequence-GivesGood (some a) (some b) no_literal contents = no_match-GivesGood contents
  letters_sequence-GivesGood (some a) none step contents = no_match-GivesGood contents
  letters_sequence-GivesGood none b step contents = no_match-GivesGood contents

  matched-GivesGood :
      (a b : String) (step : Option String) (contents : String)
      → GivesGood (matched host a b step contents)
  unfolding matched
  matched-GivesGood a b step contents =
      elim (Bool-cases (
        is_matched host (integer host a)
        && is_matched host (integer host b)
        && is_matched host (step_of host step))) [
          | inl numeric ↦ rw numeric (
              numbers-GivesGood (numeric_format host a b) (integer host a) (integer host b)
                (step_of host step) (format-IsPlain _ _))
          | inr other ↦
              rw other (
                letters_sequence-GivesGood (is_letter a) (is_letter b) (step_of host step) contents)
        ]

  of_parts-GivesGood :
      (parts : List String) (contents : String) → GivesGood (of_parts host parts contents)
  unfolding of_parts
  of_parts-GivesGood [] contents = no_match-GivesGood contents
  of_parts-GivesGood (a ∷ []) contents = no_match-GivesGood contents
  of_parts-GivesGood (a ∷ (String.◌∷◌ x s) ∷ rest) contents = no_match-GivesGood contents
  of_parts-GivesGood (a ∷ String.[] ∷ []) contents = no_match-GivesGood contents
  of_parts-GivesGood (a ∷ String.[] ∷ b ∷ []) contents = matched-GivesGood a b none contents
  of_parts-GivesGood (a ∷ String.[] ∷ b ∷ (String.◌∷◌ x s) ∷ rest) contents =
      no_match-GivesGood contents
  of_parts-GivesGood (a ∷ String.[] ∷ b ∷ String.[] ∷ []) contents = no_match-GivesGood contents
  of_parts-GivesGood (a ∷ String.[] ∷ b ∷ String.[] ∷ c ∷ []) contents =
      matched-GivesGood a b (some c) contents
  of_parts-GivesGood (a ∷ String.[] ∷ b ∷ String.[] ∷ c ∷ d ∷ rest) contents =
      no_match-GivesGood contents

  -- The values that stand for a sequence are there, and hold no opening brace.
  pub sequence_alternatives-IsGood :
      (contents : String) (vs : List String)
      → sequence_alternatives host contents ≡ values vs
      → IsGood vs
  unfolding sequence_alternatives
  sequence_alternatives-IsGood contents vs e =
      rw e at (of_parts-GivesGood (split "." contents) contents)
