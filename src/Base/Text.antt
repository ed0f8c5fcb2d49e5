-- ===== src/Base/Text.antt =====
-- The methods of Python's `str` that the scripts use, by recursion on the characters.
use Prim.Native.Nat.{ℕ, zero, suc, ◌+◌, Ordering}
use Prim.Native.Char.{Char, code}
use Prim.Native.String.{String, compare, ◌++◌ as ◌<>◌}
use mathlib.Core.Bool.{Bool, true, false, ◌&&◌, ◌||◌}
use mathlib.Core.Option.{Option, none, some}
use mathlib.Core.List.{List, [], ◌∷◌}
use mathlib.Core.Path.{◌≡◌}
use native.Mathlib.Omega.{arith}
use text.Mathlib.Text.{◌==◌ as str_eq}
use text.Mathlib.TextEquality.{eq_iff}
use mathlib.Core.Logic.{inl, inr}
use gas_station.Base.Lists.{All}
use gas_station.Base.Tests.{Bool-cases, ◌==◌, leb, if◌then◌else◌}

abbrev pub same : Char → Char → Bool
same c d = code c == code d

-- `c in s`
unfoldable pub has : Char → String → Bool
has c String.[] = false
has c (String.◌∷◌ d s) = same d c || has c s

-- `token in {…}`
unfoldable pub one_of : String → List String → Bool
one_of t [] = false
one_of t (x ∷ xs) = str_eq t x || one_of t xs

-- The order of code points, and a text in its place among texts that are in order.
abbrev pub is_earlier : String → String → Bool
is_earlier a b = elim (compare a b) [ Ordering.lt ↦ true | _ ↦ false ]

abbrev pub place : String → List String → List String
place t [] = t ∷ []
place t (x ∷ xs) = let placed = place t xs in if is_earlier t x then t ∷ x ∷ xs else x ∷ placed

pub one_of-place :
    (q p : String) (xs : List String) → one_of q (place p xs) ≡ (str_eq q p || one_of q xs)
unfolding one_of
one_of-place q p [] = ground arith
one_of-place q p (x ∷ xs) = ground (arith, one_of-place q p xs)

-- A predicate of all the members of a list holds of a text that is one of them.
pub All-one_of :
    (P : String → Type 0) (p : String) (xs : List String) → All P xs → one_of p xs ≡ true → P p
unfolding one_of
All-one_of P p [] h e = cc
All-one_of P p (x ∷ xs) h e = elim (Bool-cases (str_eq p x)) [
  | inl s ↦ let same : p ≡ x = (eq_iff p x).0 s in rw same h.0
  | inr n ↦ All-one_of P p xs h.1 (rw n at e)
]

-- `s.startswith(p)`
unfoldable pub starts_with : String → String → Bool
starts_with s String.[] = true
starts_with String.[] (String.◌∷◌ c p) = false
starts_with (String.◌∷◌ d s) (String.◌∷◌ c p) = same d c && starts_with s p

-- `s.endswith(c)` for a single character
unfoldable pub ends_with_char : String → Char → Bool
ends_with_char String.[] c = false
ends_with_char (String.◌∷◌ d String.[]) c = same d c
ends_with_char (String.◌∷◌ d (String.◌∷◌ e s)) c = ends_with_char (String.◌∷◌ e s) c

-- `len(s)`
unfoldable pub size : String → ℕ
size String.[] = 0
size (String.◌∷◌ c s) = suc (size s)

-- `s[n:]` and `s[:n]`
unfoldable pub suffix_from : ℕ → String → String
suffix_from zero s = s
suffix_from (suc n) String.[] = String.[]
suffix_from (suc n) (String.◌∷◌ c s) = suffix_from n s

unfoldable pub prefix_to : ℕ → String → String
prefix_to zero s = String.[]
prefix_to (suc n) String.[] = String.[]
prefix_to (suc n) (String.◌∷◌ c s) = String.◌∷◌ c (prefix_to n s)

-- `s.split(c, 1)[0]`
unfoldable pub before : Char → String → String
before c String.[] = String.[]
before c (String.◌∷◌ d s) =
    let rest = String.◌∷◌ d (before c s) in if same d c then String.[] else rest

-- `s.split(c, 1)[1]`, if there is one
unfoldable pub after? : Char → String → Option String
after? c String.[] = none
after? c (String.◌∷◌ d s) = let rest = after? c s in if same d c then some s else rest

-- `s.rsplit(c, 1)[1]`, if there is one
unfoldable pub after_last? : Char → String → Option String
after_last? c String.[] = none
after_last? c (String.◌∷◌ d s) = elim (after_last? c s) [
  | some r ↦ some r
  | none ↦ if same d c then some s else none
]

-- `s.rsplit(c, 1)[0]`, if there is a `c`
unfoldable pub before_last? : Char → String → Option String
before_last? c String.[] = none
before_last? c (String.◌∷◌ d s) = elim (before_last? c s) [
  | some p ↦ some (String.◌∷◌ d p)
  | none ↦ if same d c then some String.[] else none
]

unfoldable pub or_else_text : Option String → String → String
or_else_text none d = d
or_else_text (some s) d = s

-- `s.replace(c, d)`
unfoldable pub replace : Char → Char → String → String
replace c d String.[] = String.[]
replace c d (String.◌∷◌ e s) = String.◌∷◌ (if same e c then d else e) (replace c d s)

-- `s.find(c)`, `none` for -1
unfoldable pub find_char : Char → String → Option ℕ
find_char c String.[] = none
find_char c (String.◌∷◌ d s) =
    if same d c then some 0 else elim (find_char c s) [ none ↦ none | some n ↦ some (suc n) ]

-- `s.count(c)`
unfoldable pub count_char : Char → String → ℕ
count_char c String.[] = 0
count_char c (String.◌∷◌ d s) = (if same d c then 1 else 0) + count_char c s

-- `s.lstrip(c)`
unfoldable pub lstrip : Char → String → String
lstrip c String.[] = String.[]
lstrip c (String.◌∷◌ d s) = let rest = lstrip c s in if same d c then rest else String.◌∷◌ d s

-- The pieces of `s.split(c)`: the first, and the others.
unfoldable pub split_pair : Char → String → String × List String
split_pair c String.[] = (String.[], [])
split_pair c (String.◌∷◌ d s) =
    let (first, others) = split_pair c s in
    if same d c then (String.[], first ∷ others) else (String.◌∷◌ d first, others)

-- `s.split(c)`
unfoldable pub split : Char → String → List String
unfolding split_pair
split c s = let (first, others) = split_pair c s in first ∷ others

-- `c.join(parts)`
unfoldable pub join : String → List String → String
join c [] = String.[]
join c (x ∷ []) = x
join c (x ∷ y ∷ rest) = x <> (c <> join c (y ∷ rest))

-- The code points for which `str.isspace` holds.
unfoldable pub is_space : Char → Bool
is_space c =
    let n = code c in
    (leb 9 n && leb n 13)
    || (leb 28 n && leb n 32)
    || n == 133
    || n == 160
    || n == 5760
    || (leb 8192 n && leb n 8202)
    || n == 8232
    || n == 8233
    || n == 8239
    || n == 8287
    || n == 12288

unfoldable pub lstrip_space : String → String
unfolding is_space
lstrip_space String.[] = String.[]
lstrip_space (String.◌∷◌ d s) =
    let rest = lstrip_space s in if is_space d then rest else String.◌∷◌ d s

unfoldable pub rstrip_space : String → String
unfolding is_space
rstrip_space String.[] = String.[]
rstrip_space (String.◌∷◌ d s) = elim (rstrip_space s) [
  | String.[] ↦ if is_space d then String.[] else String.◌∷◌ d String.[]
  | String.◌∷◌ e r ↦ String.◌∷◌ d (String.◌∷◌ e r)
]

-- `s.strip()`
unfoldable pub strip : String → String
unfolding lstrip_space rstrip_space
strip s = rstrip_space (lstrip_space s)
