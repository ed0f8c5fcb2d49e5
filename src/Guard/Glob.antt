-- ===== src/Guard/Glob.antt =====
-- `fnmatch.fnmatchcase` of the Python library, as scripts/agent/pre_tool_policy.py uses it: the
-- pattern as a list of items, and whether a name matches them.
use gas_station.Base.{
  ℕ, zero, suc, ◌+◌, Char, code, String, ◌<>◌, Bool, true, false, not, ◌&&◌, ◌||◌, Option, none,
  some, List, [], ◌∷◌, if◌then◌else◌, ltb, leb, has, same, starts_with, find_char, prefix_to,
  suffix_from,
}

-- The chunks of a character class: the last character of one and the first of the next are the
-- ends of a range.
pub data Item : Type 0 where
  any_run any_char never : Item
  exactly : Char → Item
  one_in one_not_in : List String → Item

abbrev raised_by : ℕ → Option ℕ → Option ℕ
raised_by k none = none
raised_by k (some n) = some (k + n)

-- The place of the closing bracket: "!" and then "]" may stand first in the class.
unfoldable pub closing : String → Option ℕ
unfolding starts_with find_char suffix_from
closing s =
    let start : ℕ = if starts_with s "!" then 1 else 0 in
    let from : ℕ = if starts_with (suffix_from start s) "]" then start + 1 else start in
    raised_by from (find_char "]" (suffix_from from s))

-- The class cut at the "-" of its ranges; the next so many characters do not count as such.
unfoldable pub chunks_after : ℕ → String → String × List String
chunks_after n String.[] = (String.[], [])
chunks_after zero (String.◌∷◌ c s) =
    let cut = chunks_after 2 s in
    let (first, others) = chunks_after 0 s in
    if same c "-" then (String.[], cut.0 ∷ cut.1) else (String.◌∷◌ c first, others)
chunks_after (suc n) (String.◌∷◌ c s) =
    let (first, others) = chunks_after n s in (String.◌∷◌ c first, others)

-- A "-" at the end stands for itself.
unfoldable pub close_chunks : String → List String → List String
close_chunks c [] = c ∷ []
close_chunks c (String.[] ∷ []) = (c <> "-") ∷ []
close_chunks c (d ∷ ds) = c ∷ close_chunks d ds

abbrev last_code : String → ℕ
last_code String.[] = 0
last_code (String.◌∷◌ c String.[]) = code c
last_code (String.◌∷◌ c (String.◌∷◌ d s)) = last_code (String.◌∷◌ d s)

abbrev first_code : String → ℕ
first_code String.[] = 0
first_code (String.◌∷◌ c s) = code c

abbrev without_last : String → String
without_last String.[] = String.[]
without_last (String.◌∷◌ c String.[]) = String.[]
without_last (String.◌∷◌ c (String.◌∷◌ d s)) = String.◌∷◌ c (without_last (String.◌∷◌ d s))

abbrev join_empty : String → List String → List String
join_empty c [] = c ∷ []
join_empty c (d ∷ ds) =
    if ltb (first_code d) (last_code c)
    then (without_last c <> suffix_from 1 d) ∷ ds
    else c ∷ d ∷ ds

-- The chunks without the empty ranges, from the last one on.
unfoldable pub remove_empty : List String → List String
unfolding suffix_from
remove_empty [] = []
remove_empty (c ∷ cs) = join_empty c (remove_empty cs)

unfoldable pub chunks : String → List String
unfolding has starts_with chunks_after close_chunks remove_empty
chunks stuff =
    let cut = chunks_after (if starts_with stuff "!" then 2 else 1) stuff in
    if has "-" stuff then remove_empty (close_chunks cut.0 cut.1) else stuff ∷ []

-- In a class that begins with a range's "-" it stands for itself.
abbrev class_of : List String → Item
class_of [] = never
class_of (String.[] ∷ []) = never
class_of (String.◌∷◌ c s ∷ ds) =
    if same c "!"
    then elim s [
      | String.[] ↦ elim ds [ [] ↦ any_char | d ∷ r ↦ one_not_in (("-" <> d) ∷ r) ]
      | String.◌∷◌ e r ↦ one_not_in (String.◌∷◌ e r ∷ ds)
    ]
    else one_in (String.◌∷◌ c s ∷ ds)
class_of (String.[] ∷ d ∷ ds) = one_in (("-" <> d) ∷ ds)

-- The pattern, its next so many characters left out.
unfoldable pub items : ℕ → String → List Item
unfolding closing chunks prefix_to suffix_from
items n String.[] = []
items (suc n) (String.◌∷◌ c s) = items n s
items zero (String.◌∷◌ c s) =
    let bracket : List Item = elim (closing s) [
      | none ↦ exactly c ∷ items zero s
      | some n ↦ class_of (chunks (prefix_to n s)) ∷ items (n + 1) s
    ] in
    let rest = items zero s in
    if same c "*"
    then any_run ∷ rest
    else if same c "?"
    then any_char ∷ rest
    else if same c "["
    then bracket
    else exactly c ∷ rest

abbrev in_ranges : Char → List String → Bool
in_ranges c [] = false
in_ranges c (x ∷ []) = has c x
in_ranges c (x ∷ y ∷ r) =
    has c x || (leb (last_code x) (code c) && leb (code c) (first_code y)) || in_ranges c (y ∷ r)

unfoldable pub item_matches : Item → Char → Bool
unfolding has
item_matches any_run c = true
item_matches any_char c = true
item_matches never c = false
item_matches (exactly d) c = same d c
item_matches (one_in chunks) c = in_ranges c chunks
item_matches (one_not_in chunks) c = not (in_ranges c chunks)

-- Some end of the text matches.
unfoldable pub some_end : (String → Bool) → String → Bool
some_end k String.[] = k String.[]
some_end k (String.◌∷◌ c s) = k (String.◌∷◌ c s) || some_end k s

abbrev is_empty : String → Bool
is_empty String.[] = true
is_empty (String.◌∷◌ c s) = false

abbrev one_char : Item → (String → Bool) → String → Bool
one_char i k String.[] = false
one_char i k (String.◌∷◌ c s) = item_matches i c && k s

unfoldable pub items_match : List Item → String → Bool
unfolding some_end item_matches
items_match [] s = is_empty s
items_match (any_run ∷ is) s = some_end (items_match is) s
items_match (i ∷ is) s = one_char i (items_match is) s

unfoldable pub fnmatchcase : String → String → Bool
unfolding items items_match
fnmatchcase name pattern = items_match (items 0 pattern) name
