-- ===== src/Guard/Host.antt =====
-- What scripts/agent/pre_tool_policy.py asks of the machine (the file system, the environment, the
-- `git` that it runs), and the path functions of the Python library that it computes with.
use mathlib.Core.List.{reverse}
use gas_station.Base.{
  ℕ, suc, Char, String, ◌<>◌, Bool, true, false, not, ◌&&◌, ◌||◌, Option, none, some, List, [], ◌∷◌,
  ◌==◌, if◌then◌else◌, has, keep, starts_with, ends_with_char, split, join, prefix_to, strip,
}

-- `subprocess.run`: an `OSError` or a timeout, a return code other than 0, or the output.
pub data Completed : Type 0 where
  raised : Completed
  nonzero : Completed
  output : String → Completed

pub record Host : Type 0 where
  pub realpath : String → String
  pub expanduser : String → String
  pub expandvars : String → String
  pub is_dir : String → Bool
  -- `os.listdir`, `none` for an `OSError`
  pub list_dir : String → Option (List String)
  pub run : List String → Completed
  -- `\w` of a character beyond ASCII
  pub unicode_word : Char → Bool
  -- the value of `\d` of a character beyond ASCII
  pub unicode_digit : Char → Option ℕ

unfoldable pub is_abs : String → Bool
unfolding starts_with
is_abs p = starts_with p "/"

unfoldable pub path_join : String → String → String
unfolding ends_with_char
path_join base p =
    if is_abs p
    then p
    else if base == "" || ends_with_char base "/"
    then base <> p
    else base <> ("/" <> p)

-- `split(sep)` without the empty parts and "."
unfoldable pub components : String → List String
unfolding keep split
components p = keep (λ c. not (c == "" || c == ".")) (split "/" p)

unfoldable pub common_prefix : List String → List String → List String
common_prefix [] ys = []
common_prefix (x ∷ xs) [] = []
common_prefix (x ∷ xs) (y ∷ ys) = let rest = common_prefix xs ys in if x == y then x ∷ rest else []

abbrev same_bool : Bool → Bool → Bool
same_bool true b = b
same_bool false b = not b

-- `os.path.commonpath` of two paths; `none` is the `ValueError`.
unfoldable pub commonpath : String → String → Option String
unfolding is_abs components common_prefix join
commonpath a b =
    let common = join "/" (common_prefix (components a) (components b)) in
    if same_bool (is_abs a) (is_abs b)
    then some (if is_abs a then "/" <> common else common)
    else none

unfoldable pub path_contains : String → String → Bool
unfolding commonpath
path_contains candidate nested = elim (commonpath candidate nested) [
  | none ↦ false
  | some common ↦ common == candidate
]

-- The loop of `os.path.normpath`, over the kept parts with the last one first.
abbrev norm_part : Bool → List String → String → List String
norm_part absolute [] part =
    if part == "" || part == "." then [] else if part == ".." && absolute then [] else part ∷ []
norm_part absolute (top ∷ kept) part =
    if part == "" || part == "."
    then top ∷ kept
    else if part == ".." && not (top == "..")
    then kept
    else part ∷ top ∷ kept

unfoldable pub norm_parts : Bool → List String → List String → List String
norm_parts absolute kept [] = kept
norm_parts absolute kept (part ∷ parts) = norm_parts absolute (norm_part absolute kept part) parts

abbrev or_dot : String → String
or_dot s = if s == "" then "." else s

unfoldable pub initial_slashes : String → String
unfolding starts_with
initial_slashes p =
    if starts_with p "//" && not (starts_with p "///")
    then "//"
    else if starts_with p "/"
    then "/"
    else ""

unfoldable pub normpath : String → String
unfolding norm_parts initial_slashes split join is_abs
normpath p =
    if p == ""
    then "."
    else or_dot (initial_slashes p <> join "/" (reverse (norm_parts (is_abs p) [] (split "/" p))))

-- `min` of the positions at which a character of the set is found
unfoldable pub find_any : String → String → Option ℕ
unfolding has
find_any set String.[] = none
find_any set (String.◌∷◌ c s) =
    if has c set then some 0 else elim (find_any set s) [ none ↦ none | some n ↦ some (suc n) ]

-- The text before the first character of the set, "." if that is empty, and whether there is one.
unfoldable pub prefix_before : String → String → String × Bool
unfolding find_any prefix_to
prefix_before set token = elim (find_any set token) [
  | none ↦ (token, false)
  | some n ↦ (or_dot (prefix_to n token), true)
]

unfoldable pub glob_prefix : String → String × Bool
unfolding prefix_before
glob_prefix token = prefix_before "*?[" token

module _ (host : Host) where
  -- `os.path.realpath(p if os.path.isabs(p) else os.path.join(base, p))`
  unfoldable pub resolve : String → String → String
  unfolding is_abs path_join
  resolve base p = host.realpath (if is_abs p then p else path_join base p)

  unfoldable pub git_repo_root : String → Option String
  unfolding strip
  git_repo_root cwd = elim (host.run ("git" ∷ "-C" ∷ cwd ∷ "rev-parse" ∷ "--show-toplevel" ∷ [])) [
    | raised ↦ none
    | nonzero ↦ none
    | output out ↦ some (host.realpath (strip out))
  ]
