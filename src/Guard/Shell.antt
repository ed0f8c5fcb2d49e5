-- ===== src/Guard/Shell.antt =====
-- `nested_shell_command`, `database_denial` and `resolved_cd` of scripts/agent/pre_tool_policy.py.
use mathlib.Core.List.{flatten}
use gas_station.Base.{
  Char, code, String, Bool, true, false, not, ◌&&◌, ◌||◌, Option, none, some, List, [], ◌∷◌, ◌++◌,
  ◌==◌, if◌then◌else◌, ◌+◌, ltb, eq_nat, any, keep, drop, has, one_of, starts_with, suffix_from,
  join, is_space,
}
use gas_station.Guard.Host.{Host, resolve, glob_prefix}
use gas_station.Guard.Words.{executable_words, executable_name, is_option, is_name_char}
use gas_station.Guard.Rm.{has_substitution}
use gas_station.Guard.Reason.{Reason, dropped_table}

-- No nested command, one, or an error.
pub data Nested : Type 0 where
  absent malformed : Nested
  nested : String → Nested

pub data ShellToken : Type 0 where
  end_mark skip skip_value takes_command operand : ShellToken

unfoldable pub shell_token : String → ShellToken
unfolding one_of starts_with has suffix_from
shell_token token =
    if token == "--"
    then end_mark
    else if one_of token ("-o" ∷ "+o" ∷ "-O" ∷ "+O" ∷ "--rcfile" ∷ "--init-file" ∷ [])
    then skip_value
    else if is_option token || starts_with token "+"
    then (if has "c" (suffix_from 1 token) then takes_command else skip)
    else operand

-- The word behind the option that takes the command.
unfoldable pub command_behind : List String → Nested
command_behind [] = malformed
command_behind (w ∷ ws) = nested w

unfoldable pub shell_scan : Bool → List String → Nested
unfolding shell_token command_behind
shell_scan waits [] = absent
shell_scan true (w ∷ ws) = shell_scan false ws
shell_scan false (w ∷ ws) = elim (shell_token w) [
  | end_mark ↦ absent
  | skip ↦ shell_scan false ws
  | skip_value ↦ shell_scan true ws
  | takes_command ↦ command_behind ws
  | operand ↦ absent
]

unfoldable pub is_shell : String → Bool
unfolding one_of
is_shell name = one_of name ("bash" ∷ "sh" ∷ "zsh" ∷ [])

unfoldable pub nested_shell_command : List String → Nested
unfolding is_shell executable_name shell_scan
nested_shell_command [] = absent
nested_shell_command (w ∷ ws) =
    if is_shell (executable_name (w ∷ ws)) then shell_scan false ws else absent

-- A letter of the pattern in either case; with `re.I` an `S` also matches "ſ" (U+017F).
abbrev matches_letter : Char → Char → Bool
matches_letter upper c =
    let n = code c in
    let u = code upper in eq_nat n u || eq_nat n (u + 32) || (eq_nat u 83 && eq_nat n 383)

-- What stands behind the pattern's letters.
unfoldable pub behind_letters : String → String → Option String
behind_letters String.[] s = some s
behind_letters (String.◌∷◌ p ps) String.[] = none
behind_letters (String.◌∷◌ p ps) (String.◌∷◌ c s) =
    let rest = behind_letters ps s in if matches_letter p c then rest else none

unfoldable pub skip_spaces : String → String
unfolding is_space
skip_spaces String.[] = String.[]
skip_spaces (String.◌∷◌ c s) =
    let rest = skip_spaces s in if is_space c then rest else String.◌∷◌ c s

-- `\s+`
unfoldable pub behind_spaces : String → Option String
unfolding is_space skip_spaces
behind_spaces String.[] = none
behind_spaces (String.◌∷◌ c s) = if is_space c then some (skip_spaces s) else none

module _ (host : Host) where
  -- `\w`
  unfoldable pub is_word_char : Char → Bool
  unfolding is_name_char
  is_word_char c = if ltb (code c) 128 then is_name_char c else host.unicode_word c

  abbrev ends_word : String → Bool
  ends_word String.[] = true
  ends_word (String.◌∷◌ c s) = not (is_word_char c)

  -- One of the three objects, and a word boundary.
  unfoldable pub is_object : String → Bool
  unfolding any behind_letters is_word_char
  is_object s =
      any (λ name. elim (behind_letters name s) [ none ↦ false | some rest ↦ ends_word rest ])
        ("TABLE" ∷ "DATABASE" ∷ "SCHEMA" ∷ [])

  -- The pattern at the start of the text.
  unfoldable pub drop_here : String → Bool
  unfolding behind_letters behind_spaces is_object
  drop_here s = elim (behind_letters "DROP" s) [
    | none ↦ false
    | some rest ↦ elim (behind_spaces rest) [ none ↦ false | some object ↦ is_object object ]
  ]

  -- The flag says whether the character before the text is a word character.
  unfoldable pub drop_from : Bool → String → Bool
  unfolding drop_here is_word_char
  drop_from inside String.[] = false
  drop_from inside (String.◌∷◌ c s) =
      (not inside && drop_here (String.◌∷◌ c s)) || drop_from (is_word_char c) s

  -- `DROP_STATEMENT.search(text)`
  unfoldable pub drops_table : String → Bool
  unfolding drop_from
  drops_table text = drop_from false text

  unfoldable pub is_database_client : String → Bool
  unfolding one_of
  is_database_client name = one_of name ("mysql" ∷ "psql" ∷ "sqlite3" ∷ [])

  -- The segments before this one, and this one.
  unfoldable pub database_denial : List (List String) → List String → Option Reason
  unfolding executable_words executable_name is_database_client drops_table join flatten
  database_denial upstream segment =
      let words = executable_words segment in
      if is_database_client (executable_name words)
        && drops_table (join " " (drop 1 words ++ flatten upstream))
      then some dropped_table
      else none

  -- `target == "-" or "$(" in target or "`" in target or glob_prefix(target)[1]`
  unfoldable pub is_unresolvable : String → Bool
  unfolding has_substitution has glob_prefix
  is_unresolvable target =
      target == "-" || has_substitution target || has "`" target || (glob_prefix target).1

  unfoldable pub cd_to : String → String → Option String
  unfolding is_unresolvable has resolve
  cd_to cwd target =
      let expanded = host.expanduser (host.expandvars target) in
      let resolved = resolve host cwd expanded in
      if is_unresolvable target
      then none
      else if has "$" expanded
      then none
      else if host.is_dir resolved
      then some resolved
      else none

  -- No argument is the home directory, and two or more are not resolved.
  unfoldable pub cd_arguments : List String → String → Option String
  unfolding cd_to
  cd_arguments [] cwd = cd_to cwd (host.expanduser "~")
  cd_arguments (target ∷ []) cwd = cd_to cwd target
  cd_arguments (a ∷ b ∷ rest) cwd = none

  unfoldable pub resolved_cd : List String → String → Option String
  unfolding keep one_of cd_arguments
  resolved_cd words cwd =
      cd_arguments (keep (λ t. not (one_of t ("--" ∷ "-L" ∷ "-P" ∷ []))) (drop 1 words)) cwd
