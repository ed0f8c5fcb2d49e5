-- ===== src/Guard/Words.antt =====
-- `executable_words` and `executable_name` of scripts/agent/pre_tool_policy.py: a segment without
-- its assignments and its `command` and `env` wrappers. A position in the segment is the words from
-- it on.
pub mod Names
pub mod Wrappers
use gas_station.Base.{
  ℕ, zero, suc, Char, code, String, ◌<>◌, Bool, true, false, not, ◌&&◌, ◌||◌, Option, none, some,
  List, [], ◌∷◌, ◌==◌, leb, if◌then◌else◌, has, same, one_of, starts_with, before, after_last?,
  replace, or_else_text, drop,
}

unfoldable pub is_name_start : Char → Bool
is_name_start c = let n = code c in (leb 65 n && leb n 90) || (leb 97 n && leb n 122) || same c "_"

unfoldable pub is_name_char : Char → Bool
unfolding is_name_start
is_name_char c = let n = code c in is_name_start c || (leb 48 n && leb n 57)

-- `[A-Za-z0-9_]*=`
unfoldable pub name_then_equals : String → Bool
unfolding is_name_char
name_then_equals String.[] = false
name_then_equals (String.◌∷◌ c s) =
    let rest = name_then_equals s in if same c "=" then true else is_name_char c && rest

-- `ASSIGNMENT.match(token)`
unfoldable pub is_assignment : String → Bool
unfolding name_then_equals
is_assignment String.[] = false
is_assignment (String.◌∷◌ c s) = is_name_start c && name_then_equals s

unfoldable pub command_name : String → String
unfolding replace after_last? or_else_text
command_name token = let path = replace "\\" "/" token in or_else_text (after_last? "/" path) path

-- `token.split("=", 1)[0]`
unfoldable pub option_name : String → String
unfolding before
option_name token = before "=" token

abbrev pub is_option : String → Bool
is_option token = starts_with token "-"

unfoldable pub skip_assignments : List String → List String
unfolding is_assignment
skip_assignments [] = []
skip_assignments (w ∷ ws) =
    let rest = skip_assignments ws in if is_assignment w then rest else w ∷ ws

unfoldable pub skip_p : List String → List String
skip_p [] = []
skip_p (w ∷ ws) = let rest = skip_p ws in if w == "-p" then rest else w ∷ ws

-- What stands behind `command` and its options; `none` where the wrapper is kept.
unfoldable pub after_command : List String → Option (List String)
unfolding starts_with
after_command [] = some []
after_command (w ∷ ws) = if w == "--" then some ws else if is_option w then none else some (w ∷ ws)

pub data EnvToken : Type 0 where
  skip skip_value end_mark unknown command_word : EnvToken

unfoldable pub env_token : String → EnvToken
unfolding is_assignment option_name one_of has starts_with
env_token token =
    if is_assignment token
    then skip
    else if token == "--"
    then end_mark
    else if one_of token ("-0" ∷ "-i" ∷ "-v" ∷ "--debug" ∷ "--ignore-environment" ∷ "--null" ∷ [])
    then skip
    else if one_of (option_name token) ("-C" ∷ "-u" ∷ "--chdir" ∷ "--unset" ∷ [])
    then (if has "=" token then skip else skip_value)
    else if is_option token
    then unknown
    else command_word

-- The loop over the arguments of `env`. The flag is set where an option waits for its value.
unfoldable pub after_env : Bool → List String → Option (List String)
after_env waits [] = some []
after_env true (w ∷ ws) = after_env false ws
after_env false (w ∷ ws) = elim (env_token w) [
  | skip ↦ after_env false ws
  | skip_value ↦ after_env true ws
  | end_mark ↦ some ws
  | unknown ↦ none
  | command_word ↦ some (w ∷ ws)
]

pub data Wrapper : Type 0 where
  command env plain : Wrapper

unfoldable pub wrapper_kind : String → Wrapper
wrapper_kind w =
    let name = command_name w in
    if name == "command" then command else if name == "env" then env else plain

-- At most `n` wrappers are taken off.
unfoldable pub unwrap : ℕ → List String → List String
unwrap zero ws = ws
unwrap (suc n) [] = []
unwrap (suc n) (w ∷ ws) = elim (wrapper_kind w) [
  | command ↦ elim (after_command (skip_p ws)) [ none ↦ w ∷ ws | some rest ↦ unwrap n rest ]
  | env ↦ elim (after_env false ws) [ none ↦ w ∷ ws | some rest ↦ unwrap n rest ]
  | plain ↦ w ∷ ws
]

unfoldable pub executable_words : List String → List String
unfolding skip_assignments unwrap wrapper_kind command_name skip_p after_command after_env env_token
executable_words segment = unwrap 4 (skip_assignments segment)

unfoldable pub executable_name : List String → String
unfolding command_name
executable_name [] = ""
executable_name (w ∷ ws) = command_name w
