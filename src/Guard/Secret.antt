-- ===== src/Guard/Secret.antt =====
-- `is_secret_path` and `secret_read_denial` of scripts/agent/pre_tool_policy.py.
use gas_station.Base.{
  String, Bool, true, false, not, ◌&&◌, ◌||◌, Option, none, some, List, [], ◌∷◌, ◌==◌,
  if◌then◌else◌, any, drop, has, one_of, starts_with, before_last?, after_last?, or_else_text,
  replace,
}
use gas_station.Guard.Host.{Host, resolve, glob_prefix}
use gas_station.Guard.Words.{executable_name}
use gas_station.Guard.Operands.{
  grep_non_value_mode, cut_file_operands, grep_file_operands, awk_file_operands,
}
use gas_station.Guard.Brace.{Expansion, alternatives, brace_alternatives}
use gas_station.Guard.Glob.{fnmatchcase}
use gas_station.Guard.Reason.{Reason, printed_secret}

unfoldable pub protected_secret_name : String → Bool
unfolding one_of starts_with
protected_secret_name name =
    one_of name ("local.properties" ∷ "keystore.properties" ∷ ".env" ∷ [])
    || starts_with name ".env."

abbrev pub protected_samples : List String
protected_samples = "local.properties" ∷ "keystore.properties" ∷ ".env" ∷ ".env.local" ∷ []

abbrev pub slashes : String → String
slashes token = replace "\\" "/" token

-- `normalized.rpartition("/")`
unfoldable pub directory_of : String → String
unfolding before_last? or_else_text
directory_of path = or_else_text (before_last? "/" path) "."

unfoldable pub name_of : String → String
unfolding after_last? or_else_text
name_of path = or_else_text (after_last? "/" path) path

unfoldable pub matches_any : List String → String → Bool
unfolding any fnmatchcase
matches_any patterns name = any (λ pattern. fnmatchcase name pattern) patterns

module _ (host : Host) where
  -- A protected name in the listing matches; an `OSError` is no match.
  unfoldable pub lists_secret : List String → Option (List String) → Bool
  unfolding any protected_secret_name matches_any
  lists_secret patterns none = false
  lists_secret patterns (some names) =
      any (λ name. protected_secret_name name && matches_any patterns name) names

  abbrev expanded : String → String
  expanded directory = host.expanduser (host.expandvars directory)

  unfoldable pub in_directory : String → List String → String → Bool
  unfolding glob_prefix has resolve lists_secret
  in_directory directory patterns cwd =
      if directory == "" || directory == "."
      then true
      else if (glob_prefix directory).1 || has "{" directory || has "$" directory
      then true
      else lists_secret patterns (host.list_dir (resolve host cwd (expanded directory)))

  -- A pattern that is refused counts as secret.
  unfoldable pub expands_to_secret : Expansion → String → String → Bool
  unfolding any matches_any in_directory
  expands_to_secret (alternatives patterns) directory cwd =
      any (matches_any patterns) protected_samples && in_directory directory patterns cwd
  expands_to_secret _ directory cwd = true

  unfoldable pub is_secret_path : String → String → Bool
  unfolding replace protected_secret_name name_of directory_of expands_to_secret brace_alternatives
  is_secret_path token cwd =
      if protected_secret_name (name_of (slashes token))
      then true
      else expands_to_secret (brace_alternatives host (name_of (slashes token)))
          (directory_of (slashes token)) cwd

  abbrev pub edits_in_place : String → Bool
  edits_in_place token =
      token == "--in-place"
      || starts_with token "--in-place="
      || (starts_with token "-i" && not (starts_with token "--"))

  unfoldable pub is_printing : String → Bool
  unfolding one_of
  is_printing name =
      one_of name
        ("bat" ∷ "batcat" ∷ "cat" ∷ "cut" ∷ "head" ∷ "less" ∷ "more" ∷ "nl" ∷ "sed" ∷ "tail" ∷ [])

  -- The files that a command line prints, `none` for one that prints none.
  unfoldable pub printed_files : List String → Option (List String)
  unfolding executable_name grep_non_value_mode grep_file_operands awk_file_operands
      cut_file_operands is_printing
  printed_files words =
      let executable = executable_name words in
      if executable == "grep"
      then (if grep_non_value_mode words then none else some (grep_file_operands words))
      else if executable == "awk"
      then some (awk_file_operands words)
      else if executable == "cut"
      then some (cut_file_operands words)
      else if is_printing executable
      then some (drop 1 words)
      else none

  abbrev secret_among : List String → String → Option Reason
  secret_among files cwd =
      if any (λ token. is_secret_path token cwd) files then some printed_secret else none

  unfoldable pub secret_read_denial : List String → String → Option Reason
  unfolding printed_files executable_name any starts_with is_secret_path
  secret_read_denial words cwd = elim (printed_files words) [
    | none ↦ none
    | some files ↦
        if executable_name words == "sed" && any edits_in_place (drop 1 words)
        then none
        else secret_among files cwd
  ]
