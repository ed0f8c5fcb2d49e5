-- ===== src/Guard/Rm.antt =====
-- `rm_denial` of scripts/agent/pre_tool_policy.py.
pub mod Flags
use gas_station.Base.{
  String, Bool, true, false, not, ◌&&◌, ◌||◌, Option, none, some, List, [], ◌∷◌, ◌++◌, ◌==◌,
  if◌then◌else◌, any, starts_with, has,
}
use gas_station.Guard.Host.{Host, resolve, git_repo_root, path_contains, prefix_before}
use gas_station.Guard.Words.{is_option}
use gas_station.Guard.Git.{short_option_has}
use gas_station.Guard.Reason.{Reason, broad_deletion}

-- The variables of the loop over the words behind `rm`.
pub record RmArgs : Type 0 where
  pub recursive : Bool
  pub forced : Bool
  pub targets : List String
  pub options_done : Bool

abbrev pub is_recursive : String → Bool
is_recursive token =
    token == "--recursive" || short_option_has token "r" || short_option_has token "R"

abbrev pub is_forced : String → Bool
is_forced token = token == "--force" || short_option_has token "f"

unfoldable pub rm_token : RmArgs → String → RmArgs
rm_token a token =
    if token == "--"
    then record a { options_done = true }
    else if not a.options_done && is_option token
    then record a {
      recursive = a.recursive || is_recursive token;
      forced = a.forced || is_forced token;
    }
    else record a { targets = a.targets ++ token ∷ [] }

unfoldable pub rm_scan : RmArgs → List String → RmArgs
rm_scan a [] = a
rm_scan a (token ∷ rest) = rm_scan (rm_token a token) rest

abbrev pub no_args : RmArgs
no_args = record { recursive = false; forced = false; targets = []; options_done = false }

unfoldable pub rm_args : List String → RmArgs
rm_args [] = no_args
rm_args (rm ∷ ws) = rm_scan no_args ws

-- `"$(" in target`
unfoldable pub has_substitution : String → Bool
unfolding starts_with
has_substitution String.[] = false
has_substitution (String.◌∷◌ c s) = starts_with (String.◌∷◌ c s) "$(" || has_substitution s

module _ (host : Host) where
  abbrev pub contains_root : Option String → String → Bool
  contains_root none path = false
  contains_root (some root) path = path_contains path root

  -- A path that must not be deleted: the root, the home directory, or one that holds the repository.
  unfoldable pub is_protected_path : String → String → Bool
  unfolding git_repo_root path_contains
  is_protected_path cwd path =
      path == host.realpath "/"
      || path == host.realpath (host.expanduser "~")
      || contains_root (git_repo_root host cwd) path

  -- The path that a target names before its first expansion character.
  unfoldable pub target_path : String → String → String
  unfolding prefix_before resolve
  target_path cwd target =
      resolve host cwd (prefix_before "*?[{$" (host.expanduser (host.expandvars target))).0

  unfoldable pub is_broad_target : String → String → Bool
  unfolding has_substitution has is_protected_path target_path
  is_broad_target cwd target =
      has_substitution target || has "`" target || is_protected_path cwd (target_path cwd target)

  unfoldable pub rm_denial : List String → String → Option Reason
  unfolding rm_args rm_scan rm_token starts_with short_option_has any is_broad_target
  rm_denial words cwd =
      let a = rm_args words in
      if a.recursive && a.forced && any (is_broad_target cwd) a.targets
      then some broad_deletion
      else none
