-- ===== src/Guard/Push.antt =====
-- `destructive_push_requested` and `git_denial` of scripts/agent/pre_tool_policy.py.
pub mod Coverage
pub mod Operations
pub mod Protected
use gas_station.Base.{
  String, Bool, true, false, not, ◌&&◌, ◌||◌, Option, none, some, List, [], ◌∷◌, ◌++◌, ◌==◌,
  if◌then◌else◌, any, all, keep, drop, one_of, starts_with, before, after?, lstrip,
}
use gas_station.Guard.Host.{Host, glob_prefix}
use gas_station.Guard.Words.{is_option}
use gas_station.Guard.Git.{
  git_operation, is_operation, short_option_has, protected_ref_destination, broad_restore_target,
  current_or_upstream_protected,
}
use gas_station.Guard.Reason.{
  Reason, hard_reset, broad_checkout, broad_restore, forced_clean, mirror_push, broad_force_push,
  force_push_to,
}

abbrev pub is_dry : String → Bool
is_dry token = token == "--dry-run" || short_option_has token "n"

abbrev pub is_force : String → Bool
is_force token =
    token == "--force" || starts_with token "--force-with-lease" || short_option_has token "f"

abbrev pub is_plus : String → Bool
is_plus token = starts_with token "+"

unfoldable pub destructive_push_requested : List String → Bool
destructive_push_requested words =
    let (operation, args) = git_operation words in
    is_operation operation "push"
    && not (any is_dry args)
    && (one_of "--mirror" args || any is_force args || any is_plus args)

-- `[token.split("=", 1)[1] for token in args if token.startswith("--force-with-lease=")]`
unfoldable pub lease_targets : List String → List String
lease_targets [] = []
lease_targets (token ∷ args) =
    let rest = lease_targets args in
    if starts_with token "--force-with-lease="
    then elim (after? "=" token) [ none ↦ rest | some target ↦ target ∷ rest ]
    else rest

-- The arguments that are no options, without the first, which names the remote.
unfoldable pub refspecs_of : List String → List String
refspecs_of args = drop 1 (keep (λ token. not (is_option token)) args)

unfoldable pub refspec_denial : Bool → List String → Option Reason
refspec_denial forced [] = none
refspec_denial forced (refspec ∷ refspecs) =
    let rest = refspec_denial forced refspecs in
    elim (protected_ref_destination refspec) [
      | none ↦ rest
      | some branch ↦ if forced || is_plus refspec then some (force_push_to branch) else rest
    ]

unfoldable pub lease_denial : List String → Option Reason
lease_denial [] = none
lease_denial (target ∷ targets) =
    let rest = lease_denial targets in
    elim (protected_ref_destination (before ":" target)) [
      | none ↦ rest
      | some branch ↦ some (force_push_to branch)
    ]

unfoldable pub has_explicit_destination : List String → Bool
has_explicit_destination [] = false
has_explicit_destination (refspec ∷ refspecs) =
    all (λ r. not (one_of (lstrip "+" r) ("HEAD" ∷ "@" ∷ []))) (refspec ∷ refspecs)

-- `x` if the first rule gives a reason, and what follows if not.
abbrev pub or_next : Option Reason → Option Reason → Option Reason
or_next none next = next
or_next (some r) next = some r

abbrev pub force_requested : List String → Bool
force_requested args = any is_force args || any is_plus (refspecs_of args)

abbrev pub wildcard_ref : List String → Bool
wildcard_ref args = any (λ t. (glob_prefix t).1) (refspecs_of args ++ lease_targets args)

module _ (host : Host) where
  unfoldable pub head_denial : String → Option Reason
  head_denial cwd = elim (current_or_upstream_protected host cwd) [
    | none ↦ none
    | some branch ↦ some (force_push_to branch)
  ]

  -- The rules for `push`.
  unfoldable pub push_denial : List String → String → Option Reason
  push_denial args cwd =
      if any is_dry args
      then none
      else if one_of "--mirror" args
      then some mirror_push
      else if force_requested args && (one_of "--all" args || wildcard_ref args)
      then some broad_force_push
      else or_next (refspec_denial (any is_force args) (refspecs_of args)) (
          or_next (lease_denial (lease_targets args)) (
            if not (force_requested args)
            then none
            else if has_explicit_destination (refspecs_of args)
            then none
            else head_denial cwd))

  -- `any(broad_restore_target(token, command_cwd) for token in args if not token.startswith("-"))`
  abbrev pub restores_broadly : List String → String → Bool
  restores_broadly args cwd =
      any (λ token. not (is_option token) && broad_restore_target host token cwd) args

  abbrev pub is_patch : String → Bool
  is_patch token = token == "--patch" || short_option_has token "p"

  -- The rules for an operation and its arguments.
  unfoldable pub git_rules : Option String → List String → String → Option Reason
  git_rules operation args cwd =
      if is_operation operation "reset" && one_of "--hard" args
      then some hard_reset
      else if not (any is_patch args)
          && is_operation operation "checkout"
          && restores_broadly args cwd
      then some broad_checkout
      else if not (any is_patch args)
          && is_operation operation "restore"
          && restores_broadly args cwd
      then some broad_restore
      else if is_operation operation "clean" && any is_dry args
      then none
      else if is_operation operation "clean"
          && any (λ t. t == "--force" || short_option_has t "f") args
      then some forced_clean
      else if not (is_operation operation "push")
      then none
      else push_denial args cwd

  unfoldable pub git_denial : List String → String → Option Reason
  unfolding git_rules
  git_denial words cwd = let (operation, args) = git_operation words in git_rules operation args cwd
