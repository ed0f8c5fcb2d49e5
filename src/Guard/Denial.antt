-- ===== src/Guard/Denial.antt =====
-- `denial_reason` of scripts/agent/pre_tool_policy.py: every segment of every pipeline in order,
-- with the directory that the `cd` commands before it lead to.
pub mod Depth
pub mod Anywhere
pub mod Shells
pub mod HardReset
use gas_station.Base.{
  ℕ, zero, suc, ◌-◌, String, Bool, true, false, ◌&&◌, Option, none, some, List, [], ◌∷◌, ◌++◌, ◌==◌,
  if◌then◌else◌, any, all, keep, one_of, starts_with, lstrip, before, after?,
}
use gas_station.Guard.Host.{Host, glob_prefix}
use gas_station.Guard.Pipelines.{Segment, Pipeline, shell_pipelines}
use gas_station.Guard.Words.{executable_words, executable_name}
use gas_station.Guard.Git.{
  git_command_cwd, git_operation, is_operation, short_option_has, broad_restore_target,
  protected_ref_destination, current_or_upstream_protected,
}
use gas_station.Guard.Push.{
  destructive_push_requested, git_denial, or_next, push_denial, refspecs_of, lease_targets,
  refspec_denial, lease_denial, has_explicit_destination, head_denial,
}
use gas_station.Guard.Rm.{rm_denial}
use gas_station.Guard.Secret.{secret_read_denial}
use gas_station.Guard.Shell.{
  Nested, absent, malformed, nested, nested_shell_command, database_denial, resolved_cd,
}
use gas_station.Guard.Reason.{Reason, malformed_command, unresolved_cwd}

-- `active_cwd` and `cwd_unresolved`
pub record Cwd : Type 0 where
  pub active : String
  pub unresolved : Bool

-- A segment denies the command, or the loop goes on.
pub data Verdict : Type 0 where
  denied : Reason → Verdict
  go_on : Cwd → Verdict

abbrev pub verdict : Option Reason → Cwd → Verdict
verdict none cwd = go_on cwd
verdict (some r) cwd = denied r

abbrev pub reason_of : Verdict → Option Reason
reason_of (denied r) = some r
reason_of (go_on cwd) = none

module _ (host : Host) where
  unfoldable pub after_cd : List String → Cwd → Cwd
  after_cd words cwd = elim (resolved_cd host words cwd.active) [
    | none ↦ record cwd { unresolved = true }
    | some next ↦ record { active = next; unresolved = false }
  ]

  unfoldable pub git_rule : List String → Cwd → Option Reason
  git_rule words cwd =
      if cwd.unresolved && destructive_push_requested words
      then some unresolved_cwd
      else git_denial host words (git_command_cwd host words cwd.active)

  -- The rule for the executable.
  unfoldable pub executable_rule : List String → Cwd → Option Reason
  executable_rule words cwd =
      if executable_name words == "git"
      then git_rule words cwd
      else if executable_name words == "rm"
      then rm_denial host words cwd.active
      else secret_read_denial host words cwd.active

  abbrev is_alone : Pipeline → Bool
  is_alone (s ∷ []) = true
  is_alone _ = false

  -- The rules behind the nested command.
  unfoldable pub segment_rules : Pipeline → List Segment → Segment → Cwd → Verdict
  segment_rules pipeline upstream segment cwd =
      let words = executable_words segment in
      if executable_name words == "cd" && is_alone pipeline
      then go_on (after_cd words cwd)
      else verdict (or_next (executable_rule words cwd) (database_denial host upstream segment)) cwd

  -- `run` is the check of a nested command, `none` where the depth is used up.
  unfoldable pub nested_rule :
      Option (String → String → Option Reason) → Nested → String → Option Reason
  nested_rule run absent cwd = none
  nested_rule run malformed cwd = some malformed_command
  nested_rule none (nested command) cwd = some malformed_command
  nested_rule (some run) (nested command) cwd = run command cwd

  module _ (run : Option (String → String → Option Reason)) where
    unfoldable pub check_segment : Pipeline → List Segment → Segment → Cwd → Verdict
    check_segment pipeline upstream segment cwd =
        elim (nested_rule run (nested_shell_command (executable_words segment)) cwd.active) [
          | some r ↦ denied r
          | none ↦ segment_rules pipeline upstream segment cwd
        ]

    -- The segments that are left, behind those upstream.
    unfoldable pub check_segments : Pipeline → List Segment → List Segment → Cwd → Verdict
    check_segments pipeline upstream [] cwd = go_on cwd
    check_segments pipeline upstream (segment ∷ rest) cwd =
        elim (check_segment pipeline upstream segment cwd) [
          | denied r ↦ denied r
          | go_on next ↦ check_segments pipeline (upstream ++ segment ∷ []) rest next
        ]

    unfoldable pub check_pipelines : List Pipeline → Cwd → Verdict
    check_pipelines [] cwd = go_on cwd
    check_pipelines (pipeline ∷ rest) cwd = elim (check_segments pipeline [] pipeline cwd) [
      | denied r ↦ denied r
      | go_on next ↦ check_pipelines rest next
    ]

    unfoldable pub check_command : String → String → Option Reason
    check_command command cwd = elim (shell_pipelines command) [
      | none ↦ some malformed_command
      | some pipelines ↦
          reason_of (check_pipelines pipelines (record { active = cwd; unresolved = false }))
    ]

  -- `denial_reason` where so many nested shells are still allowed.
  unfoldable pub denial_within : ℕ → String → String → Option Reason
  denial_within zero command cwd = check_command none command cwd
  denial_within (suc left) command cwd = check_command (some (denial_within left)) command cwd

  -- `MAX_NESTED_SHELL_DEPTH`
  abbrev pub max_nested_shell_depth : ℕ
  max_nested_shell_depth = 3

  unfoldable pub denial_reason : String → String → ℕ → Option Reason
  unfolding destructive_push_requested git_denial git_command_cwd git_operation is_operation any all
      keep one_of starts_with lstrip before after? short_option_has broad_restore_target push_denial
      refspecs_of lease_targets glob_prefix refspec_denial lease_denial protected_ref_destination
      has_explicit_destination head_denial current_or_upstream_protected resolved_cd git_rule
      rm_denial secret_read_denial executable_name executable_words after_cd executable_rule
      database_denial nested_shell_command nested_rule segment_rules check_segment check_segments
      shell_pipelines check_pipelines check_command denial_within
  denial_reason command cwd depth = denial_within (max_nested_shell_depth - depth) command cwd
