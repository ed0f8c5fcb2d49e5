-- ===== src/Guard/Examples.antt =====
-- The theorems about the guard at concrete inputs.
use mathlib.Core.List.{flatten}
use gas_station.Base.{
  false, has, arith, starts_with, String, true, ◌&&◌, none, some, List, [], ◌∷◌, ◌++◌, ◌≡◌, ◌≢◌,
  ◌≤◌, refl, any, keep, length, if◌then◌else◌,
}
use gas_station.Guard.Tests.{machine}
use gas_station.Guard.Lexer.{tokenize}
use gas_station.Guard.Lexer.Quoting.{command_line, tokenize-command_line}
use gas_station.Guard.Pipelines.{Pipeline, is_pipe, is_separator, shell_pipelines}
use gas_station.Guard.Pipelines.Words.{is_word, IsProper, flatten-shell_pipelines}
use gas_station.Guard.Pipelines.RoundTrip.{write_command, shell_pipelines-write_command}
use gas_station.Guard.Words.{executable_words}
use gas_station.Guard.Words.Wrappers.{
  Assignment, assign, ignore, unset, change_dir, Wrapping, through_command, through_env,
  executable_words-wrap,
}
use gas_station.Guard.Git.{git_operation, git_token, is_protected, protected_ref_destination}
use gas_station.Guard.Git.Written.{
  GlobalOption, setting, joined, separate, plain, git_dir, work_tree, no_pager, write_options,
  git_operation-write_options,
}
use gas_station.Guard.Git.Invocation.{GlobalOptions, done, flag, valued}
use gas_station.Guard.Push.{destructive_push_requested}
use gas_station.Guard.Push.Coverage.{destructive_push_requested-git_denial}
use gas_station.Guard.Push.Protected.{protected_ref_destination-written}
use gas_station.Guard.Rm.{is_recursive, is_forced, is_broad_target, rm_denial}
use gas_station.Guard.Rm.Flags.{has_flag, targets_of, rm_denial-flags}
use gas_station.Guard.Reason.{hard_reset, force_push_to, broad_deletion, malformed_command}
use gas_station.Guard.Brace.{brace_alternatives, unfinished}
use gas_station.Guard.Brace.Termination.{brace_alternatives_ends}
use gas_station.Guard.Brace.Bounds.{brace_alternatives-bound}
use gas_station.Guard.Shell.{is_shell}
use gas_station.Guard.Denial.{denial_within, denial_reason}
use gas_station.Guard.Denial.Depth.{denial_within-suc}
use gas_station.Guard.Denial.Shells.{
  wrapped, wrapped_times, denial_within-wrapped, denial_reason-four_shells,
}
use gas_station.Guard.Denial.HardReset.{hard_reset-denied, protected_push-denied}

tokenize-command_line_example :
    tokenize (command_line ("it's" ∷ "" ∷ "a b" ∷ [])) ≡ some ("it's" ∷ "" ∷ "a b" ∷ [])
tokenize-command_line_example = tokenize-command_line ("it's" ∷ "" ∷ "a b" ∷ [])

abbrev two_lines : List Pipeline
two_lines = (("git" ∷ "log" ∷ []) ∷ ("head" ∷ []) ∷ []) ∷ (("ls" ∷ []) ∷ []) ∷ []

shell_pipelines-write_command_example : shell_pipelines (write_command two_lines) ≡ some two_lines
unfolding shell_pipelines
shell_pipelines-write_command_example =
    shell_pipelines-write_command two_lines ((tt, (tt, (tt, tt))), ((tt, (tt, tt)), tt))
      (((refl, (refl, tt)), ((refl, tt), tt)), (((refl, tt), tt), tt))

flatten-shell_pipelines_example :
    (ps : List Pipeline) × (shell_pipelines "a | b;;c" ≡ some ps)
    × (flatten (flatten ps) ≡ keep is_word ("a" ∷ "|" ∷ "b" ∷ ";;" ∷ "c" ∷ []))
    × IsProper ps
unfolding tokenize
flatten-shell_pipelines_example =
    flatten-shell_pipelines "a | b;;c" ("a" ∷ "|" ∷ "b" ∷ ";;" ∷ "c" ∷ []) refl

abbrev assigned : Assignment
assigned = record { first = "A"; name = "_1"; value = "x=y" }

abbrev wrappings : List Wrapping
wrappings =
    through_command 2 true
    ∷ through_env (ignore ∷ assign assigned ∷ unset "B" ∷ change_dir "d" ∷ []) false
    ∷ through_command 0 false
    ∷ []

executable_words-wrap_example :
    executable_words (
      "A_1=x=y" ∷ "command" ∷ "-p" ∷ "-p" ∷ "--" ∷ "env" ∷ "-i" ∷ "A_1=x=y" ∷ "-u" ∷ "B" ∷ "-C"
      ∷ "d" ∷ "command" ∷ "git" ∷ "push" ∷ [])
    ≡ "git" ∷ "push" ∷ []
unfolding has
executable_words-wrap_example =
    executable_words-wrap (assigned ∷ []) wrappings "g" "it" ("push" ∷ []) ((refl, refl), tt)
      (tt, ((tt, ((refl, refl), (tt, (tt, tt)))), (tt, tt))) (omega arith) refl refl refl refl

abbrev in_dir : List String
in_dir = "-C" ∷ "sub" ∷ "--no-pager" ∷ []

in_dir-GlobalOptions : GlobalOptions in_dir
unfolding git_token
in_dir-GlobalOptions = valued "-C" "sub" refl (flag "--no-pager" refl done)

abbrev written : List GlobalOption
written = setting "user.name=a" ∷ joined git_dir "d" ∷ separate work_tree "w" ∷ plain no_pager ∷ []

git_operation-write_options_example :
    (git_operation ("git" ∷ (write_options written ++ "push" ∷ "-f" ∷ []))
      ≡ (some "push", "-f" ∷ []))
    × (git_operation ("git" ∷ (write_options written ++ "--" ∷ "push" ∷ "-f" ∷ []))
        ≡ (some "push", "-f" ∷ []))
unfolding starts_with
git_operation-write_options_example =
    git_operation-write_options "git" "push" written ("-f" ∷ []) refl

abbrev forced_main : List String
forced_main = "git" ∷ "push" ∷ "-f" ∷ "origin" ∷ "main" ∷ []

destructive_push_requested-git_denial_example : destructive_push_requested forced_main ≡ true
unfolding denial_reason
destructive_push_requested-git_denial_example =
    destructive_push_requested-git_denial machine forced_main "/repo" (force_push_to "main") refl
      refl

protected_ref_destination-written_example :
    protected_ref_destination "+HEAD:refs/heads/main" ≡ some "main"
unfolding is_protected
protected_ref_destination-written_example =
    protected_ref_destination-written "+HEAD" "main" true refl

rm_denial-flags_example : rm_denial machine ("rm" ∷ "-r" ∷ "--force" ∷ "/" ∷ []) "/repo" ≡ (
    if has_flag is_recursive ("-r" ∷ "--force" ∷ "/" ∷ [])
      && has_flag is_forced ("-r" ∷ "--force" ∷ "/" ∷ [])
      && any (is_broad_target machine "/repo") (targets_of ("-r" ∷ "--force" ∷ "/" ∷ []))
    then some broad_deletion
    else none)
rm_denial-flags_example = rm_denial-flags machine "rm" ("-r" ∷ "--force" ∷ "/" ∷ []) "/repo"

brace_alternatives-bound_example : length {A = String} ("a1" ∷ "a2" ∷ []) ≤ 64
unfolding brace_alternatives
brace_alternatives-bound_example =
    brace_alternatives-bound machine "a{1..2}" ("a1" ∷ "a2" ∷ []) refl

denial_within-suc_example : denial_within machine 1 "ls" "/repo" ≡ none
unfolding denial_reason
denial_within-suc_example = denial_within-suc machine 0 "ls" "/repo" refl

denial_within-wrapped_example :
    denial_within machine 1 (wrapped "sh" "git reset --hard") "/repo" ≡ some hard_reset
unfolding denial_reason is_shell is_pipe is_separator
denial_within-wrapped_example =
    denial_within-wrapped machine "sh" "git reset --hard" refl refl 0 "/repo" hard_reset refl

denial_reason-four_shells_example :
    denial_reason machine (wrapped_times 4 "sh" "ls") "/repo" 0 ≡ some malformed_command
unfolding is_shell is_pipe is_separator
denial_reason-four_shells_example = denial_reason-four_shells machine "sh" "ls" "/repo" refl refl

-- A command in three shells is checked.
three_shells :
    (denial_reason machine (wrapped_times 3 "sh" "ls") "/repo" 0 ≡ none)
    × (denial_reason machine (wrapped_times 3 "sh" "git reset --hard") "/repo" 0 ≡ some hard_reset)
unfolding denial_reason write_command
three_shells = (refl, refl)

hard_reset-denied_example :
    denial_within machine 3 "ls; git -C sub --no-pager reset --hard" "/repo" ≢ none
unfolding denial_reason git_token
hard_reset-denied_example =
    hard_reset-denied machine 3 "ls; git -C sub --no-pager reset --hard" "/repo"
      ((("ls" ∷ []) ∷ []) ∷ []) [] [] [] ("git" ∷ (in_dir ++ "reset" ∷ "--hard" ∷ [])) "git" in_dir
      ("--hard" ∷ []) refl refl refl in_dir-GlobalOptions refl

protected_push-denied_example :
    denial_within machine 3 "ls; git -C sub --no-pager push -f origin main" "/repo" ≢ none
unfolding denial_reason git_token
protected_push-denied_example =
    protected_push-denied machine 3 "ls; git -C sub --no-pager push -f origin main" "/repo"
      ((("ls" ∷ []) ∷ []) ∷ []) [] [] []
      ("git" ∷ (in_dir ++ "push" ∷ "-f" ∷ "origin" ∷ "main" ∷ [])) "git" in_dir
      ("-f" ∷ "origin" ∷ "main" ∷ []) [] [] "main" "main" refl refl refl in_dir-GlobalOptions refl
      refl refl refl

brace_alternatives_ends_example : brace_alternatives machine "{a,b{c,d}}" ≢ unfinished
brace_alternatives_ends_example = brace_alternatives_ends machine "{a,b{c,d}}"
