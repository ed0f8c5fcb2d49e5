-- ===== src/Guard/Denial/HardReset.antt =====
-- Hard resets and forced pushes in the commands that `denial_reason` of
-- scripts/agent/pre_tool_policy.py checks.
use gas_station.Base.{
  ℕ, String, true, false, ◌||◌, none, some, List, ◌∷◌, ◌++◌, ◌≡◌, ◌≢◌, refl, ◌∙◌, any, one_of,
}
use gas_station.Guard.Host.{Host}
use gas_station.Guard.Pipelines.{Segment, Pipeline, shell_pipelines}
use gas_station.Guard.Words.{executable_words, executable_name, command_name}
use gas_station.Guard.Git.{is_operation, git_token, protected_ref_destination}
use gas_station.Guard.Git.Invocation.{GlobalOptions, git_operation-options}
use gas_station.Guard.Push.{git_denial, is_dry, is_force, is_plus, refspecs_of}
use gas_station.Guard.Push.Operations.{rule, operation_of, git_denial-rule}
use gas_station.Guard.Push.Protected.{git_denial-protected}
use gas_station.Guard.Reason.{hard_reset}
use gas_station.Guard.Denial.{denial_within}
use gas_station.Guard.Denial.Anywhere.{denial_within-git}

module _ (host : Host) (git : String) (options args : List String)
    (os : GlobalOptions options) where
  reset-denied :
      (cwd : String)
      → one_of "--hard" args ≡ true
      → git_denial host (git ∷ (options ++ "reset" ∷ args)) cwd ≡ some hard_reset
  unfolding operation_of rule git_token
  reset-denied cwd h =
      git_denial-rule host _ cwd
      ∙ rw (git_operation-options git "reset" options args os refl) (rw h)

  push-denied :
      (cwd : String) (xs ys : List String) (r b : String)
      → any is_dry args ≡ false
      → refspecs_of args ≡ xs ++ r ∷ ys
      → protected_ref_destination r ≡ some b
      → (any is_force args || is_plus r) ≡ true
      → git_denial host (git ∷ (options ++ "push" ∷ args)) cwd ≢ none
  unfolding git_token is_operation
  push-denied cwd xs ys r b dry at d f =
      let e = git_operation-options git "push" options args os refl in
      git_denial-protected host _ cwd xs ys r b (rw e) (rw e dry) (rw e at) d (rw e f)

-- A segment that runs `git`, behind any assignments and wrappers, with an operation.
abbrev Runs : String → List String → String → List String → Segment → Type 0
Runs git options operation args s =
    (executable_words s ≡ git ∷ (options ++ operation ∷ args)) × (command_name git ≡ "git")

Runs-name :
    (git : String) (options : List String) (operation : String) (args : List String) (s : Segment)
    → Runs git options operation args s
    → executable_name (executable_words s) ≡ "git"
unfolding executable_name
Runs-name git options operation args s (e, g) = rw (e, g)

-- A command is denied if one of its segments runs git with any global options, the operation
-- `reset` and the argument `--hard`.
pub hard_reset-denied :
    (host : Host) (left : ℕ) (command cwd : String) (ps qs : List Pipeline) (xs ys : List Segment)
    (s : Segment) (git : String) (options args : List String)
    → shell_pipelines command ≡ some (ps ++ (xs ++ s ∷ ys) ∷ qs)
    → executable_words s ≡ git ∷ (options ++ "reset" ∷ args)
    → command_name git ≡ "git"
    → GlobalOptions options
    → one_of "--hard" args ≡ true
    → denial_within host left command cwd ≢ none
hard_reset-denied host left command cwd ps qs xs ys s git options args p e g os h =
    denial_within-git host left command cwd ps qs xs ys s p
      (Runs-name git options "reset" args s (e, g))
      λ d n. cc (rw e at n, reset-denied host git options args os d h)

-- A command is denied if one of its segments runs git with any global options and the operation
-- `push`, with no dry run, and a refspec with a protected destination is forced.
pub protected_push-denied :
    (host : Host) (left : ℕ) (command cwd : String) (ps qs : List Pipeline) (xs ys : List Segment)
    (s : Segment) (git : String) (options args before after : List String) (r b : String)
    → shell_pipelines command ≡ some (ps ++ (xs ++ s ∷ ys) ∷ qs)
    → executable_words s ≡ git ∷ (options ++ "push" ∷ args)
    → command_name git ≡ "git"
    → GlobalOptions options
    → any is_dry args ≡ false
    → refspecs_of args ≡ before ++ r ∷ after
    → protected_ref_destination r ≡ some b
    → (any is_force args || is_plus r) ≡ true
    → denial_within host left command cwd ≢ none
protected_push-denied host left command cwd ps qs xs ys s git options args before after r b p e g os
      dry at d f =
    denial_within-git host left command cwd ps qs xs ys s p
      (Runs-name git options "push" args s (e, g))
      λ c n. push-denied host git options args os c before after r b dry at d f (rw e at n)
