-- ===== src/Guard/Denial/Shells.antt =====
-- Commands in nested shells, for `denial_reason` of scripts/agent/pre_tool_policy.py.
use gas_station.Base.{
  ℕ, zero, suc, String, true, false, none, some, [], ◌∷◌, ◌≡◌, refl, ap, arith, inl, inr, ◌⊎◌,
  eq_iff,
}
use gas_station.Guard.Host.{Host}
use gas_station.Guard.Pipelines.{Segment, Pipeline, is_pipe, is_separator, shell_pipelines}
use gas_station.Guard.Pipelines.RoundTrip.{
  write_command, write_command-IsWord, IsWord, shell_pipelines-write_command,
}
use gas_station.Guard.Words.{executable_words}
use gas_station.Guard.Shell.{nested, nested_shell_command, is_shell}
use gas_station.Guard.Reason.{Reason, malformed_command}
use gas_station.Guard.Denial.{
  Cwd, denied, nested_rule, check_segment, check_segments, check_pipelines, check_command,
  denial_within, denial_reason, reason_of,
}
use gas_station.Guard.Denial.Depth.{Check}

-- `sh -c command`
abbrev pub shell_line : String → String → Segment
shell_line shell command = shell ∷ "-c" ∷ command ∷ []

shells : (s : String) → is_shell s ≡ true → (s ≡ "bash") ⊎ (s ≡ "sh") ⊎ (s ≡ "zsh")
unfolding is_shell
shells s h = ground (arith, eq_iff s "bash", eq_iff s "sh", eq_iff s "zsh")

nested-shell_line :
    (shell command : String)
    → is_shell shell ≡ true
    → nested_shell_command (executable_words (shell_line shell command)) ≡ nested command
unfolding executable_words nested_shell_command
nested-shell_line shell command h = elim (shells shell h) [
  | inl e ↦ rw e
  | inr (inl e) ↦ rw e
  | inr (inr e) ↦ rw e
]

shell-IsWord : (shell : String) → is_shell shell ≡ true → IsWord shell
unfolding is_pipe is_separator
shell-IsWord shell h = elim (shells shell h) [
  | inl e ↦ rw e
  | inr (inl e) ↦ rw e
  | inr (inr e) ↦ rw e
]

-- The command line that runs `command` in a shell, each word in quotes.
abbrev pub wrapped : String → String → String
wrapped shell command = write_command ((shell_line shell command ∷ []) ∷ [])

module _ (host : Host) (shell command : String) (sh : is_shell shell ≡ true)
    (word : IsWord command) where
  wrapped-pipelines :
      shell_pipelines (wrapped shell command) ≡ some ((shell_line shell command ∷ []) ∷ [])
  unfolding is_pipe is_separator
  wrapped-pipelines =
      shell_pipelines-write_command _ ((tt, (tt, tt)), tt)
        (((shell-IsWord shell sh, (refl, (word, tt))), tt), tt)

  check_line :
      (run : Check) (p : Pipeline) (cwd : Cwd) (r : Reason)
      → nested_rule host run (nested command) cwd.active ≡ some r
      → check_segment host run p [] (shell_line shell command) cwd ≡ denied r
  unfolding check_segment
  check_line run p cwd r e = rw (nested-shell_line shell command sh, check_segment) (rw e)

  check_lines :
      (run : Check) (cwd : Cwd) (r : Reason)
      → nested_rule host run (nested command) cwd.active ≡ some r
      → check_pipelines host run ((shell_line shell command ∷ []) ∷ []) cwd ≡ denied r
  unfolding check_pipelines check_segments
  check_lines run cwd r e = rw (check_line run _ cwd r e, check_pipelines, check_segments)

  check_wrapped :
      (run : Check) (cwd : String) (r : Reason)
      → nested_rule host run (nested command) cwd ≡ some r
      → check_command host run (wrapped shell command) cwd ≡ some r
  unfolding check_command
  check_wrapped run cwd r e =
      rw (wrapped-pipelines, check_command)
        (ap reason_of (check_lines run (record { active = cwd; unresolved = false }) r e))

  -- What is denied is denied with the same reason in a nested shell, where one more is allowed.
  pub denial_within-wrapped :
      (left : ℕ) (cwd : String) (r : Reason)
      → denial_within host left command cwd ≡ some r
      → denial_within host (suc left) (wrapped shell command) cwd ≡ some r
  unfolding denial_within nested_rule
  denial_within-wrapped left cwd r e = check_wrapped (some (denial_within host left)) cwd r e

  too_deep :
      (cwd : String) → denial_within host 0 (wrapped shell command) cwd ≡ some malformed_command
  unfolding denial_within nested_rule
  too_deep cwd = check_wrapped none cwd malformed_command refl

-- The command line that runs `command` in so many shells, one in the other.
abbrev pub wrapped_times : ℕ → String → String → String
wrapped_times zero shell command = command
wrapped_times (suc n) shell command = wrapped shell (wrapped_times n shell command)

wrapped_times-IsWord :
    (n : ℕ) (shell command : String) → IsWord command → IsWord (wrapped_times n shell command)
wrapped_times-IsWord zero shell command word = word
wrapped_times-IsWord (suc n) shell command word =
    write_command-IsWord shell ("-c" ∷ wrapped_times n shell command ∷ [])

one_too_many :
    (host : Host) (left : ℕ) (shell command cwd : String)
    → is_shell shell ≡ true
    → IsWord command
    → denial_within host left (wrapped_times (suc left) shell command) cwd ≡ some malformed_command
one_too_many host zero shell command cwd sh word = too_deep host shell command sh word cwd
one_too_many host (suc left) shell command cwd sh word =
    denial_within-wrapped host shell (wrapped_times (suc left) shell command) sh
      (wrapped_times-IsWord (suc left) shell command word) left cwd malformed_command
      (one_too_many host left shell command cwd sh word)

-- A command that is no operator is denied as malformed where it stands in four shells, one in the
-- other, whatever it is.
pub denial_reason-four_shells :
    (host : Host) (shell command cwd : String)
    → is_shell shell ≡ true
    → IsWord command
    → denial_reason host (wrapped_times 4 shell command) cwd 0 ≡ some malformed_command
unfolding denial_reason
denial_reason-four_shells host shell command cwd sh word =
    one_too_many host 3 shell command cwd sh word
