-- ===== src/Guard/Tests.antt =====
-- Runs of the guard on a small machine, and the theorems at concrete inputs.
use gas_station.Base.{
  String, true, false, Option, none, some, List, [], ◌∷◌, ◌≡◌, refl, if◌then◌else◌, ◌==◌, one_of,
  starts_with,
}
use gas_station.Guard.Host.{Host, Completed, nonzero, output}
use gas_station.Guard.Reason.{
  Reason, hard_reset, force_push_to, broad_force_push, broad_deletion, printed_secret,
  dropped_table, malformed_command, unresolved_cwd, broad_restore,
}
use gas_station.Guard.Pipelines.{shell_pipelines}
use gas_station.Guard.Denial.{denial_reason}
use gas_station.Guard.Glob.{fnmatchcase}
use gas_station.Guard.Brace.{alternatives, refused, brace_alternatives}

-- A machine with the repository /repo, whose HEAD is on main, and the home directory /home/u.
abbrev pub git : List String → Completed
git args =
    if one_of "rev-parse" args
    then output "/repo"
    else if one_of "symbolic-ref" args
    then output "main"
    else nonzero

abbrev pub machine : Host
machine = record {
  realpath = λ p. p;
  expanduser = λ p. if p == "~" then "/home/u" else p;
  expandvars = λ p. p;
  is_dir = λ p. starts_with p "/repo";
  list_dir = λ p. some ("a.txt" ∷ ".env" ∷ []);
  run = git;
  unicode_word = λ c. false;
  unicode_digit = λ c. none;
}

denial : String → Option Reason
unfolding denial_reason
denial command = denial_reason machine command "/repo" 0

pipelines_read :
    shell_pipelines "git log | head -3; echo 'a;b' \"c d\""
    ≡ some (
        (("git" ∷ "log" ∷ []) ∷ ("head" ∷ "-3" ∷ []) ∷ [])
        ∷ (("echo" ∷ "a;b" ∷ "c d" ∷ []) ∷ [])
        ∷ [])
unfolding shell_pipelines
pipelines_read = refl

braces :
    brace_alternatives machine "{.env,local{1..2}}.p"
    ≡ alternatives (".env.p" ∷ "local1.p" ∷ ".env.p" ∷ "local2.p" ∷ [])
unfolding brace_alternatives
braces = refl

sequences :
    (brace_alternatives machine "{08..11..2}" ≡ alternatives ("08" ∷ "10" ∷ []))
    × (brace_alternatives machine "{c..a}" ≡ alternatives ("c" ∷ "b" ∷ "a" ∷ []))
    × (brace_alternatives machine "{1..100}" ≡ refused)
    × (brace_alternatives machine "{-1..1}" ≡ alternatives ("-1" ∷ "0" ∷ "1" ∷ []))
unfolding brace_alternatives
sequences = (refl, refl, refl, refl)

globs :
    (fnmatchcase ".env" ".e?v" ≡ true)
    × (fnmatchcase ".env.local" "*.lo[a-c]al" ≡ true)
    × (fnmatchcase ".env" "[!.]env" ≡ false)
    × (fnmatchcase "local.properties" "*prop*s" ≡ true)
unfolding fnmatchcase
globs = (refl, refl, refl, refl)

git_runs :
    (denial "git reset --hard" ≡ some hard_reset)
    × (denial "git -C sub push -f origin HEAD:main" ≡ some (force_push_to "main"))
    × (denial "git push --force" ≡ some (force_push_to "main"))
    × (denial "git push --force origin feature" ≡ none)
    × (denial "env A=1 command git push -f origin '*'" ≡ some broad_force_push)
    × (denial "cd /tmp && git push -f origin feature" ≡ some unresolved_cwd)
    × (denial "git restore ." ≡ some broad_restore)
unfolding denial
git_runs = (refl, refl, refl, refl, refl, refl, refl)

other_runs :
    (denial "rm -rf /repo" ≡ some broad_deletion)
    × (denial "rm -rf /repo/build" ≡ none)
    × (denial "cat .env" ≡ some printed_secret)
    × (denial "cat '.e*'" ≡ some printed_secret)
    × (denial "grep -q KEY .env" ≡ none)
    × (denial "echo 'drop  table t' | psql" ≡ some dropped_table)
    × (denial "bash -c 'git reset --hard'" ≡ some hard_reset)
    × (denial "echo 'open" ≡ some malformed_command)
unfolding denial
other_runs = (refl, refl, refl, refl, refl, refl, refl, refl)

-- A quoted operator is taken for a separator, and a fifth wrapper for the executable.
evasions :
    (denial "rm ';' -rf /repo" ≡ none)
    × (denial "command command command command command rm -rf /repo" ≡ none)
unfolding denial
evasions = (refl, refl)
