-- ===== src/Guard/Git/Invocation.antt =====
-- Global options in front of the operation that `git_operation` of
-- scripts/agent/pre_tool_policy.py reads.
use gas_station.Base.{String, false, some, List, [], ◌∷◌, ◌++◌, ◌≡◌, refl, ◌∙◌}
use gas_station.Guard.Git.{skip, skip_value, operand, git_token, git_scan, git_operation}

-- Global options, each with its value behind it where it takes one.
pub data GlobalOptions : List String → Type 0 where
  done : GlobalOptions []
  flag :
      {ws : List String} (t : String)
      → git_token t ≡ skip
      → GlobalOptions ws
      → GlobalOptions (t ∷ ws)
  valued :
      {ws : List String} (t v : String)
      → git_token t ≡ skip_value
      → GlobalOptions ws
      → GlobalOptions (t ∷ v ∷ ws)

pub git_scan-options :
    {options : List String} (rest : List String)
    → GlobalOptions options
    → git_scan false (options ++ rest) ≡ git_scan false rest
unfolding git_scan
git_scan-options rest done = refl
git_scan-options rest (flag t e os) = rw (e, git_scan) (git_scan-options rest os)
git_scan-options rest (valued t v e os) = rw (e, git_scan) (git_scan-options rest os)

-- Behind global options the first word that is no option is the operation, and the words behind it
-- are its arguments.
pub git_operation-options :
    (git operation : String) (options args : List String)
    → GlobalOptions options
    → git_token operation ≡ operand
    → git_operation (git ∷ (options ++ operation ∷ args)) ≡ (some operation, args)
unfolding git_operation
git_operation-options git operation options args os e =
    git_scan-options (operation ∷ args) os ∙ rw (e, git_scan)
