-- ===== src/Guard/Git.antt =====
-- The git rules of scripts/agent/pre_tool_policy.py: the operation of a `git` command line, the
-- directory that it runs in, the branches and paths that are protected, and `git_denial`.
pub mod Invocation
pub mod Written
use gas_station.Base.{
  Char, String, ◌<>◌, Bool, true, false, not, ◌&&◌, ◌||◌, Option, none, some, List, [], ◌∷◌, ◌++◌,
  ◌==◌, if◌then◌else◌, ltb, eq_nat, any, all, keep, map, has, same, one_of, starts_with, size,
  suffix_from, before, after?, after_last?, or_else_text, count_char, lstrip, split, strip,
}
use gas_station.Guard.Host.{
  Host, Completed, raised, nonzero, output, resolve, git_repo_root, glob_prefix, normpath,
  path_contains,
}
use gas_station.Guard.Words.{option_name, is_option}

unfoldable pub takes_value : String → Bool
unfolding one_of
takes_value name = one_of name (
    "-C" ∷ "-c" ∷ "--config-env" ∷ "--exec-path" ∷ "--git-dir" ∷ "--namespace" ∷ "--super-prefix"
    ∷ "--work-tree" ∷ [])

pub data GitToken : Type 0 where
  skip skip_value end_mark operand : GitToken

unfoldable pub git_token : String → GitToken
unfolding option_name takes_value has starts_with
git_token token =
    if takes_value (option_name token)
    then (if has "=" token then skip else skip_value)
    else if token == "--"
    then end_mark
    else if is_option token
    then skip
    else operand

-- The operation among the words behind a `--`.
unfoldable pub first_word : List String → Option String × List String
first_word [] = (none, [])
first_word (w ∷ ws) = (some w, ws)

-- The loop over the words behind `git`; the flag is set where a global option waits for its value.
unfoldable pub git_scan : Bool → List String → Option String × List String
unfolding git_token first_word
git_scan waits [] = (none, [])
git_scan true (w ∷ ws) = git_scan false ws
git_scan false (w ∷ ws) = elim (git_token w) [
  | skip ↦ git_scan false ws
  | skip_value ↦ git_scan true ws
  | end_mark ↦ first_word ws
  | operand ↦ (some w, ws)
]

unfoldable pub git_operation : List String → Option String × List String
unfolding git_scan
git_operation [] = (none, [])
git_operation (git ∷ ws) = git_scan false ws

-- `operation == name`
unfoldable pub is_operation : Option String → String → Bool
is_operation none name = false
is_operation (some w) name = w == name

unfoldable pub short_option_has : String → Char → Bool
unfolding starts_with has suffix_from
short_option_has token option =
    starts_with token "-" && not (starts_with token "--") && has option (suffix_from 1 token)

unfoldable pub is_protected : String → Bool
unfolding one_of
is_protected name = one_of name ("main" ∷ "master" ∷ "trunk" ∷ [])

unfoldable pub without_prefix : String → String → String
unfolding starts_with size suffix_from
without_prefix p s = if starts_with s p then suffix_from (size p) s else s

unfoldable pub protected_ref_destination : String → Option String
unfolding without_prefix after_last? or_else_text is_protected
protected_ref_destination refspec =
    let plain = without_prefix "+" refspec in
    let destination = or_else_text (after_last? ":" plain) plain in
    let branch = without_prefix "refs/heads/" destination in
    if is_protected branch then some branch else none

pub data CwdToken : Type 0 where
  directory skip skip_value operand : CwdToken
  joined : String → CwdToken

unfoldable pub cwd_token : String → CwdToken
unfolding starts_with size suffix_from option_name takes_value has
cwd_token token =
    if token == "-C"
    then directory
    else if starts_with token "-C" && ltb 2 (size token)
    then joined (suffix_from 2 token)
    else if takes_value (option_name token)
    then (if has "=" token then skip else skip_value)
    else if is_option token
    then skip
    else operand

pub data Expected : Type 0 where
  any_word a_directory a_value : Expected

module _ (host : Host) where
  unfoldable pub cwd_scan : Expected → String → List String → String
  unfolding cwd_token resolve
  cwd_scan expected cwd [] = cwd
  cwd_scan a_directory cwd (w ∷ ws) = cwd_scan any_word (resolve host cwd w) ws
  cwd_scan a_value cwd (w ∷ ws) = cwd_scan any_word cwd ws
  cwd_scan any_word cwd (w ∷ ws) = elim (cwd_token w) [
    | directory ↦ cwd_scan a_directory cwd ws
    | joined d ↦ cwd_scan any_word (resolve host cwd d) ws
    | skip ↦ cwd_scan any_word cwd ws
    | skip_value ↦ cwd_scan a_value cwd ws
    | operand ↦ cwd
  ]

  unfoldable pub git_command_cwd : List String → String → String
  unfolding cwd_scan
  git_command_cwd [] cwd = cwd
  git_command_cwd (git ∷ ws) cwd = cwd_scan any_word cwd ws

unfoldable pub upstream_branch : String → Option String
unfolding without_prefix count_char after? or_else_text is_protected
upstream_branch name =
    let candidate = without_prefix "refs/remotes/" name in
    let branch = or_else_text (after? "/" candidate) candidate in
    if eq_nat (count_char "/" candidate) 1 && is_protected branch then some branch else none

unfoldable pub protected_branch : String → Bool → Option String
unfolding strip without_prefix is_protected upstream_branch
protected_branch branch upstream =
    let candidate = without_prefix "refs/heads/" (strip branch) in
    if is_protected candidate
    then some candidate
    else if upstream
    then upstream_branch candidate
    else none

-- `(.*)$`: the text up to a final newline, if it holds no other
unfoldable pub to_line_end : String → Option String
to_line_end String.[] = some String.[]
to_line_end (String.◌∷◌ c s) =
    let rest : Option String = elim (to_line_end s) [
      | none ↦ none
      | some t ↦ some (String.◌∷◌ c t)
    ] in
    if same c "\n" then (if s == "" then some String.[] else none) else rest

-- `re.match(r"^:\(([^)]*)\)(.*)$", pathspec)`: the attributes and the rest
unfoldable pub magic : String → Option (String × String)
unfolding starts_with suffix_from after? before to_line_end
magic pathspec =
    if starts_with pathspec ":("
    then (let inner = suffix_from 2 pathspec in
        elim (after? ")" inner) [
          | none ↦ none
          | some tail ↦ elim (to_line_end tail) [
            | none ↦ none
            | some rest ↦ some (before ")" inner, rest)
          ]
        ])
    else none

-- The directory that the pathspec is relative to, and what remains of it.
unfoldable pub pathspec_base : String → String → String → String × String
unfolding magic split strip starts_with suffix_from any
pathspec_base root cwd pathspec = elim (magic pathspec) [
  | some (attributes, rest) ↦
      (if any (λ a. strip a == "top") (split "," attributes) then root else cwd, rest)
  | none ↦ if starts_with pathspec ":/" then (root, suffix_from 2 pathspec) else (cwd, pathspec)
]

module _ (host : Host) where
  abbrev covers_root : String → String → String → Bool
  covers_root root base pathspec =
      let (prefix, has_glob) = glob_prefix pathspec in
      has_glob && path_contains (resolve host base prefix) root

  unfoldable pub broad_restore_target : String → String → Bool
  unfolding normpath git_repo_root pathspec_base glob_prefix path_contains resolve
  broad_restore_target token cwd =
      if token == ":/" || normpath token == "." then true else elim (git_repo_root host cwd) [
        | none ↦ false
        | some root ↦
            let (base, pathspec) = pathspec_base root cwd token in covers_root root base pathspec
      ]

  -- The branch that HEAD names, unless git fails.
  unfoldable pub current_or_upstream_protected : String → Option String
  unfolding protected_branch strip
  current_or_upstream_protected cwd =
      elim (host.run ("git" ∷ "-C" ∷ cwd ∷ "symbolic-ref" ∷ "--quiet" ∷ "--short" ∷ "HEAD" ∷ [])) [
        | raised ↦ none
        | nonzero ↦ none
        | output head ↦ elim (protected_branch (strip head) false) [
          | some branch ↦ some branch
          | none ↦
              elim (host.run (
                "git"
                ∷ "-C"
                ∷ cwd
                ∷ "config"
                ∷ "--get"
                ∷ ("branch." <> (strip head <> ".merge"))
                ∷ [])) [
                  | raised ↦ none
                  | nonzero ↦ none
                  | output merge ↦ protected_branch (strip merge) true
                ]
        ]
      ]
