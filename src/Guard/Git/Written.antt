-- ===== src/Guard/Git/Written.antt =====
-- Command lines of `git` with global options as its manual names them, for `git_operation` of
-- scripts/agent/pre_tool_policy.py.
use text.Mathlib.TextLemmas.{cons-append, nil-append}
use gas_station.Base.{
  All-one_of, String, ◌<>◌, Bool, true, false, ◌||◌, some, List, [], ◌∷◌, ◌++◌, ◌==◌, ◌≡◌, refl,
  sym, ◌∙◌, has, same, before, starts_with, eq_iff, Bool-cases, inl, inr, arith,
}
use gas_station.Guard.Words.{option_name}
use gas_station.Guard.Git.{
  operand, skip, skip_value, takes_value, git_token, first_word, git_scan, git_operation,
}
use gas_station.Guard.Git.Invocation.{
  GlobalOptions, done, flag, valued, git_scan-options, git_operation-options,
}

-- The options of a name and a value.
pub data ValueName : Type 0 where
  git_dir work_tree namespace config_env : ValueName

abbrev pub value_name : ValueName → String
value_name git_dir = "--git-dir"
value_name work_tree = "--work-tree"
value_name namespace = "--namespace"
value_name config_env = "--config-env"

-- The options without a value.
pub data FlagName : Type 0 where
  paginate no_pager bare no_replace_objects literal_pathspecs no_optional_locks : FlagName

abbrev pub flag_name : FlagName → String
flag_name paginate = "-p"
flag_name no_pager = "--no-pager"
flag_name bare = "--bare"
flag_name no_replace_objects = "--no-replace-objects"
flag_name literal_pathspecs = "--literal-pathspecs"
flag_name no_optional_locks = "--no-optional-locks"

pub data GlobalOption : Type 0 where
  directory setting : String → GlobalOption
  separate joined : ValueName → String → GlobalOption
  plain : FlagName → GlobalOption

-- The words of the options.
abbrev pub write_options : List GlobalOption → List String
write_options [] = []
write_options (directory path ∷ options) = "-C" ∷ path ∷ write_options options
write_options (setting value ∷ options) = "-c" ∷ value ∷ write_options options
write_options (separate name value ∷ options) = value_name name ∷ value ∷ write_options options
write_options (joined name value ∷ options) =
    (value_name name <> String.◌∷◌ "=" value) ∷ write_options options
write_options (plain name ∷ options) = flag_name name ∷ write_options options

before-append :
    (name value : String) → has "=" name ≡ false → before "=" (name <> String.◌∷◌ "=" value) ≡ name
unfolding before has
before-append String.[] value h = rw nil-append refl
before-append (String.◌∷◌ c name) value h =
    let (other, rest) = both_false (same c "=") (has "=" name) h in
    rw (cons-append, before, other, before-append name value rest) refl
  where
    both_false : (b d : Bool) → (b || d) ≡ false → (b ≡ false) × (d ≡ false)
    both_false true d e = cc
    both_false false d e = (refl, e)

has-append : (name value : String) → has "=" (name <> String.◌∷◌ "=" value) ≡ true
unfolding has
has-append String.[] value = rw nil-append refl
has-append (String.◌∷◌ c name) value = rw (cons-append, has, has-append name value) (ground arith)

git_token-joined :
    (name : ValueName) (value : String) → git_token (value_name name <> String.◌∷◌ "=" value) ≡ skip
unfolding git_token option_name takes_value
git_token-joined name value = of name
  where
    of : (n : ValueName) → git_token (value_name n <> String.◌∷◌ "=" value) ≡ skip
    of git_dir = rw (before-append "--git-dir" value refl, has-append "--git-dir" value) refl
    of work_tree = rw (before-append "--work-tree" value refl, has-append "--work-tree" value) refl
    of namespace = rw (before-append "--namespace" value refl, has-append "--namespace" value) refl
    of config_env =
        rw (before-append "--config-env" value refl, has-append "--config-env" value) refl

write_options-GlobalOptions : (options : List GlobalOption) → GlobalOptions (write_options options)
unfolding git_token option_name takes_value
write_options-GlobalOptions [] = done
write_options-GlobalOptions (directory path ∷ options) =
    valued "-C" path refl (write_options-GlobalOptions options)
write_options-GlobalOptions (setting value ∷ options) =
    valued "-c" value refl (write_options-GlobalOptions options)
write_options-GlobalOptions (separate name value ∷ options) =
    valued (value_name name) value (takes name) (write_options-GlobalOptions options)
  where
    takes : (n : ValueName) → git_token (value_name n) ≡ skip_value
    takes git_dir = refl
    takes work_tree = refl
    takes namespace = refl
    takes config_env = refl
write_options-GlobalOptions (joined name value ∷ options) =
    flag _ (git_token-joined name value) (write_options-GlobalOptions options)
write_options-GlobalOptions (plain name ∷ options) =
    flag (flag_name name) (alone name) (write_options-GlobalOptions options)
  where
    alone : (n : FlagName) → git_token (flag_name n) ≡ skip
    alone paginate = refl
    alone no_pager = refl
    alone bare = refl
    alone no_replace_objects = refl
    alone literal_pathspecs = refl
    alone no_optional_locks = refl

starts_with-before :
    (word : String) → starts_with (before "=" word) "-" ≡ true → starts_with word "-" ≡ true
unfolding before starts_with
starts_with-before String.[] h = cc
starts_with-before (String.◌∷◌ c word) h = elim (Bool-cases (same c "=")) [
  | inl e ↦ cc (rw e at h)
  | inr n ↦ rw n at h
]

operation-operand :
    (operation : String) → starts_with operation "-" ≡ false → git_token operation ≡ operand
unfolding git_token takes_value option_name
operation-operand operation h = rw (no_value, no_mark, h) refl
  where
    no_value : takes_value (option_name operation) ≡ false
    no_value = elim (Bool-cases (takes_value (option_name operation))) [
      | inr n ↦ n
      | inl e ↦
          let dashed =
            All-one_of (λ name. starts_with name "-" ≡ true) (option_name operation)
              ("-C" ∷ "-c" ∷ "--config-env" ∷ "--exec-path" ∷ "--git-dir" ∷ "--namespace"
                ∷ "--super-prefix" ∷ "--work-tree" ∷ [])
              (refl, (refl, (refl, (refl, (refl, (refl, (refl, (refl, tt)))))))) e in
          cc (sym (starts_with-before operation dashed) ∙ h)
    ]

    no_mark : (operation == "--") ≡ false
    no_mark = elim (Bool-cases (operation == "--")) [
      | inr n ↦ n
      | inl e ↦
          let same : operation ≡ "--" = (eq_iff operation "--").0 e in
          let plain : starts_with "--" "-" ≡ false = rw same at h in cc plain
    ]

-- Behind global options, given as the manual of git names them, a word that starts with no "-" is
-- read as the operation and the words behind it as its arguments, and so they are behind a "--".
pub git_operation-write_options :
    (git operation : String) (options : List GlobalOption) (args : List String)
    → starts_with operation "-" ≡ false
    → (git_operation (git ∷ (write_options options ++ operation ∷ args)) ≡ (some operation, args))
      × (git_operation (git ∷ (write_options options ++ "--" ∷ operation ∷ args))
          ≡ (some operation, args))
unfolding git_operation git_scan git_token first_word takes_value option_name
git_operation-write_options git operation options args h =
    let read = write_options-GlobalOptions options in
    (
      git_operation-options git operation (write_options options) args read
          (operation-operand operation h),
      git_scan-options ("--" ∷ operation ∷ args) read ∙ marked,
    )
  where
    marked : git_scan false ("--" ∷ operation ∷ args) ≡ (some operation, args)
    marked = refl
