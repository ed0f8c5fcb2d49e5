-- ===== src/Guard/Words/Wrappers.antt =====
-- Segments with assignments and wrappers in front of an executable, for `executable_words` of
-- scripts/agent/pre_tool_policy.py.
use gas_station.Base.{
  ℕ, zero, suc, ◌≤◌, Char, String, ◌<>◌, Bool, true, false, some, List, [], ◌∷◌, ◌==◌, ◌≡◌, refl,
  ◌∙◌, ap, arith, All, length, has, starts_with, one_of,
}
use gas_station.Guard.Words.{
  is_assignment, skip_assignments, skip_p, after_command, env_token, skip, command_word, after_env,
  wrapper_kind, plain, unwrap, executable_words, is_option, command_name, option_name,
}
use gas_station.Guard.Words.Names.{
  letters, name_chars, word_chars, is_made_of, is_assignment-append, word-plain, word-unassigned,
  word-unmarked, env_token-word, wrapper_kind-word,
}

-- `NAME=value`, where the name starts with a letter and has letters and digits.
pub record Assignment : Type 0 where
  pub first : Char
  pub name : String
  pub value : String

abbrev pub assignment_text : Assignment → String
assignment_text a = String.◌∷◌ a.first (a.name <> String.◌∷◌ "=" a.value)

abbrev pub IsAssignment : Assignment → Type 0
IsAssignment a = (has a.first letters ≡ true) × (is_made_of name_chars a.name ≡ true)

pub data EnvWord : Type 0 where
  assign : Assignment → EnvWord
  ignore : EnvWord
  unset change_dir : String → EnvWord

abbrev pub IsEnvWord : EnvWord → Type 0
IsEnvWord (assign a) = IsAssignment a
IsEnvWord _ = Unit

-- `command` with so many `-p`, or `env` with its words, and whether a `--` stands behind.
pub data Wrapping : Type 0 where
  through_command : ℕ → Bool → Wrapping
  through_env : List EnvWord → Bool → Wrapping

abbrev pub IsWrapping : Wrapping → Type 0
IsWrapping (through_command n mark) = Unit
IsWrapping (through_env words mark) = All IsEnvWord words

abbrev pub assignment_texts : List Assignment → List String → List String
assignment_texts [] rest = rest
assignment_texts (a ∷ others) rest = assignment_text a ∷ assignment_texts others rest

abbrev pub marked : Bool → List String → List String
marked true rest = "--" ∷ rest
marked false rest = rest

abbrev pub with_p : ℕ → List String → List String
with_p zero rest = rest
with_p (suc n) rest = "-p" ∷ with_p n rest

abbrev pub env_words : List EnvWord → List String → List String
env_words [] rest = rest
env_words (assign a ∷ words) rest = assignment_text a ∷ env_words words rest
env_words (ignore ∷ words) rest = "-i" ∷ env_words words rest
env_words (unset name ∷ words) rest = "-u" ∷ name ∷ env_words words rest
env_words (change_dir path ∷ words) rest = "-C" ∷ path ∷ env_words words rest

abbrev pub wrap : List Wrapping → List String → List String
wrap [] words = words
wrap (through_command n mark ∷ ws) words = "command" ∷ with_p n (marked mark (wrap ws words))
wrap (through_env own mark ∷ ws) words = "env" ∷ env_words own (marked mark (wrap ws words))

-- A word that may stand behind a wrapper, and is none of its options.
record IsCommandWord (w : String) : Type 0 where
  no_option : is_option w ≡ false
  no_p : (w == "-p") ≡ false
  no_mark : (w == "--") ≡ false
  no_assignment : is_assignment w ≡ false
  env_word : env_token w ≡ command_word

abbrev Begins : List String → Type 0
Begins words = (w : String) × (ws : List String) × (words ≡ w ∷ ws) × IsCommandWord w

wrap-Begins : (ws : List Wrapping) (words : List String) → Begins words → Begins (wrap ws words)
unfolding starts_with is_assignment env_token option_name one_of
wrap-Begins [] words h = h
wrap-Begins (through_command n mark ∷ ws) words h = (
  "command",
  _,
  refl,
  record { no_option = refl; no_p = refl; no_mark = refl; no_assignment = refl; env_word = refl },
)
wrap-Begins (through_env own mark ∷ ws) words h = (
  "env",
  _,
  refl,
  record { no_option = refl; no_p = refl; no_mark = refl; no_assignment = refl; env_word = refl },
)

skip_p-with_p :
    (n : ℕ) (mark : Bool) (words : List String)
    → Begins words
    → skip_p (with_p n (marked mark words)) ≡ marked mark words
unfolding skip_p
skip_p-with_p zero true words h = refl
skip_p-with_p zero false words (w, ws, e, h) = rw (e, skip_p, h.no_p) refl
skip_p-with_p (suc n) mark words h = skip_p-with_p n mark words h

after_command-marked :
    (mark : Bool) (words : List String)
    → Begins words
    → after_command (marked mark words) ≡ some words
unfolding after_command
after_command-marked true words h = refl
after_command-marked false words (w, ws, e, h) = rw (e, after_command, h.no_mark, h.no_option) refl

env_token-assignment : (a : Assignment) → IsAssignment a → env_token (assignment_text a) ≡ skip
unfolding env_token
env_token-assignment a h = rw (is_assignment-append a.first a.name a.value h.0 h.1) refl

after_env-words :
    (own : List EnvWord) (mark : Bool) (words : List String)
    → All IsEnvWord own
    → Begins words
    → after_env false (env_words own (marked mark words)) ≡ some words
unfolding after_env env_token
after_env-words [] true words h k = refl
after_env-words [] false words h (w, ws, e, k) = rw (e, after_env, k.env_word) refl
after_env-words (assign a ∷ own) mark words h k =
    rw (env_token-assignment a h.0, after_env) (after_env-words own mark words h.1 k)
after_env-words (ignore ∷ own) mark words h k = after_env-words own mark words h.1 k
after_env-words (unset name ∷ own) mark words h k = after_env-words own mark words h.1 k
after_env-words (change_dir path ∷ own) mark words h k = after_env-words own mark words h.1 k

unwrap-wrap :
    (n : ℕ) (ws : List Wrapping) (w : String) (args : List String)
    → length ws ≤ n
    → All IsWrapping ws
    → IsCommandWord w
    → wrapper_kind w ≡ plain
    → unwrap n (wrap ws (w ∷ args)) ≡ w ∷ args
unfolding unwrap wrapper_kind command_name
unwrap-wrap zero [] w args small h k e = refl
unwrap-wrap (suc n) [] w args small h k e = rw (unwrap, e) refl
unwrap-wrap zero (x ∷ ws) w args small h k e = absurd (omega (arith, small))
unwrap-wrap (suc n) (through_command p mark ∷ ws) w args small h k e =
    let begins = wrap-Begins ws (w ∷ args) (w, args, refl, k) in
    rw
      (
        unwrap,
        skip_p-with_p p mark (wrap ws (w ∷ args)) begins,
        after_command-marked mark (wrap ws (w ∷ args)) begins,
      )
      (unwrap-wrap n ws w args (omega (arith, small)) h.1 k e)
unwrap-wrap (suc n) (through_env own mark ∷ ws) w args small h k e =
    let begins = wrap-Begins ws (w ∷ args) (w, args, refl, k) in
    rw (unwrap, after_env-words own mark (wrap ws (w ∷ args)) h.0 begins)
      (unwrap-wrap n ws w args (omega (arith, small)) h.1 k e)

skip_assignments-texts :
    (assignments : List Assignment) (words : List String)
    → All IsAssignment assignments
    → Begins words
    → skip_assignments (assignment_texts assignments words) ≡ words
unfolding skip_assignments
skip_assignments-texts [] words h (w, ws, e, k) = rw (e, skip_assignments, k.no_assignment) refl
skip_assignments-texts (a ∷ others) words h k =
    rw (is_assignment-append a.first a.name a.value h.0.0 h.0.1, skip_assignments)
      (skip_assignments-texts others words h.1 k)

-- Behind assignments and at most four wrappers, `command` with any `-p` or `env` with assignments,
-- `-i`, `-u` and `-C`, and each with or without a "--", the executable words are the words from the
-- executable on, if its name starts with a letter, has letters, digits and "_.+-", and is neither
-- `command` nor `env`.
pub executable_words-wrap :
    (assignments : List Assignment) (ws : List Wrapping) (first : Char) (name : String)
    (args : List String)
    → All IsAssignment assignments
    → All IsWrapping ws
    → length ws ≤ 4
    → has first letters ≡ true
    → is_made_of word_chars name ≡ true
    → (String.◌∷◌ first name == "command") ≡ false
    → (String.◌∷◌ first name == "env") ≡ false
    → executable_words (assignment_texts assignments (wrap ws (String.◌∷◌ first name ∷ args)))
      ≡ String.◌∷◌ first name ∷ args
unfolding executable_words
executable_words-wrap assignments ws first name args h k small letter rest no_command no_env =
    let word = String.◌∷◌ first name in
    let is_word : IsCommandWord word = record {
      no_option = word-plain first name letter rest;
      no_p = word-unmarked first name letter rest "-p" refl;
      no_mark = word-unmarked first name letter rest "--" refl;
      no_assignment = word-unassigned first name letter rest;
      env_word = env_token-word first name letter rest;
    } in
    let begins = wrap-Begins ws (word ∷ args) (word, args, refl, is_word) in
    ap (unwrap 4) (skip_assignments-texts assignments (wrap ws (word ∷ args)) h begins)
    ∙ unwrap-wrap 4 ws word args small k is_word
        (wrapper_kind-word first name letter rest no_command no_env)
