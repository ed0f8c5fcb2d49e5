-- ===== src/Guard/Words/Names.antt =====
-- Assignments and names of executables by their characters, for `executable_words` of
-- scripts/agent/pre_tool_policy.py.
use text.Mathlib.TextEquality.{Char-path}
use text.Mathlib.TextLemmas.{cons-append, nil-append}
use gas_station.Base.Tests.{==_iff}
use gas_station.Base.{
  Char, code, String, ◌<>◌, Bool, true, false, not, ◌&&◌, none, ◌==◌, ◌≡◌, refl, sym, ap, ◌∙◌,
  arith, List, [], ◌∷◌, has, same, before, after_last?, replace, starts_with, one_of, All-one_of,
  Bool-cases, inl, inr, or_else_text, eq_iff,
}
use gas_station.Guard.Words.{
  is_name_start, is_name_char, name_then_equals, is_assignment, command_name, option_name,
  env_token, command_word, is_option, wrapper_kind, plain,
}

abbrev pub letters : String
letters = "ABCDEFGHIJKLMNOPQRSTUVWXYZabcdefghijklmnopqrstuvwxyz_"

abbrev pub name_chars : String
name_chars = "ABCDEFGHIJKLMNOPQRSTUVWXYZabcdefghijklmnopqrstuvwxyz_0123456789"

abbrev pub word_chars : String
word_chars = "ABCDEFGHIJKLMNOPQRSTUVWXYZabcdefghijklmnopqrstuvwxyz_0123456789.+-"

-- The characters of a text are all in another one.
abbrev pub is_made_of : String → String → Bool
is_made_of alphabet String.[] = true
is_made_of alphabet (String.◌∷◌ c s) = has c alphabet && is_made_of alphabet s

both_true : (b c : Bool) → (b && c) ≡ true → (b ≡ true) × (c ≡ true)
both_true true c h = (refl, h)
both_true false c h = cc

module _ (P : Char → Bool) where
  abbrev holds_in : String → Bool
  holds_in String.[] = true
  holds_in (String.◌∷◌ c s) = P c && holds_in s

  holds_of : (c : Char) (s : String) → has c s ≡ true → holds_in s ≡ true → P c ≡ true
  unfolding has
  holds_of c String.[] h k = cc
  holds_of c (String.◌∷◌ d s) h k =
      let (here, rest) = both_true (P d) (holds_in s) k in
      elim (Bool-cases (same d c)) [
        | inl e ↦
            let is : d ≡ c = Char-path d c ((==_iff (code d) (code c)).0 e) in
            let there : P c ≡ true = rw (← is) here in there
        | inr n ↦ holds_of c s (rw n at h) rest
      ]

-- `NAME=value`
name_then_equals-append :
    (name value : String)
    → is_made_of name_chars name ≡ true
    → name_then_equals (name <> String.◌∷◌ "=" value) ≡ true
unfolding name_then_equals is_name_char is_name_start has
name_then_equals-append String.[] value h = rw nil-append refl
name_then_equals-append (String.◌∷◌ c name) value h =
    let (here, rest) = both_true (has c name_chars) (is_made_of name_chars name) h in
    let fine : is_name_char c ≡ true = holds_of is_name_char c name_chars here refl in
    rw (cons-append, name_then_equals, fine, name_then_equals-append name value rest) (ground arith)

pub is_assignment-append :
    (first : Char) (name value : String)
    → has first letters ≡ true
    → is_made_of name_chars name ≡ true
    → is_assignment (String.◌∷◌ first (name <> String.◌∷◌ "=" value)) ≡ true
unfolding is_assignment is_name_start has
is_assignment-append first name value h k =
    let fine : is_name_start first ≡ true = holds_of is_name_start first letters h refl in
    rw (fine, name_then_equals-append name value k) refl

-- A character that has no meaning of its own in a word.
abbrev is_quiet : Char → Bool
is_quiet c = not (same c "=") && not (same c "/") && not (same c "\\")

quiet-cases :
    (c : Char)
    → is_quiet c ≡ true
    → (same c "=" ≡ false) × (same c "/" ≡ false) × (same c "\\" ≡ false)
quiet-cases c h = of (same c "=") (same c "/") (same c "\\") h
  where
    of : (x y z : Bool) → (not x && not y && not z) ≡ true → (x ≡ false) × (y ≡ false) × (z ≡ false)
    of x y z k = (ground (arith, k), ground (arith, k), ground (arith, k))

word-quiet : (c : Char) → has c word_chars ≡ true → is_quiet c ≡ true
unfolding has
word-quiet c h = holds_of is_quiet c word_chars h refl

name_then_equals-word : (w : String) → is_made_of word_chars w ≡ true → name_then_equals w ≡ false
unfolding name_then_equals
name_then_equals-word String.[] h = refl
name_then_equals-word (String.◌∷◌ c w) h =
    let (here, rest) = both_true (has c word_chars) (is_made_of word_chars w) h in
    let (equals, slash, back) = quiet-cases c (word-quiet c here) in
    rw (equals, name_then_equals-word w rest) (ground arith)

before-word : (w : String) → is_made_of word_chars w ≡ true → before "=" w ≡ w
unfolding before
before-word String.[] h = refl
before-word (String.◌∷◌ c w) h =
    let (here, rest) = both_true (has c word_chars) (is_made_of word_chars w) h in
    let (equals, slash, back) = quiet-cases c (word-quiet c here) in
    rw (equals, before-word w rest) refl

replace-word : (w : String) → is_made_of word_chars w ≡ true → replace "\\" "/" w ≡ w
unfolding replace
replace-word String.[] h = refl
replace-word (String.◌∷◌ c w) h =
    let (here, rest) = both_true (has c word_chars) (is_made_of word_chars w) h in
    let (equals, slash, back) = quiet-cases c (word-quiet c here) in
    rw (back, replace-word w rest) refl

after_last-word : (w : String) → is_made_of word_chars w ≡ true → after_last? "/" w ≡ none
unfolding after_last?
after_last-word String.[] h = refl
after_last-word (String.◌∷◌ c w) h =
    let (here, rest) = both_true (has c word_chars) (is_made_of word_chars w) h in
    let (equals, slash, back) = quiet-cases c (word-quiet c here) in
    rw (after_last-word w rest, slash) refl

command_name-word : (w : String) → is_made_of word_chars w ≡ true → command_name w ≡ w
unfolding command_name or_else_text
command_name-word w h = rw (replace-word w h, after_last-word w h) refl

-- A word that starts with a letter and is no wrapper.
module _ (first : Char) (name : String) (letter : has first letters ≡ true)
    (rest : is_made_of word_chars name ≡ true) where
  abbrev word : String
  word = String.◌∷◌ first name

  word_made : is_made_of word_chars word ≡ true
  unfolding has
  word_made =
      let inside : has first word_chars ≡ true =
        holds_of (λ c. has c word_chars) first letters letter refl in
      rw (inside, rest) refl

  pub word-plain : is_option word ≡ false
  unfolding starts_with has
  word-plain =
      let undashed : not (same first "-") ≡ true =
        holds_of (λ c. not (same c "-")) first letters letter refl in
      let plain_first : same first "-" ≡ false = ground (arith, undashed) in rw plain_first refl

  undashed_in :
      (names : List String)
      → (one_of word names ≡ true → starts_with word "-" ≡ true)
      → one_of word names ≡ false
  undashed_in names h = elim (Bool-cases (one_of word names)) [
    | inr n ↦ n
    | inl e ↦ cc (sym (h e) ∙ word-plain)
  ]

  pub word-unassigned : is_assignment word ≡ false
  unfolding is_assignment
  word-unassigned = rw (name_then_equals-word name rest) (ground arith)

  pub word-unmarked : (mark : String) → starts_with mark "-" ≡ true → (word == mark) ≡ false
  word-unmarked mark h = elim (Bool-cases (word == mark)) [
    | inr n ↦ n
    | inl e ↦
        let is : word ≡ mark = (eq_iff word mark).0 e in
        cc (sym h ∙ ap (λ t. starts_with t "-") (sym is) ∙ word-plain)
  ]

  pub env_token-word : env_token word ≡ command_word
  unfolding env_token option_name
  env_token-word =
      let flags =
        undashed_in ("-0" ∷ "-i" ∷ "-v" ∷ "--debug" ∷ "--ignore-environment" ∷ "--null" ∷ []) (
          All-one_of (λ t. starts_with t "-" ≡ true) word
            ("-0" ∷ "-i" ∷ "-v" ∷ "--debug" ∷ "--ignore-environment" ∷ "--null" ∷ [])
            (refl, (refl, (refl, (refl, (refl, (refl, tt))))))) in
      let valued = undashed_in ("-C" ∷ "-u" ∷ "--chdir" ∷ "--unset" ∷ []) (
        All-one_of (λ t. starts_with t "-" ≡ true) word ("-C" ∷ "-u" ∷ "--chdir" ∷ "--unset" ∷ [])
          (refl, (refl, (refl, (refl, tt))))) in
      rw
        (
          word-unassigned,
          word-unmarked "--" refl,
          flags,
          before-word word word_made,
          valued,
          word-plain,
        )
        refl

  pub wrapper_kind-word :
      (word == "command") ≡ false → (word == "env") ≡ false → wrapper_kind word ≡ plain
  unfolding wrapper_kind
  wrapper_kind-word h k = rw (command_name-word word word_made, h, k) refl
