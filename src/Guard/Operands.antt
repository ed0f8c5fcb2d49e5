-- ===== src/Guard/Operands.antt =====
-- The file operands of `cut`, `grep` and `awk`, and `grep_non_value_mode`, of
-- scripts/agent/pre_tool_policy.py. The loops run over the words behind the command's name; a flag
-- is set where an option waits for its value.
use gas_station.Base.{
  String, Bool, true, false, not, ◌&&◌, ◌||◌, Option, none, some, List, [], ◌∷◌, ◌==◌,
  if◌then◌else◌, ltb, any, has, one_of, starts_with, size, suffix_from, after?,
}
use gas_station.Guard.Words.{option_name, is_option, is_assignment}

-- A word that the option part of a command line reads as an option.
unfoldable pub option_here : Bool → String → Bool
unfolding starts_with
option_here done token = not done && is_option token && not (token == "-")

-- `token.startswith((…)) and len(token) > 2`
unfoldable pub joined_option : List String → String → Bool
unfolding any starts_with size
joined_option names token = any (λ name. starts_with token name) names && ltb 2 (size token)

abbrev has_equals : String → Bool
has_equals token = has "=" token

-- The letters of a short option group, up to one that takes a pattern.
unfoldable pub quiet_letters : String → Bool
unfolding has
quiet_letters String.[] = false
quiet_letters (String.◌∷◌ c s) =
    let rest = quiet_letters s in if has c "ef" then false else if has c "qlLc" then true else rest

unfoldable pub quiet_scan : List String → Bool
unfolding one_of starts_with quiet_letters suffix_from
quiet_scan [] = false
quiet_scan (token ∷ rest) =
    let later = quiet_scan rest in
    if token == "--"
    then false
    else if one_of token
        ("--quiet" ∷ "--silent" ∷ "--files-with-matches" ∷ "--files-without-match" ∷ "--count" ∷ [])
    then true
    else if starts_with token "--"
    then later
    else if not (is_option token) || token == "-"
    then false
    else quiet_letters (suffix_from 1 token) || later

unfoldable pub grep_non_value_mode : List String → Bool
unfolding quiet_scan
grep_non_value_mode [] = false
grep_non_value_mode (grep ∷ ws) = quiet_scan ws

pub data OptionToken : Type 0 where
  end_mark skip skip_value supplies supplies_value operand : OptionToken

unfoldable pub cut_token : Bool → String → OptionToken
unfolding option_here option_name one_of has
cut_token done token =
    if not done && token == "--"
    then end_mark
    else if option_here done token
    then (if one_of (option_name token) (
          "-b" ∷ "--bytes" ∷ "-c" ∷ "--characters" ∷ "-d" ∷ "--delimiter" ∷ "-f" ∷ "--fields"
          ∷ "--output-delimiter" ∷ [])
        then (if has_equals token then skip else skip_value)
        else skip)
    else operand

unfoldable pub cut_scan : Bool → Bool → List String → List String
unfolding cut_token
cut_scan waits done [] = []
cut_scan true done (w ∷ ws) = cut_scan false done ws
cut_scan false done (w ∷ ws) = elim (cut_token done w) [
  | end_mark ↦ cut_scan false true ws
  | skip_value ↦ cut_scan true done ws
  | operand ↦ w ∷ cut_scan false done ws
  | _ ↦ cut_scan false done ws
]

unfoldable pub cut_file_operands : List String → List String
unfolding cut_scan
cut_file_operands [] = []
cut_file_operands (cut ∷ ws) = cut_scan false false ws

-- What stands behind the first `e`, or else the first `f`, of a short option group.
unfoldable pub pattern_option : String → Option String
unfolding after? suffix_from
pattern_option token = elim (after? "e" (suffix_from 1 token)) [
  | some tail ↦ some tail
  | none ↦ after? "f" (suffix_from 1 token)
]

unfoldable pub grep_option : String → OptionToken
unfolding option_name one_of has
grep_option token =
    if one_of (option_name token) (
      "-A" ∷ "--after-context" ∷ "-B" ∷ "--before-context" ∷ "-C" ∷ "--context" ∷ "-m"
      ∷ "--max-count" ∷ "--binary-files" ∷ "--devices" ∷ "--directories" ∷ "--exclude"
      ∷ "--exclude-from" ∷ "--include" ∷ "--label" ∷ [])
    then (if has_equals token then skip else skip_value)
    else skip

unfoldable pub grep_short : String → OptionToken
unfolding starts_with pattern_option grep_option
grep_short token =
    if starts_with token "--" then grep_option token else elim (pattern_option token) [
      | none ↦ grep_option token
      | some String.[] ↦ supplies_value
      | some (String.◌∷◌ c s) ↦ supplies
    ]

unfoldable pub grep_token : Bool → String → OptionToken
unfolding option_here option_name one_of has joined_option grep_short
grep_token done token =
    if not done && token == "--"
    then end_mark
    else if option_here done token
    then (if one_of (option_name token) ("-e" ∷ "--regexp" ∷ "-f" ∷ "--file" ∷ [])
        then (if has_equals token then supplies else supplies_value)
        else if joined_option ("-e" ∷ "-f" ∷ []) token
        then supplies
        else grep_short token)
    else operand

-- The flags: an option waits for its value, the options are done, the pattern is supplied.
unfoldable pub grep_scan : Bool → Bool → Bool → List String → List String
unfolding grep_token
grep_scan waits done supplied [] = []
grep_scan true done supplied (w ∷ ws) = grep_scan false done supplied ws
grep_scan false done supplied (w ∷ ws) = elim (grep_token done w) [
  | end_mark ↦ grep_scan false true supplied ws
  | skip ↦ grep_scan false done supplied ws
  | skip_value ↦ grep_scan true done supplied ws
  | supplies ↦ grep_scan false done true ws
  | supplies_value ↦ grep_scan true done true ws
  | operand ↦ let files = grep_scan false done true ws in if supplied then w ∷ files else files
]

unfoldable pub grep_file_operands : List String → List String
unfolding grep_scan
grep_file_operands [] = []
grep_file_operands (grep ∷ ws) = grep_scan false false false ws

unfoldable pub awk_token : Bool → String → OptionToken
unfolding option_here option_name one_of has joined_option starts_with
awk_token done token =
    if not done && token == "--"
    then end_mark
    else if option_here done token
    then (if one_of (option_name token) ("-f" ∷ "--file" ∷ [])
        then (if has_equals token then supplies else supplies_value)
        else if one_of (option_name token) ("-F" ∷ "--field-separator" ∷ "-v" ∷ "--assign" ∷ [])
        then (if has_equals token then skip else skip_value)
        else if joined_option ("-F" ∷ "-v" ∷ "-f" ∷ []) token
        then (if starts_with token "-f" then supplies else skip)
        else skip)
    else operand

unfoldable pub awk_scan : Bool → Bool → Bool → List String → List String
unfolding awk_token is_assignment
awk_scan waits done supplied [] = []
awk_scan true done supplied (w ∷ ws) = awk_scan false done supplied ws
awk_scan false done supplied (w ∷ ws) = elim (awk_token done w) [
  | end_mark ↦ awk_scan false true supplied ws
  | skip ↦ awk_scan false done supplied ws
  | skip_value ↦ awk_scan true done supplied ws
  | supplies ↦ awk_scan false done true ws
  | supplies_value ↦ awk_scan true done true ws
  | operand ↦
      let files = awk_scan false done true ws in
      if supplied && not (is_assignment w) then w ∷ files else files
]

unfoldable pub awk_file_operands : List String → List String
unfolding awk_scan
awk_file_operands [] = []
awk_file_operands (awk ∷ ws) = awk_scan false false false ws
