-- ===== src/Guard/Lexer.antt =====
-- The tokens that `shell_pipelines` of scripts/agent/pre_tool_policy.py reads: the POSIX lexer
-- `shlex` with `punctuation_chars=";&|\n"`, `whitespace_split`, no commenters and "\n" taken out of
-- its whitespace. `none` is the `ValueError` of an open quotation or a trailing escape.
pub mod Quoting
use gas_station.Base.{
  Char, String, ◌<>◌, Bool, true, false, not, ◌||◌, ◌&&◌, Option, none, some, List, [], ◌∷◌, ◌++◌,
  has, same, if◌then◌else◌, ◌==◌,
}

-- The lexer's states ' ', 'a', 'c', a quotation of either kind, and the escape state with the state
-- that it returns to.
pub data Mode : Type 0 where
  between word operator single double escape_word escape_double : Mode

pub record LexState : Type 0 where
  pub mode : Mode
  pub token : String
  pub quoted : Bool

unfoldable pub is_blank : Char → Bool
unfolding has
is_blank c = has c " \t\r"

unfoldable pub is_punctuation : Char → Bool
unfolding has
is_punctuation c = has c ";&|\n"

abbrev pub start : LexState
start = record { mode = Mode.between; token = String.[]; quoted = false }

-- What a character does where no token has begun; one that is pushed back is read so again.
unfoldable pub open_token : Char → LexState
unfolding is_blank is_punctuation
open_token c =
    if is_blank c
    then start
    else if same c "\\"
    then record start { mode = Mode.escape_word }
    else if is_punctuation c
    then record start { mode = Mode.operator; token = String.◌∷◌ c String.[] }
    else if same c "'"
    then record start { mode = Mode.single }
    else if same c "\""
    then record start { mode = Mode.double }
    else record start { mode = Mode.word; token = String.◌∷◌ c String.[] }

-- `if self.token or (self.posix and quoted)`
unfoldable pub emit : String → Bool → List String
emit String.[] false = []
emit String.[] true = String.[] ∷ []
emit (String.◌∷◌ c s) q = String.◌∷◌ c s ∷ []

abbrev append : LexState → Char → LexState
append st c = record st { token = st.token <> String.◌∷◌ c String.[] }

step_word : LexState → Char → LexState × List String
step_word st c =
    if is_blank c || is_punctuation c
    then (open_token c, emit st.token st.quoted)
    else if same c "'"
    then (record st { mode = Mode.single }, [])
    else if same c "\""
    then (record st { mode = Mode.double }, [])
    else if same c "\\"
    then (record st { mode = Mode.escape_word }, [])
    else (append st c, [])

step_operator : LexState → Char → LexState × List String
step_operator st c =
    if is_punctuation c then (append st c, []) else (open_token c, emit st.token st.quoted)

step_single : LexState → Char → LexState
step_single st c =
    if same c "'"
    then record st { mode = Mode.word; quoted = true }
    else record (append st c) { quoted = true }

step_double : LexState → Char → LexState
step_double st c =
    if same c "\""
    then record st { mode = Mode.word; quoted = true }
    else if same c "\\"
    then record st { mode = Mode.escape_double; quoted = true }
    else record (append st c) { quoted = true }

-- Within double quotes an escape stands for itself before any other character.
step_escape_double : LexState → Char → LexState
step_escape_double st c =
    let kept = if same c "\\" || same c "\"" then st.token else st.token <> "\\" in
    record st { mode = Mode.double; token = kept <> String.◌∷◌ c String.[] }

dispatch : Mode → LexState → Char → LexState × List String
dispatch Mode.between st c = (open_token c, [])
dispatch Mode.word st c = step_word st c
dispatch Mode.operator st c = step_operator st c
dispatch Mode.single st c = (step_single st c, [])
dispatch Mode.double st c = (step_double st c, [])
dispatch Mode.escape_word st c = (record (append st c) { mode = Mode.word }, [])
dispatch Mode.escape_double st c = (step_escape_double st c, [])

-- One character: the next state, and the token that it ends.
unfoldable pub step : LexState → Char → LexState × List String
unfolding dispatch step_word step_operator step_single step_double step_escape_double open_token
    is_blank is_punctuation emit
step st c = dispatch st.mode st c

-- The end of the text, by the mode.
unfoldable pub finish : Mode → String → Bool → Option (List String)
unfolding emit
finish Mode.between t q = some []
finish Mode.word t q = some (emit t q)
finish Mode.operator t q = some (emit t q)
finish Mode.single t q = none
finish Mode.double t q = none
finish Mode.escape_word t q = none
finish Mode.escape_double t q = none

unfoldable pub prepend : List String → Option (List String) → Option (List String)
prepend out none = none
prepend out (some rest) = some (out ++ rest)

unfoldable pub scan : LexState → String → Option (List String)
unfolding step finish prepend
scan st String.[] = finish st.mode st.token st.quoted
scan st (String.◌∷◌ c s) = let (st', out) = step st c in prepend out (scan st' s)

-- `list(lexer)`
unfoldable pub tokenize : String → Option (List String)
unfolding scan
tokenize command = scan start command
