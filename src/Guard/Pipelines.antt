-- ===== src/Guard/Pipelines.antt =====
-- `shell_pipelines` of scripts/agent/pre_tool_policy.py: the tokens of a command as pipelines of
-- segments of words.
pub mod Words
pub mod RoundTrip
use gas_station.Base.{
  String, Bool, true, false, ◌&&◌, ◌||◌, Option, none, some, List, [], ◌∷◌, ◌++◌, has, one_of,
  if◌then◌else◌,
}
use gas_station.Guard.Lexer.{tokenize}

abbrev pub Segment : Type 0
Segment = List String

abbrev pub Pipeline : Type 0
Pipeline = List Segment

-- `token in {"|", "|&"}`
unfoldable pub is_pipe : String → Bool
unfolding one_of
is_pipe token = one_of token ("|" ∷ "|&" ∷ [])

-- `all(character in ";&|\n" for character in token)`
unfoldable pub all_operators : String → Bool
unfolding has
all_operators String.[] = true
all_operators (String.◌∷◌ c s) = has c ";&|\n" && all_operators s

-- `token and all(…)`
unfoldable pub is_separator : String → Bool
unfolding all_operators
is_separator String.[] = false
is_separator (String.◌∷◌ c s) = all_operators (String.◌∷◌ c s)

-- The lists that the loop over the tokens grows.
pub record Loop : Type 0 where
  pub pipelines : List Pipeline
  pub pipeline : Pipeline
  pub segment : Segment

abbrev pub nothing : Loop
nothing = record { pipelines = []; pipeline = []; segment = [] }

-- `if xs: xss.append(xs)`
unfoldable pub push {ℓ} : {A : Type ℓ} → List (List A) → List A → List (List A)
push xss [] = xss
push xss (x ∷ xs) = xss ++ ((x ∷ xs) ∷ [])

unfoldable pub on_pipe : Loop → Loop
unfolding push
on_pipe l = record l { pipeline = push l.pipeline l.segment; segment = [] }

unfoldable pub on_separator : Loop → Loop
unfolding push
on_separator l = record {
  pipelines = push l.pipelines (push l.pipeline l.segment);
  pipeline = [];
  segment = [];
}

unfoldable pub on_token : Loop → String → Loop
unfolding on_pipe on_separator is_pipe is_separator
on_token l token =
    if is_pipe token
    then on_pipe l
    else if is_separator token
    then on_separator l
    else record l { segment = l.segment ++ token ∷ [] }

unfoldable pub loop : Loop → List String → Loop
unfolding on_token
loop l [] = l
loop l (token ∷ tokens) = loop (on_token l token) tokens

-- What stands behind the last operator is pushed as behind a separator.
unfoldable pub group : List String → List Pipeline
unfolding loop
group tokens = (on_separator (loop nothing tokens)).pipelines

unfoldable pub shell_pipelines : String → Option (List Pipeline)
unfolding tokenize group
shell_pipelines command = elim (tokenize command) [
  | none ↦ none
  | some tokens ↦ some (group tokens)
]
