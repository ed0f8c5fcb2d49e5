-- ===== src/Guard/Lexer/Quoting.antt =====
-- Words in single quotes, for the lexer of `shell_pipelines` of
-- scripts/agent/pre_tool_policy.py.
use text.Mathlib.TextEquality.{Char-path}
use text.Mathlib.TextLemmas.{append_assoc, append-nil, nil-append, cons-append}
use gas_station.Base.Tests.{==_iff}
use gas_station.Base.{
  Char, code, String, ◌<>◌, Bool, true, false, Option, some, List, [], ◌∷◌, ◌≡◌, refl, ap, ◌∙◌, inl,
  inr, same, if◌then◌else◌, Bool-cases,
}
use gas_station.Guard.Lexer.{step_single, Mode, LexState, start, scan, emit, prepend, tokenize}

-- A word as the rest of a single-quoted text, before `rest`: a quote within is written `'"'"'`.
abbrev pub quoted_tail : String → String → String
quoted_tail String.[] rest = String.◌∷◌ "'" rest
quoted_tail (String.◌∷◌ c w) rest =
    let tail = quoted_tail w rest in
    if same c "'"
    then String.◌∷◌ "'" (String.◌∷◌ "\"" (String.◌∷◌ "'" (String.◌∷◌ "\"" (String.◌∷◌ "'" tail))))
    else String.◌∷◌ c tail

-- The word in quotes and a space, before `rest`.
abbrev pub quoted_word : String → String → String
quoted_word w rest = String.◌∷◌ "'" (quoted_tail w (String.◌∷◌ " " rest))

pub command_line : List String → String
command_line [] = String.[]
command_line (w ∷ ws) = quoted_word w (command_line ws)

prepend-nil : (r : Option (List String)) → prepend [] r ≡ r
unfolding prepend
prepend-nil Option.none = refl
prepend-nil (some r) = refl

snoc :
    (t : String) (c : Char) (w : String) → (t <> String.◌∷◌ c String.[]) <> w ≡ t <> String.◌∷◌ c w
snoc t c w =
    append_assoc t _ w
    ∙ ap (λ s. t <> s) (cons-append c String.[] w ∙ ap (λ s. String.◌∷◌ c s) (nil-append w))

abbrev at : Mode → String → Bool → LexState
at m t q = record { mode = m; token = t; quoted = q }

scan-quoted_tail :
    (w t : String) (q : Bool) (rest : String)
    → scan (at Mode.single t q) (quoted_tail w rest) ≡ scan (at Mode.word (t <> w) true) rest
unfolding scan
scan-quoted_tail String.[] t q rest = rw append-nil (prepend-nil _)
scan-quoted_tail (String.◌∷◌ c w) t q rest = elim (Bool-cases (same c "'")) [
  | inl e ↦ rw e (
      simp prepend-nil (
        scan-quoted_tail w (t <> String.◌∷◌ "'" String.[]) true rest
        ∙ rw (snoc t "'" w, Char-path c "'" ((==_iff (code c) (code "'")).0 e))))
  | inr e ↦
      rw (e, prepend-nil, step_single, e)
        (scan-quoted_tail w (t <> String.◌∷◌ c String.[]) true rest ∙ rw (snoc t c w))
]

emit-quoted : (w : String) → emit w true ≡ w ∷ []
unfolding emit
emit-quoted String.[] = refl
emit-quoted (String.◌∷◌ c w) = refl

-- A word in quotes is read as one token, whatever its characters.
pub scan-quoted_word :
    (w rest : String) → scan start (quoted_word w rest) ≡ prepend (w ∷ []) (scan start rest)
unfolding scan
scan-quoted_word w rest =
    rw (prepend-nil)
      (scan-quoted_tail w String.[] false (String.◌∷◌ " " rest) ∙ rw (nil-append, emit-quoted))

-- The tokens of the command line that writes each of any words in quotes are those words.
pub tokenize-command_line : (words : List String) → tokenize (command_line words) ≡ some words
unfolding command_line tokenize
tokenize-command_line [] = refl
tokenize-command_line (w ∷ ws) =
    scan-quoted_word w (command_line ws) ∙ rw (tokenize-command_line ws)
