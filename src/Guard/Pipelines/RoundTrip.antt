-- ===== src/Guard/Pipelines/RoundTrip.antt =====
-- Command lines written from pipelines, for `shell_pipelines` of
-- scripts/agent/pre_tool_policy.py.
use mathlib.Core.List.{append-nil, append_assoc}
use gas_station.Base.{
  ◌==◌, eq_iff, Bool-cases, inl, inr, String, true, false, some, List, [], ◌∷◌, ◌++◌, ◌≡◌, refl,
  ◌∙◌, ap, All, arith,
}
use gas_station.Guard.Lexer.{start, scan, prepend, tokenize}
use gas_station.Guard.Lexer.Quoting.{quoted_word, scan-quoted_word}
use gas_station.Guard.Pipelines.{
  Segment, Pipeline, Loop, on_pipe, on_separator, on_token, is_pipe, is_separator, all_operators,
  loop, group, shell_pipelines,
}
use gas_station.Guard.Pipelines.Words.{is_word, NonEmpty, IsProper}

unfoldable write_segment : Segment → String → String
write_segment [] rest = rest
write_segment (w ∷ ws) rest = quoted_word w (write_segment ws rest)

-- Segments are joined by "|", and a pipeline ends with ";".
unfoldable write_pipeline : Pipeline → String → String
unfolding write_segment
write_pipeline [] rest = rest
write_pipeline (s ∷ []) rest = write_segment s (String.◌∷◌ ";" (String.◌∷◌ " " rest))
write_pipeline (s ∷ t ∷ p) rest =
    write_segment s (String.◌∷◌ "|" (String.◌∷◌ " " (write_pipeline (t ∷ p) rest)))

unfoldable pub write_command : List Pipeline → String
unfolding write_pipeline
write_command [] = String.[]
write_command (p ∷ ps) = write_pipeline p (write_command ps)

tokens_pipeline : Pipeline → List String → List String
tokens_pipeline [] rest = rest
tokens_pipeline (s ∷ []) rest = s ++ (";" ∷ rest)
tokens_pipeline (s ∷ t ∷ p) rest = s ++ ("|" ∷ tokens_pipeline (t ∷ p) rest)

tokens_command : List Pipeline → List String
tokens_command [] = []
tokens_command (p ∷ ps) = tokens_pipeline p (tokens_command ps)

scan-write_segment :
    (s : Segment) (rest : String) (tokens : List String)
    → scan start rest ≡ some tokens
    → scan start (write_segment s rest) ≡ some (s ++ tokens)
unfolding write_segment prepend
scan-write_segment [] rest tokens e = e
scan-write_segment (w ∷ ws) rest tokens e =
    scan-quoted_word w _ ∙ ap (prepend (w ∷ [])) (scan-write_segment ws rest tokens e)

scan-separator :
    (rest : String) (tokens : List String)
    → scan start rest ≡ some tokens
    → scan start (String.◌∷◌ ";" (String.◌∷◌ " " rest)) ≡ some (";" ∷ tokens)
unfolding scan
scan-separator rest tokens e = rw e

scan-pipe :
    (rest : String) (tokens : List String)
    → scan start rest ≡ some tokens
    → scan start (String.◌∷◌ "|" (String.◌∷◌ " " rest)) ≡ some ("|" ∷ tokens)
unfolding scan
scan-pipe rest tokens e = rw e

scan-write_pipeline :
    (p : Pipeline) (rest : String) (tokens : List String)
    → scan start rest ≡ some tokens
    → scan start (write_pipeline p rest) ≡ some (tokens_pipeline p tokens)
unfolding write_pipeline tokens_pipeline
scan-write_pipeline [] rest tokens e = e
scan-write_pipeline (s ∷ []) rest tokens e = scan-write_segment s _ _ (scan-separator rest tokens e)
scan-write_pipeline (s ∷ t ∷ p) rest tokens e =
    scan-write_segment s _ _ (scan-pipe _ _ (scan-write_pipeline (t ∷ p) rest tokens e))

tokenize-write_command :
    (ps : List Pipeline) → tokenize (write_command ps) ≡ some (tokens_command ps)
unfolding write_command tokens_command tokenize
tokenize-write_command [] = refl
tokenize-write_command (p ∷ ps) = scan-write_pipeline p _ _ (tokenize-write_command ps)

abbrev pub IsWord : String → Type 0
IsWord w = is_word w ≡ true

quoted-IsWord : (rest : String) → IsWord (String.◌∷◌ "'" rest)
unfolding is_pipe is_separator all_operators
quoted-IsWord rest = rw (other "|" refl, other "|&" refl) refl
  where
    other :
        (operator : String)
        → all_operators operator ≡ true
        → (String.◌∷◌ "'" rest == operator) ≡ false
    other operator h = elim (Bool-cases (String.◌∷◌ "'" rest == operator)) [
      | inr n ↦ n
      | inl e ↦
          let same : String.◌∷◌ "'" rest ≡ operator = (eq_iff _ operator).0 e in
          cc (ap all_operators same ∙ h)
    ]

pub write_command-IsWord :
    (w : String) (ws : Segment) → IsWord (write_command (((w ∷ ws) ∷ []) ∷ []))
unfolding write_command
write_command-IsWord w ws = quoted-IsWord _

IsWord-parts : (w : String) → IsWord w → (is_pipe w ≡ false) × (is_separator w ≡ false)
IsWord-parts w h = ground arith

on_token-word :
    (l : Loop) (w : String) → IsWord w → on_token l w ≡ record l { segment = l.segment ++ w ∷ [] }
unfolding on_token
on_token-word l w h = let (p, q) = IsWord-parts w h in rw p (rw q)

abbrev at : List Pipeline → Pipeline → Segment → Loop
at ps p s = record { pipelines = ps; pipeline = p; segment = s }

on_pipe-at :
    (ps : List Pipeline) (p : Pipeline) (s : Segment)
    → NonEmpty s
    → on_pipe (at ps p s) ≡ at ps (p ++ s ∷ []) []
unfolding on_pipe
on_pipe-at ps p [] e = absurd e
on_pipe-at ps p (w ∷ ws) e = refl

on_separator-at :
    (ps : List Pipeline) (p : Pipeline) (s : Segment)
    → NonEmpty s
    → on_separator (at ps p s) ≡ at (ps ++ (p ++ s ∷ []) ∷ []) [] []
unfolding on_separator
on_separator-at ps p [] e = absurd e
on_separator-at ps [] (w ∷ ws) e = refl
on_separator-at ps (t ∷ p) (w ∷ ws) e = refl

loop-words :
    (s : Segment) (l : Loop) (rest : List String)
    → All IsWord s
    → loop l (s ++ rest) ≡ loop (record l { segment = l.segment ++ s }) rest
unfolding loop
loop-words [] l rest h = rw append-nil
loop-words (w ∷ ws) l rest h =
    rw (on_token-word l w h.0, loop)
      (loop-words ws (record l { segment = l.segment ++ w ∷ [] }) rest h.1 ∙ rw append_assoc)

loop-pipeline :
    (p : Pipeline) (ps : List Pipeline) (q : Pipeline) (rest : List String)
    → NonEmpty p
    → All NonEmpty p
    → All (All IsWord) p
    → loop (at ps q []) (tokens_pipeline p rest) ≡ loop (at (ps ++ (q ++ p) ∷ []) [] []) rest
unfolding loop tokens_pipeline
loop-pipeline [] ps q rest e h k = absurd e
loop-pipeline (s ∷ []) ps q rest e h k =
    loop-words s _ _ k.0 ∙ ap (λ l. loop l rest) (on_separator-at ps q s h.0)
loop-pipeline (s ∷ t ∷ p) ps q rest e h k =
    loop-words s _ _ k.0
    ∙ ap (λ l. loop l (tokens_pipeline (t ∷ p) rest)) (on_pipe-at ps q s h.0)
    ∙ loop-pipeline (t ∷ p) ps (q ++ s ∷ []) rest tt h.1 k.1
    ∙ rw append_assoc

loop-command :
    (ps done : List Pipeline)
    → IsProper ps
    → All (All (All IsWord)) ps
    → loop (at done [] []) (tokens_command ps) ≡ at (done ++ ps) [] []
unfolding loop tokens_command
loop-command [] done h k = rw append-nil
loop-command (p ∷ ps) done h k =
    loop-pipeline p done [] (tokens_command ps) h.0.0 h.0.1 k.0
    ∙ loop-command ps (done ++ p ∷ []) h.1 k.1
    ∙ rw append_assoc

group-tokens_command :
    (ps : List Pipeline) → IsProper ps → All (All (All IsWord)) ps → group (tokens_command ps) ≡ ps
unfolding group
group-tokens_command ps h k = ap (λ (l : Loop). (on_separator l).pipelines) (loop-command ps [] h k)

-- Pipelines that hold nothing empty and no word that reads as an operator are read back from the
-- command line that quotes each word, joins segments by "|" and ends pipelines with ";".
pub shell_pipelines-write_command :
    (ps : List Pipeline)
    → IsProper ps
    → All (All (All IsWord)) ps
    → shell_pipelines (write_command ps) ≡ some ps
unfolding shell_pipelines
shell_pipelines-write_command ps h k =
    rw (tokenize-write_command ps, shell_pipelines) (ap some (group-tokens_command ps h k))
