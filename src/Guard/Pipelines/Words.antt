-- ===== src/Guard/Pipelines/Words.antt =====
-- The words of the pipelines that `shell_pipelines` of scripts/agent/pre_tool_policy.py gives.
use mathlib.Core.List.{append-nil, append_assoc, flatten}
use gas_station.Base.{
  String, Bool, true, false, ◌||◌, some, List, [], ◌∷◌, ◌++◌, ◌≡◌, refl, ◌∙◌, keep, All, All-append,
  inl, inr, Bool-cases, if◌then◌else◌,
}
use gas_station.Guard.Lexer.{tokenize}
use gas_station.Guard.Pipelines.{
  Pipeline, Loop, nothing, push, on_pipe, on_separator, on_token, is_pipe, is_separator, loop,
  group, shell_pipelines,
}

abbrev pub is_word : String → Bool
is_word token = if is_pipe token || is_separator token then false else true

module _ {ℓ} {A : Type ℓ} where
  flatten-append : (xs ys : List (List A)) → flatten (xs ++ ys) ≡ flatten xs ++ flatten ys
  unfolding flatten
  flatten-append [] ys = refl
  flatten-append (x ∷ xs) ys = rw (flatten-append xs ys, append_assoc)

  flatten-push : (xss : List (List A)) (xs : List A) → flatten (push xss xs) ≡ flatten xss ++ xs
  unfolding push flatten
  flatten-push xss [] = rw append-nil
  flatten-push xss (x ∷ xs) = flatten-append xss ((x ∷ xs) ∷ []) ∙ rw append-nil

abbrev words_of : String → List String
words_of token = if is_word token then token ∷ [] else []

words_of-append :
    (t : String) (ts : List String) → words_of t ++ keep is_word ts ≡ keep is_word (t ∷ ts)
unfolding keep
words_of-append t ts = elim (Bool-cases (is_word t)) [ inl e ↦ rw e | inr e ↦ rw e ]

-- All words that the loop holds, in order.
abbrev held : Loop → List String
held l = flatten (flatten l.pipelines) ++ (flatten l.pipeline ++ l.segment)

held-on_pipe : (l : Loop) → held (on_pipe l) ≡ held l
unfolding on_pipe
held-on_pipe l = rw (flatten-push, append-nil)

held-on_separator : (l : Loop) → held (on_separator l) ≡ held l
unfolding on_separator flatten
held-on_separator l = rw (flatten-push, flatten-append, flatten-push, append-nil)

held-on_token : (l : Loop) (t : String) → held (on_token l t) ≡ held l ++ words_of t
unfolding on_token
held-on_token l t = elim (Bool-cases (is_pipe t)) [
  | inl p ↦ rw p (held-on_pipe l ∙ rw append-nil)
  | inr n ↦ rw n (elim (Bool-cases (is_separator t)) [
    | inl p ↦ rw p (held-on_separator l ∙ rw append-nil)
    | inr m ↦ rw m (simp append_assoc)
  ])
]

held-loop : (tokens : List String) (l : Loop) → held (loop l tokens) ≡ held l ++ keep is_word tokens
unfolding loop keep
held-loop [] l = rw append-nil
held-loop (t ∷ ts) l =
    held-loop ts (on_token l t) ∙ rw (held-on_token, append_assoc, words_of-append)

-- The words of the pipelines, in order, are the tokens that are no operators.
pub flatten-group : (tokens : List String) → flatten (flatten (group tokens)) ≡ keep is_word tokens
unfolding group flatten
flatten-group tokens =
    rw append-nil at (held-on_separator (loop nothing tokens) ∙ held-loop tokens nothing)

abbrev pub NonEmpty {ℓ} : {A : Type ℓ} → List A → Type 0
NonEmpty [] = ⊥
NonEmpty (x ∷ xs) = Unit

abbrev pub IsProper : List Pipeline → Type 0
IsProper = All (λ p. NonEmpty p × All NonEmpty p)

All-push {ℓ κ} :
    {A : Type ℓ} (P : List A → Type κ) (xss : List (List A)) (xs : List A)
    → All P xss
    → ((x : A) (r : List A) → xs ≡ x ∷ r → P xs)
    → All P (push xss xs)
unfolding push
All-push P xss [] h k = h
All-push P xss (x ∷ xs) h k = All-append P xss ((x ∷ xs) ∷ []) h (k x xs refl, tt)

record IsTidy (l : Loop) : Type 0 where
  done : IsProper l.pipelines
  open_ones : All NonEmpty l.pipeline

cons-NonEmpty {ℓ} : {A : Type ℓ} (xs : List A) (x : A) (r : List A) → xs ≡ x ∷ r → NonEmpty xs
cons-NonEmpty [] x r e = cc
cons-NonEmpty (y ∷ ys) x r e = tt

on_pipe-IsTidy : (l : Loop) → IsTidy l → IsTidy (on_pipe l)
unfolding on_pipe
on_pipe-IsTidy l h = record {
  done = h.done;
  open_ones = All-push NonEmpty l.pipeline l.segment h.open_ones (cons-NonEmpty l.segment);
}

on_separator-IsTidy : (l : Loop) → IsTidy l → IsTidy (on_separator l)
unfolding on_separator on_pipe
on_separator-IsTidy l h = record {
  done =
      All-push _ l.pipelines _ h.done
        λ x r e. (cons-NonEmpty _ x r e, (on_pipe-IsTidy l h).open_ones);
  open_ones = tt;
}

on_token-IsTidy : (l : Loop) (t : String) → IsTidy l → IsTidy (on_token l t)
unfolding on_token
on_token-IsTidy l t h = elim (Bool-cases (is_pipe t)) [
  | inl p ↦ rw p (on_pipe-IsTidy l h)
  | inr n ↦ rw n (elim (Bool-cases (is_separator t)) [
    | inl p ↦ rw p (on_separator-IsTidy l h)
    | inr m ↦ rw m (record { done = h.done; open_ones = h.open_ones })
  ])
]

loop-IsTidy : (tokens : List String) (l : Loop) → IsTidy l → IsTidy (loop l tokens)
unfolding loop
loop-IsTidy [] l h = h
loop-IsTidy (t ∷ ts) l h = loop-IsTidy ts (on_token l t) (on_token-IsTidy l t h)

-- No pipeline is empty, and no segment of one is.
pub group-IsProper : (tokens : List String) → IsProper (group tokens)
unfolding group
group-IsProper tokens =
    (on_separator-IsTidy _ (loop-IsTidy tokens nothing (record { done = tt; open_ones = tt }))).done

-- A command whose tokens the lexer finds gives pipelines, none of them empty nor with an empty
-- segment, whose words in order are the tokens that are no operators.
pub flatten-shell_pipelines :
    (command : String) (tokens : List String)
    → tokenize command ≡ some tokens
    → (ps : List Pipeline) × (shell_pipelines command ≡ some ps)
      × (flatten (flatten ps) ≡ keep is_word tokens)
      × IsProper ps
unfolding shell_pipelines
flatten-shell_pipelines command tokens e =
    (group tokens, rw (e, shell_pipelines), flatten-group tokens, group-IsProper tokens)
