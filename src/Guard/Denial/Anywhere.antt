-- ===== src/Guard/Denial/Anywhere.antt =====
-- Lemmas on a git segment among the segments that `denial_reason` of
-- scripts/agent/pre_tool_policy.py goes over.
use gas_station.Base.{
  ℕ, zero, suc, String, false, none, some, List, [], ◌∷◌, ◌++◌, ◌≡◌, ◌≢◌, refl, arith, Option-cases,
  inl, inr,
}
use gas_station.Guard.Host.{Host}
use gas_station.Guard.Pipelines.{Segment, Pipeline, shell_pipelines}
use gas_station.Guard.Words.{executable_words, executable_name}
use gas_station.Guard.Git.{git_command_cwd}
use gas_station.Guard.Push.{git_denial}
use gas_station.Guard.Shell.{nested_shell_command, is_shell, absent}
use gas_station.Guard.Reason.{Reason}
use gas_station.Guard.Denial.{
  Cwd, Verdict, denied, git_rule, executable_rule, nested_rule, segment_rules, check_segment,
  check_segments, check_pipelines, check_command, denial_within,
}
use gas_station.Guard.Denial.Depth.{Check, Verdict-cases}

module _ (host : Host) (run : Check) where
  abbrev IsDenied : Verdict → Type 0
  IsDenied v = (r : Reason) × (v ≡ denied r)

  abbrev AlwaysDenied : Segment → Type 0
  AlwaysDenied s =
      (p : Pipeline) (u : List Segment) (cwd : Cwd) → IsDenied (check_segment host run p u s cwd)

  check_segments-IsDenied :
      (s : Segment)
      → AlwaysDenied s
      → (p : Pipeline) (u xs ys : List Segment) (cwd : Cwd)
      → IsDenied (check_segments host run p u (xs ++ s ∷ ys) cwd)
  unfolding check_segments
  check_segments-IsDenied s d p u [] ys cwd = let (r, e) = d p u cwd in (r, rw (e, check_segments))
  check_segments-IsDenied s d p u (x ∷ xs) ys cwd =
      elim (Verdict-cases (check_segment host run p u x cwd)) [
        | inl (r, e) ↦ (r, rw (e, check_segments))
        | inr (c, e) ↦ rw (e, check_segments) (check_segments-IsDenied s d p (u ++ x ∷ []) xs ys c)
      ]

  check_pipelines-IsDenied :
      (s : Segment)
      → AlwaysDenied s
      → (ps qs : List Pipeline) (xs ys : List Segment) (cwd : Cwd)
      → IsDenied (check_pipelines host run (ps ++ (xs ++ s ∷ ys) ∷ qs) cwd)
  unfolding check_pipelines
  check_pipelines-IsDenied s d [] qs xs ys cwd =
      let (r, e) = check_segments-IsDenied s d (xs ++ s ∷ ys) [] xs ys cwd in
      (r, rw (e, check_pipelines))
  check_pipelines-IsDenied s d (p ∷ ps) qs xs ys cwd =
      elim (Verdict-cases (check_segments host run p [] p cwd)) [
        | inl (r, e) ↦ (r, rw (e, check_pipelines))
        | inr (c, e) ↦ rw (e, check_pipelines) (check_pipelines-IsDenied s d ps qs xs ys c)
      ]

  check_command-denied :
      (s : Segment)
      → AlwaysDenied s
      → (ps qs : List Pipeline) (xs ys : List Segment) (command cwd : String)
      → shell_pipelines command ≡ some (ps ++ (xs ++ s ∷ ys) ∷ qs)
      → check_command host run command cwd ≢ none
  unfolding check_command
  check_command-denied s d ps qs xs ys command cwd e h =
      let (r, e') =
        check_pipelines-IsDenied s d ps qs xs ys (record { active = cwd; unresolved = false }) in
      cc (rw (e, check_command, e') at h)

  nested-git :
      (words : List String) → executable_name words ≡ "git" → nested_shell_command words ≡ absent
  unfolding nested_shell_command is_shell
  nested-git [] h = refl
  nested-git (w ∷ ws) h = rw (h, nested_shell_command) (ground arith)

  git_rule-some :
      (words : List String) (cwd : Cwd)
      → ((d : String) → git_denial host words d ≢ none)
      → (r : Reason) × (git_rule host words cwd ≡ some r)
  unfolding git_rule
  git_rule-some words cwd d = elim (Option-cases (git_rule host words cwd)) [
    | inl e ↦ absurd (ground (arith, e, d (git_command_cwd host words cwd.active)))
    | inr (r, e) ↦ (r, e)
  ]

  segment_rules-git :
      (s : Segment)
      → executable_name (executable_words s) ≡ "git"
      → (p : Pipeline) (u : List Segment) (cwd : Cwd) (r : Reason)
      → git_rule host (executable_words s) cwd ≡ some r
      → segment_rules host p u s cwd ≡ denied r
  unfolding segment_rules executable_rule
  segment_rules-git s g p u cwd r e = rw (g, segment_rules) (rw e)

  git-AlwaysDenied :
      (s : Segment)
      → executable_name (executable_words s) ≡ "git"
      → ((cwd : String) → git_denial host (executable_words s) cwd ≢ none)
      → AlwaysDenied s
  unfolding check_segment nested_rule
  git-AlwaysDenied s g d p u cwd =
      let (r, e) = git_rule-some (executable_words s) cwd d in
      (r, rw (nested-git (executable_words s) g, check_segment) (segment_rules-git s g p u cwd r e))

-- If a segment of the command is a `git` command line that `git_denial` denies in every directory,
-- the command is denied, whatever stands around the segment and at every depth.
pub denial_within-git :
    (host : Host) (left : ℕ) (command cwd : String) (ps qs : List Pipeline) (xs ys : List Segment)
    (s : Segment)
    → shell_pipelines command ≡ some (ps ++ (xs ++ s ∷ ys) ∷ qs)
    → executable_name (executable_words s) ≡ "git"
    → ((d : String) → git_denial host (executable_words s) d ≢ none)
    → denial_within host left command cwd ≢ none
unfolding denial_within
denial_within-git host zero command cwd ps qs xs ys s e g d =
    check_command-denied host none s (git-AlwaysDenied host none s g d) ps qs xs ys command cwd e
denial_within-git host (suc left) command cwd ps qs xs ys s e g d =
    check_command-denied host _ s (git-AlwaysDenied host _ s g d) ps qs xs ys command cwd e
