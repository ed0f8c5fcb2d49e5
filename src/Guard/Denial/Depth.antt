-- ===== src/Guard/Denial/Depth.antt =====
-- The levels of nested shells in `denial_reason` of scripts/agent/pre_tool_policy.py.
use gas_station.Base.{
  ℕ, zero, suc, String, Option, none, some, List, [], ◌∷◌, ◌++◌, ◌≡◌, refl, arith, Option-cases,
  ◌⊎◌, inl, inr,
}
use gas_station.Guard.Host.{Host}
use gas_station.Guard.Pipelines.{Segment, Pipeline, shell_pipelines}
use gas_station.Guard.Words.{executable_words}
use gas_station.Guard.Shell.{Nested, absent, malformed, nested, nested_shell_command}
use gas_station.Guard.Reason.{Reason}
use gas_station.Guard.Denial.{
  Cwd, Verdict, denied, go_on, nested_rule, check_segment, check_segments, check_pipelines,
  check_command, reason_of, denial_within,
}

abbrev pub Check : Type 0
Check = Option (String → String → Option Reason)

-- What the first check lets through, the second does too.
abbrev Weaker : Check → Check → Type 0
Weaker none b = Unit
Weaker (some f) none = ⊥
Weaker (some f) (some g) = (command cwd : String) → f command cwd ≡ none → g command cwd ≡ none

pub Verdict-cases : (v : Verdict) → ((r : Reason) × (v ≡ denied r)) ⊎ ((c : Cwd) × (v ≡ go_on c))
Verdict-cases (denied r) = inl (r, refl)
Verdict-cases (go_on c) = inr (c, refl)

nested_rule-none :
    (host : Host) (a b : Check)
    → Weaker a b
    → (n : Nested) (cwd : String) → nested_rule host a n cwd ≡ none
    → nested_rule host b n cwd ≡ none
unfolding nested_rule
nested_rule-none host a b w absent cwd h = refl
nested_rule-none host a b w malformed cwd h = h
nested_rule-none host none b w (nested command) cwd h = cc
nested_rule-none host (some f) none w (nested command) cwd h = absurd w
nested_rule-none host (some f) (some g) w (nested command) cwd h = w command cwd h

module _ (host : Host) (a b : Check) (w : Weaker a b) where
  check_segment-go_on :
      (p : Pipeline) (u : List Segment) (s : Segment) (cwd next : Cwd)
      → check_segment host a p u s cwd ≡ go_on next
      → check_segment host b p u s cwd ≡ go_on next
  unfolding check_segment
  check_segment-go_on p u s cwd next h =
      ground
        (arith, nested_rule-none host a b w (nested_shell_command (executable_words s)) cwd.active)

  check_segments-go_on :
      (p : Pipeline) (u ss : List Segment) (cwd next : Cwd)
      → check_segments host a p u ss cwd ≡ go_on next
      → check_segments host b p u ss cwd ≡ go_on next
  unfolding check_segments
  check_segments-go_on p u [] cwd next h = h
  check_segments-go_on p u (s ∷ ss) cwd next h =
      elim (Verdict-cases (check_segment host a p u s cwd)) [
        | inl (r, e) ↦ cc (rw (e, check_segments) at h)
        | inr (c, e) ↦
            rw (check_segment-go_on p u s cwd c e, check_segments)
              (check_segments-go_on p (u ++ s ∷ []) ss c next (rw (e, check_segments) at h))
      ]

  check_pipelines-go_on :
      (ps : List Pipeline) (cwd next : Cwd)
      → check_pipelines host a ps cwd ≡ go_on next
      → check_pipelines host b ps cwd ≡ go_on next
  unfolding check_pipelines
  check_pipelines-go_on [] cwd next h = h
  check_pipelines-go_on (p ∷ ps) cwd next h =
      elim (Verdict-cases (check_segments host a p [] p cwd)) [
        | inl (r, e) ↦ cc (rw (e, check_pipelines) at h)
        | inr (c, e) ↦
            rw (check_segments-go_on p [] p cwd c e, check_pipelines)
              (check_pipelines-go_on ps c next (rw (e, check_pipelines) at h))
      ]

  reason_of-none :
      (ps : List Pipeline) (cwd : Cwd)
      → reason_of (check_pipelines host a ps cwd) ≡ none
      → reason_of (check_pipelines host b ps cwd) ≡ none
  reason_of-none ps cwd h = elim (Verdict-cases (check_pipelines host a ps cwd)) [
    | inl (r, e) ↦ cc (rw e at h)
    | inr (c, e) ↦ rw (check_pipelines-go_on ps cwd c e)
  ]

  check_command-none :
      (command cwd : String)
      → check_command host a command cwd ≡ none
      → check_command host b command cwd ≡ none
  unfolding check_command
  check_command-none command cwd h = elim (Option-cases (shell_pipelines command)) [
    | inl e ↦ cc (rw (e, check_command) at h)
    | inr (ps, e) ↦ rw (e, check_command) (reason_of-none ps _ (rw (e, check_command) at h))
  ]

-- A command that is allowed is allowed too where one more level of nested shells may be checked.
pub denial_within-suc :
    (host : Host) (n : ℕ) (command cwd : String)
    → denial_within host n command cwd ≡ none
    → denial_within host (suc n) command cwd ≡ none
unfolding denial_within
denial_within-suc host zero command cwd h =
    check_command-none host none (some (denial_within host zero)) tt command cwd h
denial_within-suc host (suc n) command cwd h =
    check_command-none host (some (denial_within host n)) (some (denial_within host (suc n)))
      (denial_within-suc host n) command cwd h
