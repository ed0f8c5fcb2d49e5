-- ===== src/Guard/Push/Operations.antt =====
-- The rules of `git_denial` of scripts/agent/pre_tool_policy.py, operation by operation.
use gas_station.Base.{
  String, Bool, false, ◌&&◌, ◌||◌, not, Option, none, some, List, ◌==◌, ◌≡◌, arith, ◌⊎◌, eq_iff,
  any, one_of, inl, inr, if◌then◌else◌,
}
use gas_station.Guard.Host.{Host}
use gas_station.Guard.Git.{git_operation, is_operation, short_option_has}
use gas_station.Guard.Push.{is_dry, is_patch, restores_broadly, push_denial, git_rules, git_denial}
use gas_station.Guard.Reason.{Reason, hard_reset, broad_checkout, broad_restore, forced_clean}

pub data Operation : Type 0 where
  reset checkout restore clean push unguarded : Operation

-- The operations that have a rule.
unfoldable pub operation_of : Option String → Operation
operation_of none = unguarded
operation_of (some w) =
    if w == "reset"
    then reset
    else if w == "checkout"
    then checkout
    else if w == "restore"
    then restore
    else if w == "clean"
    then clean
    else if w == "push"
    then push
    else unguarded

abbrev deny_if : Bool → Reason → Option Reason
deny_if b r = if b then some r else none

module _ (host : Host) (args : List String) (cwd : String) where
  abbrev restoring : Reason → Option Reason
  restoring = deny_if (not (any (is_patch host) args) && restores_broadly host args cwd)

  -- One rule for each operation.
  unfoldable pub rule : Operation → Option Reason
  rule reset = deny_if (one_of "--hard" args) hard_reset
  rule checkout = restoring broad_checkout
  rule restore = restoring broad_restore
  rule clean =
      deny_if (not (any is_dry args) && any (λ t. t == "--force" || short_option_has t "f") args)
        forced_clean
  rule push = push_denial host args cwd
  rule unguarded = none

-- An operation is one of the five, or none of them.
cases :
    (w : String)
    → (w ≡ "reset")
      ⊎ (w ≡ "checkout")
      ⊎ (w ≡ "restore")
      ⊎ (w ≡ "clean")
      ⊎ (w ≡ "push")
      ⊎ (((w == "reset") ≡ false)
          × ((w == "checkout") ≡ false)
          × ((w == "restore") ≡ false)
          × ((w == "clean") ≡ false)
          × ((w == "push") ≡ false))
cases w = ground (
  arith,
  eq_iff w "reset",
  eq_iff w "checkout",
  eq_iff w "restore",
  eq_iff w "clean",
  eq_iff w "push",
)

git_rules-rule :
    (host : Host) (operation : Option String) (args : List String) (cwd : String)
    → git_rules host operation args cwd ≡ rule host args cwd (operation_of operation)
unfolding git_rules operation_of rule is_operation
git_rules-rule host none args cwd = ground arith
git_rules-rule host (some w) args cwd = elim (cases w) [
  | inl e ↦ rw e (ground arith)
  | inr (inl e) ↦ rw e (ground arith)
  | inr (inr (inl e)) ↦ rw e (ground arith)
  | inr (inr (inr (inl e))) ↦ rw e (ground arith)
  | inr (inr (inr (inr (inl e)))) ↦ rw e (ground arith)
  | inr (inr (inr (inr (inr (a, b, c, d, e))))) ↦ rw (a, b, c, d, e) (ground arith)
]

-- The guarded operations each have their own rule, and no other operation is denied.
pub git_denial-rule :
    (host : Host) (words : List String) (cwd : String)
    → git_denial host words cwd
      ≡ (let (operation, args) = git_operation words in rule host args cwd (operation_of operation))
unfolding git_denial
git_denial-rule host words cwd =
    git_rules-rule host (git_operation words).0 (git_operation words).1 cwd
