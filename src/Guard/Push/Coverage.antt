-- ===== src/Guard/Push/Coverage.antt =====
-- `destructive_push_requested`, which stops a push in an unresolved directory, beside
-- `git_denial`, in scripts/agent/pre_tool_policy.py.
use text.Mathlib.TextLemmas.{cons-append}
use gas_station.Base.{
  ap, eq_iff, ◌<>◌, starts_with, none, String, Bool, true, false, Option, some, List, [], ◌∷◌, ◌≡◌,
  refl, arith, any, keep, one_of, drop,
}
use gas_station.Guard.Host.{Host}
use gas_station.Guard.Git.{git_operation, is_operation}
use gas_station.Guard.Push.{
  is_dry, is_force, is_plus, destructive_push_requested, refspecs_of, push_denial, git_denial,
  lease_targets, lease_denial, refspec_denial,
}
use gas_station.Guard.Reason.{Reason}

any-keep : (p q : String → Bool) (xs : List String) → any p xs ≡ false → any p (keep q xs) ≡ false
unfolding any keep
any-keep p q [] h = refl
any-keep p q (x ∷ xs) h = ground (arith, any-keep p q xs)

any-drop : (p : String → Bool) (xs : List String) → any p xs ≡ false → any p (drop 1 xs) ≡ false
unfolding any
any-drop p [] h = refl
any-drop p (x ∷ xs) h = ground arith

refspecs-plus :
    (args : List String) → any is_plus args ≡ false → any is_plus (refspecs_of args) ≡ false
unfolding refspecs_of
refspecs-plus args h = any-drop is_plus _ (any-keep is_plus _ args h)

pub starts_with-append : (s p q : String) → starts_with s (p <> q) ≡ true → starts_with s p ≡ true
unfolding starts_with
starts_with-append s String.[] q h = refl
starts_with-append String.[] (String.◌∷◌ c p) q h = rw cons-append at h
starts_with-append (String.◌∷◌ d s) (String.◌∷◌ c p) q h =
    ground (arith, starts_with-append s p q, (rw cons-append at h))

lease_targets-none : (args : List String) → any is_force args ≡ false → lease_targets args ≡ []
unfolding any lease_targets
lease_targets-none [] h = refl
lease_targets-none (t ∷ args) h =
    ground (arith, lease_targets-none args, starts_with-append t "--force-with-lease" "=")

refspec_denial-none :
    (refspecs : List String) → any is_plus refspecs ≡ false → refspec_denial false refspecs ≡ none
unfolding any refspec_denial
refspec_denial-none [] h = refl
refspec_denial-none (r ∷ refspecs) h = ground (arith, refspec_denial-none refspecs)

push_denial-none :
    (host : Host) (args : List String) (cwd : String)
    → one_of "--mirror" args ≡ false
    → any is_force args ≡ false
    → any is_plus args ≡ false
    → push_denial host args cwd ≡ none
unfolding push_denial lease_denial
push_denial-none host args cwd m f p =
    ground (
      arith,
      refspecs-plus args p,
      lease_targets-none args f,
      refspec_denial-none (refspecs_of args),
    )

push_denial-dry :
    (host : Host) (args : List String) (cwd : String)
    → any is_dry args ≡ true
    → push_denial host args cwd ≡ none
unfolding push_denial
push_denial-dry host args cwd h = ground arith

pub is_operation-eq :
    (operation : Option String) (name : String)
    → is_operation operation name ≡ true
    → operation ≡ some name
unfolding is_operation
is_operation-eq none name h = cc
is_operation-eq (some w) name h = ap some ((eq_iff w name).0 h)

-- For a push, `git_denial` is `push_denial`.
pub git_denial-push :
    (host : Host) (words : List String) (cwd : String)
    → is_operation (git_operation words).0 "push" ≡ true
    → git_denial host words cwd ≡ push_denial host (git_operation words).1 cwd
unfolding git_denial is_operation
git_denial-push host words cwd h =
    rw (is_operation-eq (git_operation words).0 "push" h) (ground arith)

-- Every push for which `git_denial` gives a reason, in any directory, is one that
-- `destructive_push_requested` finds.
pub destructive_push_requested-git_denial :
    (host : Host) (words : List String) (cwd : String) (r : Reason)
    → is_operation (git_operation words).0 "push" ≡ true
    → git_denial host words cwd ≡ some r
    → destructive_push_requested words ≡ true
unfolding destructive_push_requested
destructive_push_requested-git_denial host words cwd r p h = ground (
  arith,
  git_denial-push host words cwd p,
  push_denial-dry host (git_operation words).1 cwd,
  push_denial-none host (git_operation words).1 cwd,
)
