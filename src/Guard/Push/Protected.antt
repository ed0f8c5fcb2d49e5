-- ===== src/Guard/Push/Protected.antt =====
-- Destinations of refspecs, and forced pushes to them, for `protected_ref_destination` and
-- `git_denial` of scripts/agent/pre_tool_policy.py.
use Prim.Native.Char.{Char}
use text.Mathlib.TextLemmas.{cons-append, nil-append}
use gas_station.Base.{
  String, ◌<>◌, Bool, true, false, ◌||◌, none, some, List, [], ◌∷◌, ◌++◌, ◌≡◌, ◌≢◌, ◌⊎◌, refl,
  arith, any, eq_iff, has, same, inl, inr, Bool-cases, after_last?, or_else_text, starts_with,
  suffix_from, size,
}
use gas_station.Guard.Host.{Host}
use gas_station.Guard.Git.{
  git_operation, is_operation, is_protected, without_prefix, protected_ref_destination,
}
use gas_station.Guard.Push.{
  is_dry, is_force, is_plus, refspecs_of, refspec_denial, push_denial, git_denial,
}
use gas_station.Guard.Push.Coverage.{git_denial-push}

refspec_denial-ne-none :
    (xs ys : List String) (r b : String) (forced : Bool)
    → protected_ref_destination r ≡ some b
    → (forced || is_plus r) ≡ true
    → refspec_denial forced (xs ++ r ∷ ys) ≢ none
unfolding refspec_denial
refspec_denial-ne-none [] ys r b forced d f = ground arith
refspec_denial-ne-none (x ∷ xs) ys r b forced d f =
    ground (arith, refspec_denial-ne-none xs ys r b forced)

-- A push that is no dry run and has a refspec whose destination is protected is denied if it forces
-- by an option or by the "+" of that refspec.
pub git_denial-protected :
    (host : Host) (words : List String) (cwd : String) (xs ys : List String) (r b : String)
    → is_operation (git_operation words).0 "push" ≡ true
    → any is_dry (git_operation words).1 ≡ false
    → refspecs_of (git_operation words).1 ≡ xs ++ r ∷ ys
    → protected_ref_destination r ≡ some b
    → (any is_force (git_operation words).1 || is_plus r) ≡ true
    → git_denial host words cwd ≢ none
unfolding push_denial
git_denial-protected host words cwd xs ys r b p dry at d f = ground (
  arith,
  git_denial-push host words cwd p,
  refspec_denial-ne-none xs ys r b (any is_force (git_operation words).1) d f,
)

after_last?-none : (c : Char) (s : String) → has c s ≡ false → after_last? c s ≡ none
unfolding has after_last?
after_last?-none c String.[] h = refl
after_last?-none c (String.◌∷◌ d s) h = ground (arith, after_last?-none c s)

-- The text behind the last ":".
after_last?-append :
    (s t : String) → has ":" t ≡ false → after_last? ":" (s <> String.◌∷◌ ":" t) ≡ some t
unfolding after_last?
after_last?-append String.[] t h = rw (nil-append, after_last?, after_last?-none ":" t h)
after_last?-append (String.◌∷◌ c s) t h = rw (cons-append, after_last?, after_last?-append s t h)

after_last?-without_plus :
    (src t : String)
    → has ":" t ≡ false
    → after_last? ":" (without_prefix "+" (src <> String.◌∷◌ ":" t)) ≡ some t
unfolding without_prefix starts_with suffix_from size
after_last?-without_plus String.[] t h =
    rw (nil-append) (rw nil-append at (after_last?-append String.[] t h))
after_last?-without_plus (String.◌∷◌ c s) t h = elim (Bool-cases (same c "+")) [
  | inl e ↦ rw (cons-append, e) (after_last?-append s t h)
  | inr e ↦ rw (cons-append, e) (rw cons-append at (after_last?-append (String.◌∷◌ c s) t h))
]

-- A branch by its short or its full name.
abbrev pub written : Bool → String → String
written true branch = "refs/heads/" <> branch
written false branch = branch

destination_of :
    (src t b : String)
    → has ":" t ≡ false
    → without_prefix "refs/heads/" t ≡ b
    → is_protected b ≡ true
    → protected_ref_destination (src <> String.◌∷◌ ":" t) ≡ some b
unfolding protected_ref_destination or_else_text
destination_of src t b h w p = rw (after_last?-without_plus src t h, w, p)

names : (b : String) → is_protected b ≡ true → (b ≡ "main") ⊎ (b ≡ "master") ⊎ (b ≡ "trunk")
unfolding is_protected
names b p = ground (arith, eq_iff b "main", eq_iff b "master", eq_iff b "trunk")

-- The destination of `src:branch` and of `src:refs/heads/branch` is the branch, whatever the source
-- and with or without a "+" before it, if the branch is protected.
pub protected_ref_destination-written :
    (src b : String) (full : Bool)
    → is_protected b ≡ true
    → protected_ref_destination (src <> String.◌∷◌ ":" (written full b)) ≡ some b
unfolding has without_prefix starts_with suffix_from size is_protected
protected_ref_destination-written src b true p = elim (names b p) [
  | inl e ↦ rw e (destination_of src _ "main" refl refl refl)
  | inr (inl e) ↦ rw e (destination_of src _ "master" refl refl refl)
  | inr (inr e) ↦ rw e (destination_of src _ "trunk" refl refl refl)
]
protected_ref_destination-written src b false p = elim (names b p) [
  | inl e ↦ rw e (destination_of src _ "main" refl refl refl)
  | inr (inl e) ↦ rw e (destination_of src _ "master" refl refl refl)
  | inr (inr e) ↦ rw e (destination_of src _ "trunk" refl refl refl)
]
