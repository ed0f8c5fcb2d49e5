-- ===== src/Guard/Rm/Flags.antt =====
-- The flags and the targets that `rm_denial` of scripts/agent/pre_tool_policy.py reads from a
-- command line.
use mathlib.Core.List.{append_assoc, append-nil}
use gas_station.Base.{
  String, Bool, true, false, not, ◌&&◌, ◌||◌, none, some, List, [], ◌∷◌, ◌++◌, ◌==◌, ◌≡◌, refl, ◌∙◌,
  ap, inl, inr, Bool-cases, any, keep, if◌then◌else◌,
}
use gas_station.Guard.Host.{Host}
use gas_station.Guard.Words.{is_option}
use gas_station.Guard.Rm.{
  RmArgs, is_recursive, is_forced, rm_token, rm_scan, rm_args, no_args, is_broad_target, rm_denial,
}
use gas_station.Guard.Reason.{broad_deletion}

-- The words before the first `--`, and those behind it.
pub options_part : List String → List String
options_part [] = []
options_part (w ∷ ws) = let rest = options_part ws in if w == "--" then [] else w ∷ rest

pub behind_marker : List String → List String
behind_marker [] = []
behind_marker (w ∷ ws) = let rest = behind_marker ws in if w == "--" then ws else rest

abbrev is_target : String → Bool
is_target w = not (is_option w)

abbrev no_marker : String → Bool
no_marker w = not (w == "--")

-- The targets: the words before a `--` that are no options, and all behind it but further `--`.
pub targets_of : List String → List String
targets_of ws = keep is_target (options_part ws) ++ keep no_marker (behind_marker ws)

abbrev pub has_flag : (String → Bool) → List String → Bool
has_flag p ws = any (λ w. is_option w && p w) (options_part ws)

or-false : (b : Bool) → (b || false) ≡ b
or-false true = refl
or-false false = refl

or_assoc : (a b c : Bool) → ((a || b) || c) ≡ (a || (b || c))
or_assoc true b c = refl
or_assoc false b c = refl

abbrev at : Bool → Bool → List String → Bool → RmArgs
at r f ts d = record { recursive = r; forced = f; targets = ts; options_done = d }

rm_scan-done :
    (r f : Bool) (ts ws : List String)
    → rm_scan (at r f ts true) ws ≡ at r f (ts ++ keep no_marker ws) true
unfolding rm_scan rm_token keep
rm_scan-done r f ts [] = rw append-nil
rm_scan-done r f ts (w ∷ ws) = elim (Bool-cases (w == "--")) [
  | inl e ↦ rw e (rm_scan-done r f ts ws)
  | inr n ↦ rw n (rm_scan-done r f (ts ++ w ∷ []) ws ∙ rw append_assoc)
]

-- Whether a `--` stands among the words.
has_marker : List String → Bool
has_marker ws = any (λ w. w == "--") ws

rm_scan-open :
    (r f : Bool) (ts ws : List String)
    → rm_scan (at r f ts false) ws
      ≡ at
          (r || has_flag is_recursive ws)
          (f || has_flag is_forced ws)
          (ts ++ targets_of ws)
          (has_marker ws)
unfolding rm_scan rm_token keep any options_part behind_marker targets_of has_marker
rm_scan-open r f ts [] = simp (or-false, append-nil)
rm_scan-open r f ts (w ∷ ws) = elim (Bool-cases (w == "--")) [
  | inl e ↦ rw e (rm_scan-done r f ts ws ∙ simp or-false)
  | inr n ↦ elim (Bool-cases (is_option w)) [
    | inl o ↦
        rw (n, o)
          (rm_scan-open (r || is_recursive w) (f || is_forced w) ts ws
            ∙ rw (
              or_assoc r (is_recursive w) (has_flag is_recursive ws),
              or_assoc f (is_forced w) (has_flag is_forced ws),
            ))
    | inr m ↦ rw (n, m) (rm_scan-open r f (ts ++ w ∷ []) ws ∙ simp append_assoc)
  ]
]

-- The two flags are looked for among the options before the first `--`.
pub rm_args-flags :
    (rm : String) (ws : List String)
    → ((rm_args (rm ∷ ws)).recursive ≡ has_flag is_recursive ws)
      × ((rm_args (rm ∷ ws)).forced ≡ has_flag is_forced ws)
      × ((rm_args (rm ∷ ws)).targets ≡ targets_of ws)
unfolding rm_args
rm_args-flags rm ws = (
  ap (λ (a : RmArgs). a.recursive) e,
  ap (λ (a : RmArgs). a.forced) e,
  ap (λ (a : RmArgs). a.targets) e,
)
  where
    e :
        rm_scan no_args ws
        ≡ at (has_flag is_recursive ws) (has_flag is_forced ws) (targets_of ws) (has_marker ws)
    e = rm_scan-open false false [] ws

-- `rm` is denied exactly when both flags stand before the first `--` and a target is broad.
pub rm_denial-flags :
    (host : Host) (rm : String) (ws : List String) (cwd : String)
    → rm_denial host (rm ∷ ws) cwd ≡ (
        if has_flag is_recursive ws
          && has_flag is_forced ws
          && any (is_broad_target host cwd) (targets_of ws)
        then some broad_deletion
        else none)
unfolding rm_denial
rm_denial-flags host rm ws cwd = let (r, f, t) = rm_args-flags rm ws in rw (r, f, t)
