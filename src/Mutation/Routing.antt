-- ===== src/Mutation/Routing.antt =====
-- `route_changed_paths` of scripts/quality/pitest_policy/__init__.py.
pub mod Selected
use gas_station.Base.{
  ℕ, String, ◌<>◌, Bool, true, false, not, ◌&&◌, ◌||◌, Option, none, some, List, [], ◌∷◌,
  if◌then◌else◌, ◌==◌, eq_nat, one_of, place, starts_with, any,
}
use gas_station.Coverage.Outcome.{Result, ok, err, ◌>>=◌, ◌>>◌, policy_error, require}

-- A changed path: the letter of its status, and its two paths.
pub record Change : Type 0 where
  pub status : ℕ
  pub old_path : Option String
  pub new_path : Option String

-- What the function uses of `pathlib`: `Path(path).as_posix()`, `is_absolute()` and `parts`.
pub record PosixPaths : Type 0 where
  pub as_posix : String → String
  pub is_absolute : String → Bool
  pub parts : String → List String

abbrev pub all_modules : List String
all_modules = "location" ∷ "settings" ∷ "station" ∷ []

abbrev pub shared_exact : List String
shared_exact =
    "build.gradle.kts" ∷ "settings.gradle.kts" ∷ "gradle.properties" ∷ "gradle/libs.versions.toml"
    ∷ "gradlew" ∷ "gradlew.bat" ∷ "gradle/verification-metadata.xml"
    ∷ "scripts/agent/check_contracts.py" ∷ "scripts/agent/verify.sh" ∷ "scripts/agent/test.sh"
    ∷ "scripts/agent/tests/check_contracts_test.sh" ∷ "scripts/agent/tests/verify_test.sh"
    ∷ ".github/workflows/android.yml" ∷ ".github/workflows/mutation-schedule.yml"
    ∷ "config/quality/mutation-policy.json" ∷ "config/quality/mutation-baseline.json" ∷ []

abbrev pub shared_prefixes : List String
shared_prefixes =
    "core/model/" ∷ "build-logic/" ∷ "gradle/wrapper/" ∷ "scripts/quality/"
    ∷ "config/quality/mutation-transitions/" ∷ []

-- `status in {"A", "C", "M", "R", "D"}`
abbrev pub is_supported : ℕ → Bool
is_supported s = eq_nat s 65 || eq_nat s 67 || eq_nat s 77 || eq_nat s 82 || eq_nat s 68

-- The set of the selected modules is the list of its members, in the order that `sorted` gives.
unfoldable pub add : String → List String → List String
unfolding one_of
add m selected = if one_of m selected then selected else place m selected

abbrev pub add_where : (String → Bool) → List String → List String → List String
add_where p [] selected = selected
add_where p (m ∷ ms) selected = add_where p ms (if p m then add m selected else selected)

unfoldable pub touches : String → String → Bool
unfolding starts_with
touches path m =
    path == "domain/" <> m <> "/build.gradle.kts"
    || starts_with path ("domain/" <> m <> "/src/main/")
    || starts_with path ("domain/" <> m <> "/src/test/")

unfoldable pub is_shared : String → Bool
unfolding one_of any starts_with
is_shared path = one_of path shared_exact || any (λ p. starts_with path p) shared_prefixes

unfoldable pub is_unclassified : String → Bool
unfolding starts_with is_shared
is_unclassified path = not (is_shared path) && starts_with path "config/quality/mutation-"

module _ (paths : PosixPaths) where
  unfoldable pub escapes : String → Bool
  unfolding one_of
  escapes normalized = paths.is_absolute normalized || one_of ".." (paths.parts normalized)

  -- The round of the inner loop for a path.
  unfoldable pub route_path : Option String → List String → Result (List String)
  unfolding escapes touches is_shared is_unclassified add
  route_path none selected = ok selected
  route_path (some path) selected =
      let normalized = paths.as_posix path in
      let touched = add_where (touches normalized) all_modules selected in
      require (not (escapes normalized))
      >> (if is_shared normalized
          then ok (add_where (λ m. true) all_modules touched)
          else (require (not (is_unclassified normalized)) >> ok touched))

  unfoldable pub route_changes : List Change → List String → Result (List String)
  unfolding route_path
  route_changes [] selected = ok selected
  route_changes (c ∷ changes) selected =
      require (is_supported c.status)
      >> (route_path c.old_path selected >>= λ one.
          route_path c.new_path one >>= λ both. route_changes changes both)

  unfoldable pub route_changed_paths : List Change → Result (List String)
  unfolding route_changes
  route_changed_paths changes = route_changes changes []
