-- ===== src/Pitest/Route.antt =====
-- The choice of the modules in `route` of scripts/quality/verify_pitest.py.
pub mod Composed
use gas_station.Base.{
  ℕ, String, ◌<>◌, code, Bool, true, false, not, ◌&&◌, ◌||◌, Option, none, some, List, [], ◌∷◌,
  if◌then◌else◌, ◌==◌, eq_nat, leb, size, one_of,
}
use gas_station.Coverage.Outcome.{Result, ok, err, ◌>>=◌, ◌>>◌, policy_error, require}
use gas_station.Coverage.Bytes.{Bytes}
use gas_station.Mutation.Routing.{Change, PosixPaths, route_changed_paths}
use gas_station.Pitest.NameStatus.{parse_name_status}

-- The git commands that the function runs: `rev-parse`, `merge-base`, and the `diff` of a range.
pub record Git : Type 0 where
  pub rev_parse : Result String
  pub merge_base : String → String → Result String
  pub diff : String → Result Bytes

-- What is put into the route's value.
pub record Selection : Type 0 where
  pub source_commit : String
  pub merge_base_commit : Option String
  pub changes : List Change
  pub modules : List String

unfoldable pub all_hex : String → Bool
all_hex String.[] = true
all_hex (String.◌∷◌ c s) =
    (leb 48 (code c) && leb (code c) 57 || leb 97 (code c) && leb (code c) 102) && all_hex s

-- `re.fullmatch(r"[0-9a-f]{40}", s)`
unfoldable pub is_commit : String → Bool
unfolding size all_hex
is_commit s = eq_nat (size s) 40 && all_hex s

abbrev pub no_commit : String
no_commit = "0000000000000000000000000000000000000000"

unfoldable pub base_of : Option String → Result String
unfolding is_commit
base_of none = err policy_error
base_of (some base) = require (is_commit base && not (base == no_commit)) >> ok base

-- `policy_modules` are the names of the policy's modules, sorted.
module _ (utf8 : Bytes → Option String) (paths : PosixPaths) (git : Git)
    (policy_modules : List String) where
  unfoldable pub pull_request : String → Option String → Result Selection
  unfolding base_of is_commit parse_name_status route_changed_paths
  pull_request source base = base_of base >>= λ b. git.merge_base b source >>= λ m.
      require (is_commit m)
      >> (git.diff (m <> "..." <> source) >>= λ raw. parse_name_status utf8 raw >>= λ cs.
          route_changed_paths paths cs >>= λ selected. ok (record {
            source_commit = source;
            merge_base_commit = some m;
            changes = cs;
            modules = selected;
          }))

  unfoldable pub select : String → Option String → Result Selection
  unfolding pull_request is_commit one_of
  select event base = git.rev_parse >>= λ source.
      require (is_commit source)
      >> (if event == "pull-request"
          then pull_request source base
          else if one_of event ("local-all" ∷ "main" ∷ "tag" ∷ "schedule" ∷ [])
          then ok (record {
            source_commit = source;
            merge_base_commit = none;
            changes = [];
            modules = policy_modules;
          })
          else err policy_error)
