-- ===== src/Pitest/Route/Composed.antt =====
-- The modules that `route` of scripts/quality/verify_pitest.py selects for the records that git
-- writes.
use gas_station.Base.{
  String, ◌<>◌, true, false, ◌&&◌, Option, some, List, ◌==◌, ◌≡◌, refl, sym, ◌∙◌, map, one_of, any,
  all, All, inl, inr,
}
use gas_station.Coverage.Outcome.{ok}
use gas_station.Coverage.Bytes.{Bytes}
use gas_station.Mutation.Routing.{PosixPaths, all_modules}
use gas_station.Mutation.Routing.Selected.{
  change_concerns, is_routable, route_changed_paths-selected,
}
use gas_station.Pitest.NameStatus.RoundTrip.{
  Entry, change_of, write_entries, IsEntry, parse_name_status-write,
}
use gas_station.Pitest.Route.{Git, Selection, is_commit, no_commit, base_of, pull_request, select}

module _ (utf8 : Bytes → Option String) (encode : String → Bytes) (paths : PosixPaths) (git : Git)
    (policy_modules : List String) where
  -- For a pull request whose base is a commit and not the zero one, where git gives commits for
  -- the head and the merge base, and its diff is the stream of records of changes that can all be
  -- routed: the choice is made, holds these changes, and selects exactly those of the three modules
  -- that a change concerns.
  pub select-write :
      (source base m : String) (entries : List Entry)
      → git.rev_parse ≡ ok source
      → is_commit source ≡ true
      → is_commit base ≡ true
      → (base == no_commit) ≡ false
      → git.merge_base base source ≡ ok m
      → is_commit m ≡ true
      → git.diff (m <> "..." <> source) ≡ ok (write_entries utf8 encode entries)
      → All (IsEntry utf8 encode) entries
      → all (is_routable paths) (map change_of entries) ≡ true
      → (selection : Selection) × (select utf8 paths git policy_modules "pull-request" (some base)
          ≡ ok selection)
        × (selection.changes ≡ map change_of entries)
        × ((module_name : String)
            → one_of module_name selection.modules ≡ (
                one_of module_name all_modules
                && any (change_concerns paths module_name) (map change_of entries)))
  unfolding select pull_request base_of
  select-write source base m entries hr hs hb hz hm hc hd he ha =
      elim (route_changed_paths-selected paths (map change_of entries)) [
        | inl (odd, e) ↦ cc (sym ha ∙ odd)
        | inr (fine, selected, e, members) ↦ (
          record {
            source_commit = source;
            merge_base_commit = some m;
            changes = map change_of entries;
            modules = selected;
          },
          rw (hr, hs, hb, hz, hm, hc, hd, parse_name_status-write utf8 encode entries he, e) refl,
          refl,
          members,
        )
      ]
