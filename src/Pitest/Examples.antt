-- ===== src/Pitest/Examples.antt =====
-- The theorems about scripts/quality/verify_pitest.py at concrete inputs.
use gas_station.Base.{
  arith, String, Option, map, all, any, All, ◌==◌, ◌&&◌, starts_with, split, true, false, none,
  some, List, [], ◌∷◌, ◌≡◌, refl, if◌then◌else◌, one_of,
}
use gas_station.Coverage.Statuses.{find}
use gas_station.Pitest.Steps.{Event, goes, breaks}
use gas_station.Pitest.Install.{already_there, sorted_files, install_successor_atomically}
use gas_station.Pitest.Install.Tests.{small, successor, before, in_e}
use gas_station.Pitest.Install.Wanted.{wanted, IsSeparate}
use gas_station.Pitest.Install.Sorted.{put_all}
use gas_station.Coverage.Bytes.{Bytes, ascii, bytes_eq}
use gas_station.Coverage.Outcome.{ok}
use gas_station.Mutation.Routing.{PosixPaths, all_modules, escapes, is_unclassified}
use gas_station.Mutation.Routing.Selected.{change_concerns, is_routable}
use gas_station.Pitest.NameStatus.{parse_name_status}
use gas_station.Pitest.NameStatus.RoundTrip.{
  Entry, added, deleted, modified, renamed, copied, change_of, write_entries, IsEntry,
  parse_name_status-write,
}
use gas_station.Pitest.Route.{Git, Selection, is_commit, no_commit, select}
use gas_station.Pitest.Route.Composed.{select-write}
use gas_station.Pitest.Install.Atomic.{install-IsAtomic}
use gas_station.Pitest.Install.Returns.{install-returns}

successor-IsSeparate : IsSeparate successor before.files
unfolding one_of sorted_files find
successor-IsSeparate = record {
  predecessor = refl;
  baseline_plain = refl;
  targets_plain = (refl, (refl, (refl, tt)));
  targets_distinct = (refl, (refl, (refl, tt)));
}

abbrev failing : List Event
failing = goes ∷ goes ∷ goes ∷ goes ∷ goes ∷ goes ∷ goes ∷ goes ∷ goes ∷ goes ∷ breaks [] ∷ []

install-IsAtomic_example :
    let (after, returns) = install_successor_atomically small in_e "e" successor before failing in
    find "base" after.files
    ≡ find "base" (if returns then put_all (wanted successor) before.files else before.files)
unfolding one_of sorted_files
install-IsAtomic_example =
    install-IsAtomic small in_e "e" successor before failing successor-IsSeparate
      (cc, (cc, (cc, (cc, (cc, (cc, (cc, (cc, (cc, (cc, (cc, tt))))))))))) "base" refl

successor-fresh : already_there successor before ≡ false
unfolding find any
successor-fresh = refl

install-returns_example :
    (install_successor_atomically small in_e "e" successor before (goes ∷ goes ∷ [])).1 ≡ true
install-returns_example =
    install-returns small in_e "e" successor before (goes ∷ goes ∷ []) successor-IsSeparate
      successor-fresh (refl, tt) (refl, (refl, tt))

-- Two paths as bytes.
abbrev source_file : String
source_file = "domain/station/src/main/kotlin/A.kt"

unfoldable two_names : Bytes → Option String
unfolding ascii
two_names raw =
    if bytes_eq raw (ascii source_file)
    then some source_file
    else if bytes_eq raw (ascii "gradlew")
    then some "gradlew"
    else none

abbrev entries : List Entry
entries =
    modified 77 [] source_file
    ∷ added [] "gradlew"
    ∷ deleted [] source_file
    ∷ renamed (49 ∷ 48 ∷ 48 ∷ []) "gradlew" source_file
    ∷ copied (57 ∷ 48 ∷ []) source_file "gradlew"
    ∷ []

entries-IsEntry : All (IsEntry two_names ascii) entries
unfolding two_names all ascii
entries-IsEntry = (
  ((omega arith, omega arith, omega arith, omega arith), (refl, refl), (refl, refl)),
  (
    ((refl, refl), (refl, refl)),
    (
      ((refl, refl), (refl, refl)),
      (
        ((refl, refl), (refl, refl), (refl, refl)),
        (((refl, refl), (refl, refl), (refl, refl)), tt),
      ),
    ),
  ),
)

parse_name_status-write_example :
    parse_name_status two_names (write_entries two_names ascii entries) ≡ ok (map change_of entries)
parse_name_status-write_example = parse_name_status-write two_names ascii entries entries-IsEntry

abbrev posix : PosixPaths
posix = record {
  as_posix = λ path. path;
  is_absolute = λ path. starts_with path "/";
  parts = λ path. split "/" path;
}

abbrev head : String
head = "0123456789abcdef0123456789abcdef01234567"

abbrev git : Git
git = record {
  rev_parse = ok head;
  merge_base = λ base source. ok base;
  diff = λ range. ok (write_entries two_names ascii entries);
}

head_plain : (is_commit head ≡ true) × ((head == no_commit) ≡ false)
unfolding is_commit
head_plain = (refl, refl)

entries_plain : all (is_routable posix) (map change_of entries) ≡ true
unfolding all escapes is_unclassified split
entries_plain = refl

select-write_example :
    (selection : Selection) × (select two_names posix git all_modules "pull-request" (some head)
      ≡ ok selection)
    × (selection.changes ≡ map change_of entries)
    × ((module_name : String)
        → one_of module_name selection.modules ≡ (
            one_of module_name all_modules
            && any (change_concerns posix module_name) (map change_of entries)))
select-write_example =
    select-write two_names ascii posix git all_modules head head head entries refl head_plain.0
      head_plain.0 head_plain.1 refl head_plain.0 refl entries-IsEntry entries_plain
