-- ===== src/Mutation/Examples.antt =====
-- Runs of the mutation gate's primitives, and their theorems at concrete inputs.
use gas_station.Base.{
  inl, inr, All, List, [], ◌∷◌, ◌++◌, ◌≡◌, ◌↔◌, ◌⊎◌, ◌&&◌, refl, true, false, some, String,
  starts_with, split, all, any, one_of, arith,
}
use gas_station.Coverage.Bytes.{Bytes, ascii}
use gas_station.Coverage.Outcome.{ok, err, policy_error}
use gas_station.Coverage.Floors.{number}
use gas_station.Mutation.Text.{decode_modified_utf8}
use gas_station.Mutation.Text.RoundTrip.{utf16, encode, decode_modified_utf8-encode}
use gas_station.Mutation.ClassFile.{parse_class_source_file}
use gas_station.Mutation.ClassFile.Accepted.{HasSoundPool, parse_class_source_file-IsSound}
use gas_station.Mutation.Floor.{compare_floor}
use gas_station.Mutation.Descriptor.{validate_descriptor}
use gas_station.Mutation.Descriptor.Grammar.{FieldType, IsFieldType, write_descriptor}
use gas_station.Mutation.Descriptor.Exact.{validate_descriptor_iff}
use gas_station.Mutation.NoCoverage.{PackageCounters, compare_no_coverage}
use gas_station.Mutation.NoCoverage.Grown.{packages_of, has_grown, compare_no_coverage-grown}
use gas_station.Mutation.Routing.{Change, PosixPaths, all_modules, route_changed_paths}
use gas_station.Mutation.Routing.Selected.{
  change_concerns, is_routable, route_changed_paths-selected,
}

-- A zero, a letter and a character with a surrogate pair.
decode_modified_utf8-encode_example :
    decode_modified_utf8 (encode (utf16 (0 ∷ 233 ∷ 128512 ∷ []))) ≡ ok (0 ∷ 233 ∷ 128512 ∷ [])
decode_modified_utf8-encode_example =
    decode_modified_utf8-encode (0 ∷ 233 ∷ 128512 ∷ [])
      (inl (omega arith), (inl (omega arith), (inr (omega arith, omega arith), tt)))

-- The class A of A.kt, with a long constant, a name with a type, a method and a handle of it.
abbrev class_file : Bytes
class_file =
    (202 ∷ 254 ∷ 186 ∷ 190 ∷ 0 ∷ 0 ∷ 0 ∷ 61 ∷ 0 ∷ 10 ∷ [])
    ++ (1 ∷ 0 ∷ 1 ∷ 65 ∷ 7 ∷ 0 ∷ 1 ∷ [])
    ++ (1 ∷ 0 ∷ 10 ∷ 83 ∷ 111 ∷ 117 ∷ 114 ∷ 99 ∷ 101 ∷ 70 ∷ 105 ∷ 108 ∷ 101 ∷ [])
    ++ (1 ∷ 0 ∷ 4 ∷ 65 ∷ 46 ∷ 107 ∷ 116 ∷ [])
    ++ (5 ∷ 0 ∷ 0 ∷ 0 ∷ 0 ∷ 0 ∷ 0 ∷ 0 ∷ 0 ∷ [])
    ++ (12 ∷ 0 ∷ 1 ∷ 0 ∷ 3 ∷ 10 ∷ 0 ∷ 2 ∷ 0 ∷ 7 ∷ 15 ∷ 5 ∷ 0 ∷ 8 ∷ [])
    ++ (0 ∷ 33 ∷ 0 ∷ 2 ∷ 0 ∷ 0 ∷ 0 ∷ 0 ∷ 0 ∷ 0 ∷ 0 ∷ 0 ∷ 0 ∷ 1 ∷ [])
    ++ (0 ∷ 3 ∷ 0 ∷ 0 ∷ 0 ∷ 2 ∷ 0 ∷ 4 ∷ [])

class_file_parsed : parse_class_source_file class_file ≡ ok (65 ∷ [], 65 ∷ 46 ∷ 107 ∷ 116 ∷ [])
unfolding parse_class_source_file
class_file_parsed = refl

parse_class_source_file-IsSound_example : HasSoundPool class_file
parse_class_source_file-IsSound_example =
    parse_class_source_file-IsSound class_file (65 ∷ [], 65 ∷ 46 ∷ 107 ∷ 116 ∷ []) class_file_parsed

-- A floor that is met by as much as it asks for, one that is not, and numbers out of bounds.
floors :
    (compare_floor (number 3) (number 4) (number 75) ≡ ok true)
    × (compare_floor (number 3) (number 4) (number 76) ≡ ok false)
    × (compare_floor (number 5) (number 4) (number 75) ≡ err policy_error)
unfolding compare_floor
floors = (refl, refl, refl)

abbrev posix : PosixPaths
posix = record {
  as_posix = λ path. path;
  is_absolute = λ path. starts_with path "/";
  parts = λ path. split "/" path;
}

abbrev moved : List Change
moved =
    record {
      status = 82;
      old_path = some "domain/station/src/main/kotlin/A.kt";
      new_path = some "domain/location/src/main/kotlin/A.kt";
    }
    ∷ []

routes_moved : route_changed_paths posix moved ≡ ok ("location" ∷ "station" ∷ [])
unfolding route_changed_paths split
routes_moved = refl

route_changed_paths-selected_example :
    ((all (is_routable posix) moved ≡ false) × (route_changed_paths posix moved ≡ err policy_error))
    ⊎ ((all (is_routable posix) moved ≡ true)
        × (selected : List String) × (route_changed_paths posix moved ≡ ok selected)
        × ((m : String)
            → one_of m selected ≡ (one_of m all_modules && any (change_concerns posix m) moved)))
route_changed_paths-selected_example = route_changed_paths-selected posix moved

-- A method with an array of texts and a number, and two that are refused.
descriptors :
    (validate_descriptor (ascii "([Ljava/lang/String;I)V") ≡ ok tt)
    × (validate_descriptor (ascii "([V)V") ≡ err policy_error)
    × (validate_descriptor (ascii "(La//b;)V") ≡ err policy_error)
unfolding validate_descriptor ascii
descriptors = (refl, refl, refl)

validate_descriptor_iff_example :
    (validate_descriptor (ascii "([Ljava/lang/String;I)V") ≡ ok tt) ↔ (
      (ts : List FieldType) × (result : FieldType) × All (IsFieldType false) ts
      × IsFieldType true result
      × (ascii "([Ljava/lang/String;I)V" ≡ write_descriptor ts result))
validate_descriptor_iff_example = validate_descriptor_iff (ascii "([Ljava/lang/String;I)V")

abbrev uncovered : PackageCounters
uncovered = ("a", number 1) ∷ ("b", number 4) ∷ []

abbrev uncovered_now : PackageCounters
uncovered_now = ("a", number 2) ∷ ("b", number 3) ∷ ("c", number 1) ∷ []

no_coverage_compared :
    compare_no_coverage uncovered uncovered_now ("c" ∷ "a" ∷ "b" ∷ "a" ∷ [])
    ≡ ok (("a", 1, 2) ∷ ("c", 0, 1) ∷ [])
unfolding compare_no_coverage
no_coverage_compared = refl

compare_no_coverage-grown_example :
    one_of "b" (packages_of (("a", 1, 2) ∷ ("c", 0, 1) ∷ []))
    ≡ (one_of "b" ("c" ∷ "a" ∷ "b" ∷ "a" ∷ []) && has_grown uncovered uncovered_now "b")
compare_no_coverage-grown_example =
    compare_no_coverage-grown uncovered uncovered_now ("c" ∷ "a" ∷ "b" ∷ "a" ∷ [])
      (("a", 1, 2) ∷ ("c", 0, 1) ∷ []) no_coverage_compared "b"
