-- ===== src/Guard/Brace.antt =====
-- `brace_group` and `brace_alternatives` of scripts/agent/pre_tool_policy.py.
pub mod Sequence
pub mod Bounds
pub mod Termination
pub mod Shrinks
pub mod Values
pub mod Counts
use gas_station.Base.{
  ℕ, zero, suc, ◌+◌, ◌-◌, ◌*◌, Char, String, ◌<>◌, Bool, true, false, not, ◌&&◌, ◌||◌, Option, none,
  some, List, [], ◌∷◌, ◌++◌, if◌then◌else◌, ltb, eq_nat, any, map, has, same, length, count_char,
  suffix_from, prefix_to,
}
use gas_station.Guard.Host.{Host}
use gas_station.Guard.Brace.Sequence.{no_sequence, invalid, values, has_dots, sequence_alternatives}

-- A malformed pattern, one with no group to expand, or a group: its first and last position and
-- what stands for it.
pub data Group : Type 0 where
  malformed no_group : Group
  group : ℕ → ℕ → List String → Group

abbrev cons_first : Char → List String → List String
cons_first c [] = String.◌∷◌ c String.[] ∷ []
cons_first c (x ∷ xs) = String.◌∷◌ c x ∷ xs

abbrev depth_after : Char → ℕ → ℕ
depth_after c depth = if same c "{" then depth + 1 else if same c "}" then depth - 1 else depth

-- The contents cut at the commas outside inner braces. Its braces match, so the depth never falls
-- below 0.
unfoldable pub alternatives_of : ℕ → String → List String
alternatives_of depth String.[] = String.[] ∷ []
alternatives_of depth (String.◌∷◌ c s) =
    let now = depth_after c depth in
    let rest = alternatives_of now s in
    if same c "," && eq_nat now 0 then String.[] ∷ rest else cons_first c rest

-- `"," in text or ".." in text`
unfoldable pub has_comma_or_dots : String → Bool
unfolding has has_dots
has_comma_or_dots text = has "," text || has_dots text

abbrev malformed_if : Bool → Group → Group
malformed_if b g = if b then malformed else g

abbrev spliced : String → ℕ → ℕ → String → String
spliced current start end replacement =
    prefix_to start current <> (replacement <> suffix_from (end + 1) current)

-- `None`, the alternatives, or a loop that has not ended.
pub data Expansion : Type 0 where
  refused unfinished : Expansion
  alternatives : List String → Expansion

module _ (host : Host) where
  -- The candidate that a closed group leaves.
  unfoldable pub closed : Group → ℕ → ℕ → String → Group
  unfolding alternatives_of sequence_alternatives
  closed no_group start end contents =
      if ltb 1 (length (alternatives_of 0 contents))
      then group start end (alternatives_of 0 contents)
      else elim (sequence_alternatives host contents) [
        | no_sequence ↦ no_group
        | invalid ↦ malformed
        | values vs ↦ group start end vs
      ]
  closed candidate start end contents = candidate

  -- The loop over the pattern from a position on, with the stack of open braces.
  unfoldable pub group_scan : String → ℕ → String → List ℕ → Group → Group
  unfolding closed has_comma_or_dots any prefix_to suffix_from
  group_scan pattern index rest stack malformed = malformed
  group_scan pattern index String.[] stack candidate =
      malformed_if (any (λ start. has_comma_or_dots (suffix_from start pattern)) stack) candidate
  group_scan pattern index (String.◌∷◌ c s) [] candidate =
      let after_open = group_scan pattern (index + 1) s (index ∷ []) candidate in
      let after_other = group_scan pattern (index + 1) s [] candidate in
      if same c "{"
      then after_open
      else if same c "}"
      then malformed_if (has_comma_or_dots pattern) no_group
      else after_other
  group_scan pattern index (String.◌∷◌ c s) (start ∷ stack) candidate =
      let after_open = group_scan pattern (index + 1) s (index ∷ start ∷ stack) candidate in
      let contents = prefix_to (index - (start + 1)) (suffix_from (start + 1) pattern) in
      let after_close =
        group_scan pattern (index + 1) s stack (closed candidate start index contents) in
      let after_other = group_scan pattern (index + 1) s (start ∷ stack) candidate in
      if same c "{" then after_open else if same c "}" then after_close else after_other

  unfoldable pub brace_group : String → Group
  unfolding group_scan
  brace_group pattern = group_scan pattern 0 pattern [] no_group

  -- The alternatives before the index, and from the index on.
  unfoldable pub expand : ℕ → List String → List String → Expansion
  unfolding brace_group prefix_to suffix_from
  expand zero done pending = unfinished
  expand (suc fuel) done [] = alternatives done
  expand (suc fuel) done (current ∷ pending) = elim (brace_group current) [
    | malformed ↦ refused
    | no_group ↦ expand fuel (done ++ current ∷ []) pending
    | group start end replacements ↦
        let next = map (spliced current start end) replacements ++ pending in
        elim (ltb 64 (length done + length pending + length replacements)) [
          | true ↦ refused
          | false ↦ expand fuel done next
        ]
  ]

  unfoldable pub expansion_fuel : String → ℕ
  unfolding count_char
  expansion_fuel pattern = 64 * (count_char "{" pattern + 1) + 1

  unfoldable pub brace_alternatives : String → Expansion
  unfolding expand expansion_fuel
  brace_alternatives pattern = expand (expansion_fuel pattern) [] (pattern ∷ [])
