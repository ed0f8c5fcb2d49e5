-- ===== src/Guard/Brace/Shrinks.antt =====
-- The opening braces in the alternatives of a group that `brace_group` of
-- scripts/agent/pre_tool_policy.py finds.
use gas_station.Base.{
  ℕ, ◌+◌, ◌-◌, ◌<◌, Char, String, Bool, true, false, List, [], ◌∷◌, ◌≡◌, refl, sym, ap, ◌∙◌, arith,
  if◌then◌else◌, same, suffix_from, prefix_to, All, length, ltb, Bool-cases, inl, inr, ◌⊎◌,
}
use gas_station.Guard.Host.{Host}
use gas_station.Guard.Brace.Sequence.{Sequence, no_sequence, invalid, values, sequence_alternatives}
use gas_station.Guard.Brace.Values.{sequence_alternatives-IsGood}
use gas_station.Guard.Brace.Counts.{
  braces, braces-cons, braces-cut, suffix_from_add, alternatives_of-AtMost,
}
use gas_station.Guard.Brace.{
  Group, malformed, no_group, group, malformed_if, alternatives_of, closed, group_scan, brace_group,
}

-- The opening braces of the text around a group, with a text in its place.
abbrev pub around : String → ℕ → ℕ → String → ℕ
around pattern start end replacement =
    braces (prefix_to start pattern) + (braces replacement + braces (suffix_from (end + 1) pattern))

-- A group has an alternative, and each of them leaves fewer opening braces.
abbrev pub Shrinks : String → Group → Type 0
Shrinks pattern (group start end replacements) =
    (0 < length replacements) × All (λ r. around pattern start end r < braces pattern) replacements
Shrinks pattern _ = Unit

-- The texts from two positions on start with a brace that opens and with one that closes.
abbrev Opens : String → ℕ → ℕ → Type 0
Opens pattern index start =
    (start < index)
    × (c : Char) × (t : String) × (suffix_from start pattern ≡ String.◌∷◌ c t)
    × (same c "{" ≡ true)

Sequence-cases :
    (s : Sequence) → (s ≡ no_sequence) ⊎ (s ≡ invalid) ⊎ ((vs : List String) × (s ≡ values vs))
Sequence-cases no_sequence = inl refl
Sequence-cases invalid = inr (inl refl)
Sequence-cases (values vs) = inr (inr (vs, refl))

All-mono {ℓ κ μ} :
    {A : Type ℓ} {P : A → Type κ} {Q : A → Type μ} (xs : List A)
    → ((x : A) → P x → Q x)
    → All P xs
    → All Q xs
All-mono [] f h = tt
All-mono (x ∷ xs) f h = (f x h.0, All-mono xs f h.1)

module _ (pattern : String) (start index : ℕ) (c : Char) (s : String) where
  abbrev contents : String
  contents = prefix_to (index - (start + 1)) (suffix_from (start + 1) pattern)

  -- The braces of the pattern are those before the group, its own, its contents' and those behind.
  braces-group :
      Opens pattern index start
      → suffix_from index pattern ≡ String.◌∷◌ c s
      → around pattern start index contents < braces pattern
  unfolding suffix_from
  braces-group (before, o, t, opening, is_open) closing =
      let inside : suffix_from (start + 1) pattern ≡ t =
        sym (suffix_from_add 1 start pattern refl) ∙ ap (suffix_from 1) opening in
      let behind : suffix_from (index + 1) pattern ≡ s =
        sym (suffix_from_add 1 index pattern refl) ∙ ap (suffix_from 1) closing in
      let rest : suffix_from (index - (start + 1)) (suffix_from (start + 1) pattern)
          ≡ String.◌∷◌ c s =
        suffix_from_add (index - (start + 1)) (start + 1) pattern {k = index}
          (omega (arith, before))
        ∙ closing in
      let one : ◌≡◌ {A = ℕ} (if same o "{" then 1 else 0) 1 = rw is_open refl in
      omega (
        arith,
        braces-cut start pattern,
        ap braces opening,
        braces-cons o t,
        one,
        ap braces inside,
        ap braces behind,
        braces-cut (index - (start + 1)) (suffix_from (start + 1) pattern),
        ap braces rest,
        braces-cons c s,
      )

module _ (host : Host) (pattern : String) where
  closed-Shrinks :
      (candidate : Group) (start index : ℕ) (contents : String)
      → around pattern start index contents < braces pattern
      → Shrinks pattern candidate
      → Shrinks pattern (closed host candidate start index contents)
  unfolding closed
  closed-Shrinks malformed start index contents low h = tt
  closed-Shrinks (group a b rs) start index contents low h = h
  closed-Shrinks no_group start index contents low h =
      elim (Bool-cases (ltb 1 (length (alternatives_of 0 contents)))) [
        | inl many ↦ rw many (
          ground (arith, many),
          All-mono (alternatives_of 0 contents) (λ r le. omega (arith, le, low))
              (alternatives_of-AtMost 0 contents),
        )
        | inr one ↦ elim (Sequence-cases (sequence_alternatives host contents)) [
          | inl e ↦ rw (one, e) tt
          | inr (inl e) ↦ rw (one, e) tt
          | inr (inr (vs, e)) ↦
              let good = sequence_alternatives-IsGood host contents vs e in
              rw (one, e) (good.0, All-mono vs (λ r plain. omega (arith, plain, low)) good.1)
        ]
      ]

  malformed_if-Shrinks :
      (b : Bool) (g : Group) → Shrinks pattern g → Shrinks pattern (malformed_if b g)
  malformed_if-Shrinks true g h = tt
  malformed_if-Shrinks false g h = h

  branch-Shrinks :
      (a b : Bool) (x y z : Group)
      → (a ≡ true → Shrinks pattern x)
      → Shrinks pattern y
      → Shrinks pattern z
      → Shrinks pattern (if a then x else if b then y else z)
  branch-Shrinks true b x y z hx hy hz = hx refl
  branch-Shrinks false true x y z hx hy hz = hy
  branch-Shrinks false false x y z hx hy hz = hz

  later :
      (index : ℕ) (stack : List ℕ)
      → All (Opens pattern index) stack
      → All (Opens pattern (index + 1)) stack
  later index stack =
      All-mono stack λ start (low, c, t, at, opens). (omega (arith, low), c, t, at, opens)

  behind :
      (index : ℕ) (c : Char) (s : String)
      → suffix_from index pattern ≡ String.◌∷◌ c s
      → suffix_from (index + 1) pattern ≡ s
  unfolding suffix_from
  behind index c s e = sym (suffix_from_add 1 index pattern refl) ∙ ap (suffix_from 1) e

  group_scan-Shrinks :
      (index : ℕ) (rest : String) (stack : List ℕ) (candidate : Group)
      → suffix_from index pattern ≡ rest
      → All (Opens pattern index) stack
      → Shrinks pattern candidate
      → Shrinks pattern (group_scan host pattern index rest stack candidate)
  unfolding group_scan
  group_scan-Shrinks index rest stack malformed e o h = tt
  group_scan-Shrinks index String.[] stack no_group e o h = malformed_if-Shrinks _ no_group h
  group_scan-Shrinks index String.[] stack (group a b rs) e o h =
      malformed_if-Shrinks _ (group a b rs) h
  group_scan-Shrinks index (String.◌∷◌ c s) [] no_group e o h =
      let next = behind index c s e in
      branch-Shrinks (same c "{") (same c "}") _ _ _
        (λ opens.
          group_scan-Shrinks (index + 1) s (index ∷ []) no_group next
            ((omega arith, c, s, e, opens), tt) h)
        (malformed_if-Shrinks _ no_group tt)
        (group_scan-Shrinks (index + 1) s [] no_group next tt h)
  group_scan-Shrinks index (String.◌∷◌ c s) [] (group a b rs) e o h =
      let next = behind index c s e in
      branch-Shrinks (same c "{") (same c "}") _ _ _
        (λ opens.
          group_scan-Shrinks (index + 1) s (index ∷ []) (group a b rs) next
            ((omega arith, c, s, e, opens), tt) h)
        (malformed_if-Shrinks _ no_group tt)
        (group_scan-Shrinks (index + 1) s [] (group a b rs) next tt h)
  group_scan-Shrinks index (String.◌∷◌ c s) (start ∷ stack) no_group e o h =
      let next = behind index c s e in
      let stays = later index (start ∷ stack) o in
      let low = braces-group pattern start index c s o.0 e in
      branch-Shrinks (same c "{") (same c "}") _ _ _
        (λ opens.
          group_scan-Shrinks (index + 1) s (index ∷ start ∷ stack) no_group next
            ((omega arith, c, s, e, opens), stays) h)
        (group_scan-Shrinks (index + 1) s stack
          (closed host no_group start index (contents pattern start index c s)) next stays.1
          (closed-Shrinks no_group start index (contents pattern start index c s) low h))
        (group_scan-Shrinks (index + 1) s (start ∷ stack) no_group next stays h)
  group_scan-Shrinks index (String.◌∷◌ c s) (start ∷ stack) (group a b rs) e o h =
      let next = behind index c s e in
      let stays = later index (start ∷ stack) o in
      let low = braces-group pattern start index c s o.0 e in
      branch-Shrinks (same c "{") (same c "}") _ _ _
        (λ opens.
          group_scan-Shrinks (index + 1) s (index ∷ start ∷ stack) (group a b rs) next
            ((omega arith, c, s, e, opens), stays) h)
        (group_scan-Shrinks (index + 1) s stack
          (closed host (group a b rs) start index (contents pattern start index c s)) next stays.1
          (closed-Shrinks (group a b rs) start index (contents pattern start index c s) low h))
        (group_scan-Shrinks (index + 1) s (start ∷ stack) (group a b rs) next stays h)

  pub brace_group-Shrinks : Shrinks pattern (brace_group host pattern)
  unfolding brace_group suffix_from
  brace_group-Shrinks = group_scan-Shrinks 0 pattern [] no_group refl tt tt
