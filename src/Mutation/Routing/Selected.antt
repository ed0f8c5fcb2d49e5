-- ===== src/Mutation/Routing/Selected.antt =====
-- The modules that `route_changed_paths` of scripts/quality/pitest_policy/__init__.py selects.
use gas_station.Base.{
  one_of-place, String, Bool, true, false, not, ◌&&◌, ◌||◌, Option, none, some, List, [], ◌∷◌,
  if◌then◌else◌, ◌==◌, one_of, any, all, ◌≡◌, refl, ap, ◌∙◌, arith, eq_iff, Bool-cases, ◌⊎◌, inl,
  inr, starts_with,
}
use gas_station.Coverage.Outcome.{ok, err, ◌>>◌, policy_error, require}
use gas_station.Mutation.Routing.{
  Change, PosixPaths, all_modules, is_supported, add, add_where, touches, is_shared,
  is_unclassified, escapes, route_path, route_changes, route_changed_paths,
}

pub one_of-add : (q m : String) (xs : List String) → one_of q (add m xs) ≡ (q == m || one_of q xs)
unfolding add
one_of-add q m xs = elim (Bool-cases (one_of m xs)) [
  | inl i ↦ rw i (found (Bool-cases (q == m)) i)
  | inr i ↦ rw i (one_of-place q m xs)
]
  where
    found :
        ((q == m) ≡ true) ⊎ ((q == m) ≡ false)
        → one_of m xs ≡ true
        → one_of q xs ≡ (q == m || one_of q xs)
    found (inl e) i = let same : q ≡ m = (eq_iff q m).0 e in rw (e, same) i
    found (inr n) i = rw n refl

one_of-add_where :
    (p : String → Bool) (q : String) (ms xs : List String)
    → one_of q (add_where p ms xs) ≡ (one_of q ms && p q || one_of q xs)
unfolding one_of
one_of-add_where p q [] xs = refl
one_of-add_where p q (m ∷ ms) xs =
    one_of-add_where p q ms _ ∙ of (Bool-cases (p m)) (Bool-cases (q == m))
  where
    of :
        ((p m) ≡ true) ⊎ ((p m) ≡ false)
        → ((q == m) ≡ true) ⊎ ((q == m) ≡ false)
        → (one_of q ms && p q || one_of q (if p m then add m xs else xs))
          ≡ ((q == m || one_of q ms) && p q || one_of q xs)
    of (inl h) (inl e) =
        let same : q ≡ m = (eq_iff q m).0 e in
        let here : p q ≡ true = rw same h in rw (h, one_of-add q m xs, e, here) (ground arith)
    of (inl h) (inr n) = rw (h, one_of-add q m xs, n) refl
    of (inr h) (inl e) =
        let same : q ≡ m = (eq_iff q m).0 e in
        let here : p q ≡ false = rw same h in rw (h, e, here) (ground arith)
    of (inr h) (inr n) = rw (h, n) refl

module _ (paths : PosixPaths) where
  -- A change of the path concerns the module.
  abbrev pub concerns : String → Option String → Bool
  concerns m none = false
  concerns m (some path) = touches (paths.as_posix path) m || is_shared (paths.as_posix path)

  abbrev pub change_concerns : String → Change → Bool
  change_concerns m c = concerns m c.old_path || concerns m c.new_path

  abbrev pub is_inside : Option String → Bool
  is_inside none = true
  is_inside (some path) =
      not (escapes paths (paths.as_posix path)) && not (is_unclassified (paths.as_posix path))

  abbrev pub is_routable : Change → Bool
  is_routable c = is_supported c.status && is_inside c.old_path && is_inside c.new_path

  decided :
      (out shared odd : Bool) (more fewer : List String)
      → (not out && not (not shared && odd)) ≡ true
      → (require (not out)
          >> (if shared then ok more else (require (not (not shared && odd)) >> ok fewer)))
        ≡ ok (if shared then more else fewer)
  decided true shared odd more fewer h = cc
  decided false true odd more fewer h = refl
  decided false false true more fewer h = cc
  decided false false false more fewer h = refl

  refused :
      (out shared odd : Bool) (more fewer : List String)
      → (not out && not (not shared && odd)) ≡ false
      → (require (not out)
          >> (if shared then ok more else (require (not (not shared && odd)) >> ok fewer)))
        ≡ err policy_error
  refused true shared odd more fewer h = refl
  refused false true odd more fewer h = cc
  refused false false true more fewer h = refl
  refused false false false more fewer h = cc

  abbrev touched : String → List String → List String
  touched path xs = add_where (touches (paths.as_posix path)) all_modules xs

  -- The modules selected behind a path.
  abbrev pub selected_by : Option String → List String → List String
  selected_by none xs = xs
  selected_by (some path) xs =
      if is_shared (paths.as_posix path)
      then add_where (λ m. true) all_modules (touched path xs)
      else touched path xs

  route_path-selected :
      (path : Option String) (xs : List String)
      → route_path paths path xs
        ≡ (if is_inside path then ok (selected_by path xs) else err policy_error)
  unfolding route_path is_unclassified
  route_path-selected none xs = refl
  route_path-selected (some path) xs = of (Bool-cases (is_inside (some path)))
    where
      of :
          (is_inside (some path) ≡ true) ⊎ (is_inside (some path) ≡ false)
          → route_path paths (some path) xs
            ≡ (if is_inside (some path) then ok (selected_by (some path) xs) else err policy_error)
      of (inl h) = rw h (
          decided (escapes paths (paths.as_posix path)) (is_shared (paths.as_posix path))
            (starts_with (paths.as_posix path) "config/quality/mutation-") _ _ h)
      of (inr h) = rw h (
          refused (escapes paths (paths.as_posix path)) (is_shared (paths.as_posix path))
            (starts_with (paths.as_posix path) "config/quality/mutation-") _ _ h)

  let_in :
      (path : Option String) (xs : List String)
      → is_inside path ≡ true
      → route_path paths path xs ≡ ok (selected_by path xs)
  let_in path xs h = let e = route_path-selected path xs in rw h at e

  kept_out :
      (path : Option String) (xs : List String)
      → is_inside path ≡ false
      → route_path paths path xs ≡ err policy_error
  kept_out path xs h = let e = route_path-selected path xs in rw h at e

  one_of-selected_by :
      (m : String) (path : Option String) (xs : List String)
      → one_of m (selected_by path xs) ≡ (one_of m all_modules && concerns m path || one_of m xs)
  one_of-selected_by m none xs = ground arith
  one_of-selected_by m (some path) xs = of (Bool-cases (is_shared (paths.as_posix path)))
    where
      whole : (a t x : Bool) → (a && true || (a && t || x)) ≡ (a && (t || true) || x)
      whole a t x = ground arith

      part : (a t x : Bool) → (a && t || x) ≡ (a && (t || false) || x)
      part a t x = ground arith

      one :
          one_of m (touched path xs)
          ≡ (one_of m all_modules && touches (paths.as_posix path) m || one_of m xs)
      one = one_of-add_where (touches (paths.as_posix path)) m all_modules xs

      of :
          (is_shared (paths.as_posix path) ≡ true) ⊎ (is_shared (paths.as_posix path) ≡ false)
          → one_of m (selected_by (some path) xs)
            ≡ (one_of m all_modules && concerns m (some path) || one_of m xs)
      of (inl h) = rw h (
          one_of-add_where (λ x. true) m all_modules (touched path xs)
          ∙ (ap (λ o. one_of m all_modules && true || o) one
              ∙ whole (one_of m all_modules) (touches (paths.as_posix path) m) (one_of m xs)))
      of (inr h) =
          rw h (one ∙ part (one_of m all_modules) (touches (paths.as_posix path) m) (one_of m xs))

  -- The modules selected behind all the changes.
  abbrev selected_over : List Change → List String → List String
  selected_over [] xs = xs
  selected_over (c ∷ cs) xs = selected_over cs (selected_by c.new_path (selected_by c.old_path xs))

  route_changes-selected :
      (cs : List Change) (xs : List String)
      → route_changes paths cs xs
        ≡ (if all is_routable cs then ok (selected_over cs xs) else err policy_error)
  unfolding route_changes all
  route_changes-selected [] xs = refl
  route_changes-selected (c ∷ cs) xs =
      of (Bool-cases (is_supported c.status)) (Bool-cases (is_inside c.old_path))
        (Bool-cases (is_inside c.new_path))
        (route_changes-selected cs (selected_by c.new_path (selected_by c.old_path xs)))
    where
      of :
          (is_supported c.status ≡ true) ⊎ (is_supported c.status ≡ false)
          → (is_inside c.old_path ≡ true) ⊎ (is_inside c.old_path ≡ false)
          → (is_inside c.new_path ≡ true) ⊎ (is_inside c.new_path ≡ false)
          → route_changes paths cs (selected_by c.new_path (selected_by c.old_path xs)) ≡ (
              if all is_routable cs
              then ok (selected_over cs (selected_by c.new_path (selected_by c.old_path xs)))
              else err policy_error)
          → route_changes paths (c ∷ cs) xs ≡ (
              if all is_routable (c ∷ cs) then ok (selected_over (c ∷ cs) xs) else err policy_error)
      of (inr a) o n rest = rw a refl
      of (inl a) (inr o) n rest = rw (a, o, kept_out c.old_path xs o) refl
      of (inl a) (inl o) (inr n) rest =
          rw (a, o, n, let_in c.old_path xs o, kept_out c.new_path (selected_by c.old_path xs) n)
            refl
      of (inl a) (inl o) (inl n) rest =
          rw (a, o, n, let_in c.old_path xs o, let_in c.new_path (selected_by c.old_path xs) n) rest

  one_of-selected_over :
      (m : String) (cs : List Change) (xs : List String)
      → one_of m (selected_over cs xs)
        ≡ (one_of m all_modules && any (change_concerns m) cs || one_of m xs)
  unfolding any
  one_of-selected_over m [] xs = ground arith
  one_of-selected_over m (c ∷ cs) xs =
      one_of-selected_over m cs (selected_by c.new_path (selected_by c.old_path xs))
      ∙ ground (
        arith,
        one_of-selected_by m c.new_path (selected_by c.old_path xs),
        one_of-selected_by m c.old_path xs,
      )

  -- Paths are routed exactly where each change has a status that is known, and neither of its paths
  -- leaves the repository or is one of the mutation gate's that is not classified; and then a module
  -- is selected exactly where it is one of the three and some path is its own or a shared one.
  pub route_changed_paths-selected :
      (changes : List Change)
      → ((all is_routable changes ≡ false) × (route_changed_paths paths changes ≡ err policy_error))
        ⊎ ((all is_routable changes ≡ true)
            × (selected : List String) × (route_changed_paths paths changes ≡ ok selected)
            × ((m : String)
                → one_of m selected ≡ (one_of m all_modules && any (change_concerns m) changes)))
  unfolding route_changed_paths
  route_changed_paths-selected changes = of (Bool-cases (all is_routable changes))
    where
      nothing : (b : Bool) → (b || false) ≡ b
      nothing b = ground arith

      of :
          (all is_routable changes ≡ true) ⊎ (all is_routable changes ≡ false)
          → ((all is_routable changes ≡ false)
              × (route_changed_paths paths changes ≡ err policy_error))
            ⊎ ((all is_routable changes ≡ true)
                × (selected : List String) × (route_changed_paths paths changes ≡ ok selected)
                × ((m : String)
                    → one_of m selected
                      ≡ (one_of m all_modules && any (change_concerns m) changes)))
      of (inr h) = inl (h, route_changes-selected changes [] ∙ rw h refl)
      of (inl h) = inr (
        h,
        selected_over changes [],
        route_changes-selected changes [] ∙ rw h refl,
        λ m. one_of-selected_over m changes [] ∙ nothing _,
      )
