-- ===== src/Coverage/Sources/Partition.antt =====
-- A theorem on `classify_exact_sources` of scripts/quality/verify_coverage.py, and the lemmas
-- behind it.
use gas_station.Base.{
  ℕ, suc, ◌+◌, ◌≤◌, String, Bool, true, false, not, ◌&&◌, ◌||◌, List, [], ◌∷◌, ◌==◌, ◌≡◌, inl, inr,
  refl, sym, ap, ◌∙◌, arith, if◌then◌else◌, leb, eq_iff, one_of, one_of-place, all, All, Bool-cases,
}
use gas_station.Coverage.Outcome.{ok, err, >>=-eq-ok, require-eq-ok}
use gas_station.Coverage.Sources.{
  SourceUnit, is_floored, own, own_all, in_order, classify_exact_sources,
}

-- How many times a text is in a list.
abbrev pub count : String → List String → ℕ
count p [] = 0
count p (x ∷ xs) = let n = count p xs in if p == x then suc n else n

-- How many times a source is named by units.
abbrev pub owners : String → List SourceUnit → ℕ
owners p [] = 0
owners p (unit ∷ units) = count p unit.sources + owners p units

one_of-count : (p : String) (xs : List String) → one_of p xs ≡ leb 1 (count p xs)
unfolding one_of
one_of-count p [] = ground arith
one_of-count p (x ∷ xs) = ground (arith, one_of-count p xs)

one_of-in_order : (q : String) (xs : List String) → one_of q (in_order xs) ≡ one_of q xs
unfolding one_of
one_of-in_order q [] = refl
one_of-in_order q (x ∷ xs) =
    one_of-place q x (in_order xs) ∙ ap (λ o. q == x || o) (one_of-in_order q xs)

-- A text of which there is at most one.
abbrev IsSingle : String → List String → Type 0
IsSingle p xs = count p xs ≤ 1

count-cons :
    (p source : String) (rest : List String)
    → not (one_of source rest) ≡ true
    → IsSingle p rest
    → IsSingle p (source ∷ rest)
count-cons p source rest new h = elim (Bool-cases (p == source)) [
  | inr n ↦ rw n h
  | inl e ↦
      let same : p ≡ source = (eq_iff p source).0 e in
      let there : not (one_of p rest) ≡ true = rw (← same) at new in
      let amount = one_of-count p rest in rw e (ground (arith, amount, there))
]

count-moved :
    (p source : String) (sources before : List String)
    → count p sources + count p (source ∷ before) ≡ count p (source ∷ sources) + count p before
count-moved p source sources before = elim (Bool-cases (p == source)) [
  | inl e ↦ rw e (omega arith)
  | inr n ↦ rw n refl
]

ok_eq : {xs ys : List String} → ok xs ≡ ok ys → xs ≡ ys
ok_eq h = ap (λ r. elim r [ err e ↦ [] | ok xs ↦ xs ]) h

own-count :
    (p : String) (sources before after : List String)
    → own sources before ≡ ok after
    → IsSingle p before
    → (count p after ≡ count p sources + count p before) × IsSingle p after
unfolding own
own-count p [] before after h single =
    let same : before ≡ after = ok_eq h in
    (ap (count p) (sym same) ∙ omega arith, rw same at single)
own-count p (source ∷ sources) before after h single =
    let (new, run) = require-eq-ok (not (one_of source before)) _ h in
    let (total, last) =
      own-count p sources (source ∷ before) after run (count-cons p source before new single) in
    (total ∙ count-moved p source sources before, last)

own_all-count :
    (p : String) (units : List SourceUnit) (before after : List String)
    → own_all units before ≡ ok after
    → IsSingle p before
    → (count p after ≡ owners p units + count p before) × IsSingle p after
unfolding own_all
own_all-count p [] before after h single =
    let same : before ≡ after = ok_eq h in
    (ap (count p) (sym same) ∙ omega arith, rw same at single)
own_all-count p (unit ∷ units) before after h single =
    let (plain, run) = require-eq-ok (not (is_floored unit)) _ h in
    let (owned, one, others) = >>=-eq-ok (own unit.sources before) _ run in
    let (some_owned, still) = own-count p unit.sources before owned one single in
    let (total, last) = own_all-count p units owned after others still in
    (omega (arith, total, some_owned), last)

own_all-plain :
    (units : List SourceUnit) (before after : List String)
    → own_all units before ≡ ok after
    → All (λ unit. is_floored unit ≡ false) units
unfolding own_all
own_all-plain [] before after h = tt
own_all-plain (unit ∷ units) before after h =
    let (plain, run) = require-eq-ok (not (is_floored unit)) _ h in
    let (owned, one, others) = >>=-eq-ok (own unit.sources before) _ run in
    (ground (arith, plain), own_all-plain units owned after others)

both_true : (b c : Bool) → (b && c) ≡ true → (b ≡ true) × (c ≡ true)
both_true true c h = (refl, h)
both_true false c h = cc

all-one_of :
    (p : String) (test : String → Bool) (xs : List String)
    → all test xs ≡ true
    → one_of p xs ≡ true
    → test p ≡ true
unfolding all one_of
all-one_of p test [] h k = cc
all-one_of p test (x ∷ xs) h k =
    let (here, further) = both_true (test x) (all test xs) h in
    elim (Bool-cases (p == x)) [
      | inl e ↦ let same : p ≡ x = (eq_iff p x).0 e in rw same here
      | inr n ↦ all-one_of p test xs further (rw n at k)
    ]

-- Lists each of whose members is one of the other's have the same members.
same_members :
    (p : String) (xs ys : List String)
    → all (λ x. one_of x ys) xs ≡ true
    → all (λ y. one_of y xs) ys ≡ true
    → one_of p xs ≡ one_of p ys
same_members p xs ys h k = elim (Bool-cases (one_of p xs)) [
  | inl i ↦ i ∙ sym (all-one_of p (λ x. one_of x ys) xs h i)
  | inr i ↦ elim (Bool-cases (one_of p ys)) [
    | inr j ↦ i ∙ sym j
    | inl j ↦ let there = all-one_of p (λ y. one_of y xs) ys k j in cc (sym there ∙ i)
  ]
]

owners-found :
    (p : String) (found : Bool) (total n : ℕ)
    → found ≡ leb 1 total
    → total ≡ n + 0
    → total ≤ 1
    → n ≡ (if found then 1 else 0)
owners-found p true total n h e small =
    let least : 1 ≤ total = ground (arith, h) in omega (arith, e, small, least)
owners-found p false total n h e small = ground (arith, h, e, small)

-- Where the sources are classified, no unit without floors has one, each source is named once by
-- the units, nothing else is named, and the result lists the sources.
pub classify_exact_sources-owners :
    (sources : List String) (units : List SourceUnit) (classified : List String)
    → classify_exact_sources sources units ≡ ok classified
    → All (λ unit. is_floored unit ≡ false) units
      × ((p : String)
          → (owners p units ≡ (if one_of p sources then 1 else 0))
            × (one_of p classified ≡ one_of p sources))
unfolding classify_exact_sources
classify_exact_sources-owners sources units classified h =
    let (ownership, run, checks) = >>=-eq-ok (own_all units []) _ h in
    let (owned, more) = require-eq-ok (all (λ source. one_of source ownership) sources) _ checks in
    let (authored, last) = require-eq-ok (all (λ source. one_of source sources) ownership) _ more in
    (
      own_all-plain units [] ownership run,
      λ p.
          let (total, single) = own_all-count p units [] ownership run (omega arith) in
          let same = same_members p sources ownership owned authored in
          (
            owners-found p (one_of p sources) (count p ownership) (owners p units)
                (same ∙ one_of-count p ownership) total single,
            ap (one_of p) (sym (ok_eq last)) ∙ (one_of-in_order p ownership ∙ sym same),
          ),
    )
