-- ===== src/Guard/Brace/Counts.antt =====
-- How many opening braces the parts of a text hold, for `brace_alternatives` of
-- scripts/agent/pre_tool_policy.py.
use text.Mathlib.TextLemmas.{nil-append, cons-append}
use gas_station.Base.{
  ℕ, zero, suc, ◌+◌, ◌≤◌, Char, String, ◌<>◌, ◌&&◌, List, [], ◌∷◌, ◌≡◌, refl, ap, arith,
  if◌then◌else◌, same, count_char, suffix_from, prefix_to, All, eq_nat, Bool-cases, inl, inr,
}
use gas_station.Guard.Brace.{alternatives_of, cons_first, depth_after}

abbrev pub braces : String → ℕ
braces s = count_char "{" s

pub braces-cons :
    (c : Char) (s : String) → braces (String.◌∷◌ c s) ≡ (if same c "{" then 1 else 0) + braces s
unfolding count_char
braces-cons c s = refl

pub braces-append : (s t : String) → braces (s <> t) ≡ braces s + braces t
unfolding count_char
braces-append String.[] t = omega (arith, ap braces (nil-append t))
braces-append (String.◌∷◌ c s) t =
    omega (arith, ap braces (cons-append c s t), braces-cons c (s <> t), braces-append s t)

pub braces-cut : (n : ℕ) (s : String) → braces s ≡ braces (prefix_to n s) + braces (suffix_from n s)
unfolding count_char prefix_to suffix_from
braces-cut zero s = omega arith
braces-cut (suc n) String.[] = omega arith
braces-cut (suc n) (String.◌∷◌ c s) = omega (arith, braces-cut n s)

pub suffix_from_add :
    (m n : ℕ) (s : String) {k : ℕ} → k ≡ n + m → suffix_from m (suffix_from n s) ≡ suffix_from k s
unfolding suffix_from
suffix_from_add m zero s e = let e' : m ≡ _ = omega (arith, e) in ap (λ k. suffix_from k s) e'
suffix_from_add zero (suc n) String.[] {k = zero} e = refl
suffix_from_add zero (suc n) String.[] {k = suc k} e = refl
suffix_from_add (suc m) (suc n) String.[] {k = zero} e = refl
suffix_from_add (suc m) (suc n) String.[] {k = suc k} e = refl
suffix_from_add m (suc n) (String.◌∷◌ c s) {k = zero} e = ground (arith, e)
suffix_from_add m (suc n) (String.◌∷◌ c s) {k = suc k} e = suffix_from_add m n s (omega (arith, e))

abbrev pub AtMost : ℕ → List String → Type 0
AtMost n = All (λ a. braces a ≤ n)

AtMost-le : (m n : ℕ) (xs : List String) → m ≤ n → AtMost m xs → AtMost n xs
AtMost-le m n [] h a = tt
AtMost-le m n (x ∷ xs) h a = (omega (arith, h, a.0), AtMost-le m n xs h a.1)

AtMost-cons_first :
    (c : Char) (s : String) (xs : List String)
    → AtMost (braces s) xs
    → AtMost (braces (String.◌∷◌ c s)) (cons_first c xs)
unfolding count_char
AtMost-cons_first c s [] h = (omega arith, tt)
AtMost-cons_first c s (x ∷ xs) h = (omega (arith, h.0), AtMost-le _ _ xs (omega arith) h.1)

-- No part of the contents has more opening braces than the contents.
pub alternatives_of-AtMost : (depth : ℕ) (s : String) → AtMost (braces s) (alternatives_of depth s)
unfolding alternatives_of count_char
alternatives_of-AtMost depth String.[] = (omega arith, tt)
alternatives_of-AtMost depth (String.◌∷◌ c s) =
    let rest = alternatives_of (depth_after c depth) s in
    let behind = alternatives_of-AtMost (depth_after c depth) s in
    elim (Bool-cases (same c "," && eq_nat (depth_after c depth) 0)) [
      | inl cut ↦ rw cut (omega arith, AtMost-le _ _ rest (omega (arith, braces-cons c s)) behind)
      | inr more ↦ rw more (AtMost-cons_first c s rest behind)
    ]
