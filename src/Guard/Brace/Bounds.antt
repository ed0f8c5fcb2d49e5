-- ===== src/Guard/Brace/Bounds.antt =====
-- The number of the alternatives that `brace_alternatives` of scripts/agent/pre_tool_policy.py
-- gives.
use gas_station.Base.{
  ℕ, zero, suc, ◌+◌, ◌≤◌, String, false, List, [], ◌∷◌, ◌++◌, ◌≡◌, refl, arith, length, map,
  length-append, inl, inr, ◌⊎◌, Bool-cases, ltb,
}
use gas_station.Guard.Host.{Host}
use gas_station.Guard.Brace.{
  Group, malformed, no_group, group, brace_group, spliced, alternatives, expand, brace_alternatives,
}

pub ltb-false : (a b : ℕ) → ltb a b ≡ false → b ≤ a
ltb-false a b h = ground arith

pub length-map {ℓ κ} :
    {A : Type ℓ} {B : Type κ} (f : A → B) (xs : List A) → length (map f xs) ≡ length xs
length-map f [] = refl
length-map f (x ∷ xs) = omega (arith, length-map f xs)

pub Group-cases :
    (g : Group)
    → (g ≡ malformed)
      ⊎ (g ≡ no_group)
      ⊎ ((s : ℕ) × (e : ℕ) × (rs : List String) × (g ≡ group s e rs))
Group-cases malformed = inl refl
Group-cases no_group = inr (inl refl)
Group-cases (group s e rs) = inr (inr (s, e, rs, refl))

module _ (host : Host) where
  expand-bound :
      (fuel : ℕ) (done pending xs : List String)
      → length done + length pending ≤ 64
      → expand host fuel done pending ≡ alternatives xs
      → length xs ≤ 64
  unfolding expand
  expand-bound zero done pending xs h e = cc
  expand-bound (suc fuel) done [] xs h e = ground (arith, e)
  expand-bound (suc fuel) done (c ∷ pending) xs h e = elim (Group-cases (brace_group host c)) [
    | inl m ↦ cc (rw (m, expand) at e)
    | inr (inl n) ↦
        expand-bound fuel (done ++ c ∷ []) pending xs (omega (arith, length-append done (c ∷ [])))
          (rw (n, expand) at e)
    | inr (inr (s, t, rs, g)) ↦
        elim (Bool-cases (ltb 64 (length done + length pending + length rs))) [
          | inl big ↦ cc (rw big at (rw (g, expand) at e))
          | inr small ↦
              expand-bound fuel done (map (spliced c s t) rs ++ pending) xs
                (omega (
                  arith,
                  length-append (map (spliced c s t) rs) pending,
                  length-map (spliced c s t) rs,
                  ltb-false 64 (length done + length pending + length rs) small,
                ))
                (rw small at (rw (g, expand) at e))
        ]
  ]

  -- An expansion that is not refused holds at most 64 alternatives.
  pub brace_alternatives-bound :
      (pattern : String) (xs : List String)
      → brace_alternatives host pattern ≡ alternatives xs
      → length xs ≤ 64
  unfolding brace_alternatives
  brace_alternatives-bound pattern xs e = expand-bound _ [] (pattern ∷ []) xs (omega arith) e
