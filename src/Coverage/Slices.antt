-- ===== src/Coverage/Slices.antt =====
-- Lists cut by numbers, as Python's slices cut them.
use gas_station.Base.{
  ℕ, zero, suc, ◌+◌, ◌-◌, ◌≤◌, List, [], ◌∷◌, ◌++◌, ◌≡◌, refl, sym, ap, ◌∙◌, arith, drop, take,
  length,
}

module _ {ℓ} {A : Type ℓ} where
  pub take-drop : (n : ℕ) (xs : List A) → xs ≡ take n xs ++ drop n xs
  take-drop zero xs = refl
  take-drop (suc n) [] = refl
  take-drop (suc n) (x ∷ xs) = cc (take-drop n xs)

  pub drop_nil : (n : ℕ) {xs : List A} → xs ≡ [] → drop n xs ≡ []
  drop_nil zero e = e
  drop_nil (suc n) {xs = []} e = refl
  drop_nil (suc n) {xs = x ∷ xs} e = cc

  pub drop-drop : (m n : ℕ) (xs : List A) {k : ℕ} → k ≡ n + m → drop m (drop n xs) ≡ drop k xs
  drop-drop m zero xs e = let e' : m ≡ _ = omega (arith, e) in ap (λ k. drop k xs) e'
  drop-drop m (suc n) [] {k = k} e = drop_nil m refl ∙ sym (drop_nil k refl)
  drop-drop m (suc n) (x ∷ xs) {k = zero} e = ground (arith, e)
  drop-drop m (suc n) (x ∷ xs) {k = suc k} e = drop-drop m n xs (omega (arith, e))

  pub length-take : (n : ℕ) (xs : List A) → n ≤ length xs → length (take n xs) ≡ n
  length-take zero xs h = refl
  length-take (suc n) [] h = omega arith
  length-take (suc n) (x ∷ xs) h = omega (arith, length-take n xs (omega arith))

  pub length-drop : (n : ℕ) (xs : List A) → length (drop n xs) ≡ length xs - n
  length-drop zero xs = omega arith
  length-drop (suc n) [] = omega arith
  length-drop (suc n) (x ∷ xs) = omega (arith, length-drop n xs)

  pub length-take_le : (n : ℕ) (xs : List A) → length (take n xs) ≤ length xs
  length-take_le zero xs = omega arith
  length-take_le (suc n) [] = omega arith
  length-take_le (suc n) (x ∷ xs) = omega (arith, length-take_le n xs)

  pub drop-append : (xs ys : List A) {n : ℕ} → n ≡ length xs → drop n (xs ++ ys) ≡ ys
  drop-append [] ys {n = zero} e = refl
  drop-append [] ys {n = suc n} e = ground (arith, e)
  drop-append (x ∷ xs) ys {n = zero} e = ground (arith, e)
  drop-append (x ∷ xs) ys {n = suc n} e = drop-append xs ys (omega (arith, e))

  pub take-append : (xs ys : List A) {n : ℕ} → n ≡ length xs → take n (xs ++ ys) ≡ xs
  take-append [] ys {n = zero} e = refl
  take-append [] ys {n = suc n} e = ground (arith, e)
  take-append (x ∷ xs) ys {n = zero} e = ground (arith, e)
  take-append (x ∷ xs) ys {n = suc n} e = ap (λ t. x ∷ t) (take-append xs ys (omega (arith, e)))
