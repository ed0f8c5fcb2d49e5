-- ===== src/Coverage/Bytes.antt =====
-- Python's `bytes` as lists of numbers, with the methods that scripts/quality/verify_coverage.py
-- uses.
use Prim.Native.Nat.{ℕ, ◌+◌, ◌*◌, ◌-◌}
use gas_station.Base.{
  String, code, Bool, true, false, ◌&&◌, List, [], ◌∷◌, ◌≡◌, refl, arith, if◌then◌else◌, eq_nat,
  leb,
}

abbrev pub Bytes : Type 0
Bytes = List ℕ

-- `b"…"` of ASCII characters
unfoldable pub ascii : String → Bytes
ascii String.[] = []
ascii (String.◌∷◌ c s) = code c ∷ ascii s

abbrev pub begins_with : Bytes → Bytes → Bool
begins_with xs [] = true
begins_with [] (p ∷ ps) = false
begins_with (x ∷ xs) (p ∷ ps) = eq_nat x p && begins_with xs ps

abbrev pub bytes_eq : Bytes → Bytes → Bool
bytes_eq [] [] = true
bytes_eq (x ∷ xs) (y ∷ ys) = eq_nat x y && bytes_eq xs ys
bytes_eq _ _ = false

abbrev pub lines_eq : List Bytes → List Bytes → Bool
lines_eq [] [] = true
lines_eq (x ∷ xs) (y ∷ ys) = bytes_eq x y && lines_eq xs ys
lines_eq _ _ = false

abbrev pub ends_with : Bytes → ℕ → Bool
ends_with [] c = false
ends_with (x ∷ []) c = eq_nat x c
ends_with (x ∷ y ∷ xs) c = ends_with (y ∷ xs) c

-- `xs[:-1]` and `xs.pop()`
abbrev pub without_last {ℓ} : {A : Type ℓ} → List A → List A
without_last [] = []
without_last (x ∷ []) = []
without_last (x ∷ y ∷ xs) = x ∷ without_last (y ∷ xs)

-- The pieces of `xs.split(c)`: the first, and the others.
abbrev pub split_bytes_pair : ℕ → Bytes → Bytes × List Bytes
split_bytes_pair c [] = ([], [])
split_bytes_pair c (x ∷ xs) =
    let (first, others) = split_bytes_pair c xs in
    if eq_nat x c then ([], first ∷ others) else (x ∷ first, others)

abbrev pub split_bytes : ℕ → Bytes → List Bytes
split_bytes c xs = let (first, others) = split_bytes_pair c xs in first ∷ others

abbrev pub is_digit : ℕ → Bool
is_digit x = leb 48 x && leb x 57

-- The number that digits continue.
abbrev pub digits_from : ℕ → Bytes → ℕ
digits_from n [] = n
digits_from n (d ∷ ds) = digits_from (10 * n + (d - 48)) ds

-- `int(ds)` for digits
abbrev pub decimal : Bytes → ℕ
decimal ds = digits_from 0 ds

-- The digits in front, and what is behind them.
abbrev pub span_digits : Bytes → Bytes × Bytes
span_digits [] = ([], [])
span_digits (x ∷ xs) =
    let (ds, rest) = span_digits xs in if is_digit x then (x ∷ ds, rest) else ([], x ∷ xs)

pub bytes_eq-eq : (xs ys : Bytes) → bytes_eq xs ys ≡ true → xs ≡ ys
bytes_eq-eq [] [] h = refl
bytes_eq-eq [] (y ∷ ys) h = cc
bytes_eq-eq (x ∷ xs) [] h = cc
bytes_eq-eq (x ∷ xs) (y ∷ ys) h = ground (arith, bytes_eq-eq xs ys)

pub lines_eq-eq : (xs ys : List Bytes) → lines_eq xs ys ≡ true → xs ≡ ys
lines_eq-eq [] [] h = refl
lines_eq-eq [] (y ∷ ys) h = cc
lines_eq-eq (x ∷ xs) [] h = cc
lines_eq-eq (x ∷ xs) (y ∷ ys) h = ground (arith, bytes_eq-eq x y, lines_eq-eq xs ys)

pub bytes_eq_refl : (xs : Bytes) → bytes_eq xs xs ≡ true
bytes_eq_refl [] = refl
bytes_eq_refl (x ∷ xs) = ground (arith, bytes_eq_refl xs)

pub lines_eq_refl : (xs : List Bytes) → lines_eq xs xs ≡ true
lines_eq_refl [] = refl
lines_eq_refl (x ∷ xs) = ground (arith, bytes_eq_refl x, lines_eq_refl xs)
