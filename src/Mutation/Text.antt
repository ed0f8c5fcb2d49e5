-- ===== src/Mutation/Text.antt =====
-- `_decode_modified_utf8` of scripts/quality/pitest_policy/__init__.py: the text of a constant of a
-- class file, as code points.
pub mod RoundTrip
use Prim.Native.Nat.{◌/◌, ◌%◌}
use gas_station.Base.{
  ℕ, zero, suc, ◌+◌, ◌*◌, ◌-◌, Bool, true, false, not, ◌&&◌, ◌||◌, List, [], ◌∷◌, if◌then◌else◌,
  eq_nat, leb, ltb,
}
use gas_station.Coverage.Bytes.{Bytes}
use gas_station.Coverage.Outcome.{Result, ok, err, ◌>>=◌, ◌>>◌, policy_error, require}

-- `byte & 0xC0 == 0x80`
abbrev pub is_continuation : ℕ → Bool
is_continuation b = eq_nat (b / 64 % 4) 2

-- The value of two bytes, and whether it stands in its shortest form, 0 in two bytes.
abbrev pub two_byte : ℕ → ℕ → ℕ
two_byte a b = a % 32 * 64 + b % 64

abbrev pub is_two : ℕ → ℕ → Bool
is_two a b =
    is_continuation b
    && (if eq_nat (two_byte a b) 0 then eq_nat a 192 && eq_nat b 128 else leb 128 (two_byte a b))

abbrev pub three_byte : ℕ → ℕ → ℕ → ℕ
three_byte a b c = a % 16 * 4096 + b % 64 * 64 + c % 64

abbrev pub is_three : ℕ → ℕ → ℕ → Bool
is_three a b c = is_continuation b && is_continuation c && leb 2048 (three_byte a b c)

-- The next code unit, and how many bytes behind the first it takes.
unfoldable pub next_unit : ℕ → Bytes → Result (ℕ × ℕ)
next_unit a rest =
    if leb 1 a && leb a 127
    then ok (a, 0)
    else if leb 192 a && leb a 223
    then elim rest [ [] ↦ err policy_error | b ∷ _ ↦ require (is_two a b) >> ok (two_byte a b, 1) ]
    else if leb 224 a && leb a 239
    then elim rest [
      | [] ↦ err policy_error
      | b ∷ more ↦ elim more [
        | [] ↦ err policy_error
        | c ∷ _ ↦ require (is_three a b c) >> ok (three_byte a b c, 2)
      ]
    ]
    else err policy_error

-- The code units, where so many bytes are skipped.
unfoldable pub code_units : ℕ → Bytes → Result (List ℕ)
unfolding next_unit
code_units n [] = ok []
code_units (suc n) (x ∷ xs) = code_units n xs
code_units zero (x ∷ xs) = next_unit x xs >>= λ u. code_units u.1 xs >>= λ units. ok (u.0 ∷ units)

abbrev pub is_high : ℕ → Bool
is_high u = leb 55296 u && leb u 56319

abbrev pub is_low : ℕ → Bool
is_low u = leb 56320 u && leb u 57343

-- A code unit in front of code points. A low surrogate is a code point of its own only where no high
-- one stands in front, so that a pair is joined here.
unfoldable pub joined : ℕ → List ℕ → List ℕ
joined u [] = u ∷ []
joined u (v ∷ vs) =
    if is_high u && is_low v then (65536 + (u - 55296) * 1024 + (v - 56320)) ∷ vs else u ∷ v ∷ vs

-- `encoded.decode("utf-16-be", errors="surrogatepass")`
unfoldable pub code_points : List ℕ → List ℕ
unfolding joined
code_points [] = []
code_points (u ∷ units) = joined u (code_points units)

unfoldable pub decode_modified_utf8 : Bytes → Result (List ℕ)
unfolding code_units code_points
decode_modified_utf8 raw = code_units 0 raw >>= λ units. ok (code_points units)
