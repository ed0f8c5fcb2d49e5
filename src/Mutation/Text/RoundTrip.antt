-- ===== src/Mutation/Text/RoundTrip.antt =====
-- Texts in modified UTF-8, for `_decode_modified_utf8` of
-- scripts/quality/pitest_policy/__init__.py.
use Prim.Native.Nat.{◌/◌, ◌%◌}
use gas_station.Base.{
  ltb, false, ◌-◌, ◌*◌, ◌⊎◌, ap, ◌∙◌, ℕ, ◌+◌, ◌<◌, ◌≤◌, ◌≡◌, true, false, ◌&&◌, List, [], ◌∷◌, ◌++◌,
  refl, arith, if◌then◌else◌, eq_nat, leb, All, inl, inr, Bool-cases,
}
use gas_station.Coverage.Bytes.{Bytes}
use gas_station.Coverage.Outcome.{ok, ◌>>=◌}
use gas_station.Mutation.Text.{
  is_continuation, two_byte, three_byte, next_unit, code_units, code_points, decode_modified_utf8,
  is_high, is_low, joined,
}

-- The bytes of a code unit in modified UTF-8, as the format of class files defines them.
abbrev pub encoded : ℕ → Bytes
encoded u =
    if leb 1 u && leb u 127
    then u ∷ []
    else if leb u 2047
    then (192 + u / 64) ∷ (128 + u % 64) ∷ []
    else (224 + u / 4096) ∷ (128 + u / 64 % 64) ∷ (128 + u % 64) ∷ []

abbrev pub encode : List ℕ → Bytes
encode [] = []
encode (u ∷ units) = encoded u ++ encode units

two-value : (u : ℕ) → u ≤ 2047 → two_byte (192 + u / 64) (128 + u % 64) ≡ u
two-value u h = omega (arith, h)

three-value :
    (u : ℕ) → u < 65536 → three_byte (224 + u / 4096) (128 + u / 64 % 64) (128 + u % 64) ≡ u
three-value u h = omega (arith, h)

is_continuation-tail : (n : ℕ) → is_continuation (128 + n % 64) ≡ true
is_continuation-tail n = ground arith

next_unit-one :
    (u : ℕ) (rest : Bytes) → (leb 1 u && leb u 127) ≡ true → next_unit u rest ≡ ok (u, 0)
unfolding next_unit
next_unit-one u rest e = rw e refl

next_unit-two :
    (u : ℕ) (rest : Bytes)
    → (leb 1 u && leb u 127) ≡ false
    → u ≤ 2047
    → next_unit (192 + u / 64) ((128 + u % 64) ∷ rest) ≡ ok (u, 1)
unfolding next_unit
next_unit-two u rest e h =
    let value = two-value u h in
    let first : (leb 1 (192 + u / 64) && leb (192 + u / 64) 127) ≡ false = ground arith in
    let second : (leb 192 (192 + u / 64) && leb (192 + u / 64) 223) ≡ true = ground (arith, h) in
    let shortest : (if eq_nat u 0
          then eq_nat (192 + u / 64) 192 && eq_nat (128 + u % 64) 128
          else leb 128 u)
        ≡ true =
      ground (arith, e) in
    rw (first, second, value, is_continuation-tail u, shortest) refl

next_unit-three :
    (u : ℕ) (rest : Bytes)
    → 2047 < u
    → u < 65536
    → next_unit (224 + u / 4096) ((128 + u / 64 % 64) ∷ (128 + u % 64) ∷ rest) ≡ ok (u, 2)
unfolding next_unit
next_unit-three u rest low high =
    let value = three-value u high in
    let first : (leb 1 (224 + u / 4096) && leb (224 + u / 4096) 127) ≡ false = ground arith in
    let second : (leb 192 (224 + u / 4096) && leb (224 + u / 4096) 223) ≡ false = ground arith in
    let third : (leb 224 (224 + u / 4096) && leb (224 + u / 4096) 239) ≡ true =
      ground (arith, high) in
    let long : leb 2048 u ≡ true = ground (arith, low) in
    rw (first, second, third, value, is_continuation-tail (u / 64), is_continuation-tail u, long)
      refl

code_units-encoded :
    (u : ℕ) (rest : Bytes)
    → u < 65536
    → code_units 0 (encoded u ++ rest) ≡ (code_units 0 rest >>= λ units. ok (u ∷ units))
unfolding code_units
code_units-encoded u rest h = elim (Bool-cases (leb 1 u && leb u 127)) [
  | inl e ↦ rw (e, next_unit-one u rest e) refl
  | inr e ↦ elim (Bool-cases (leb u 2047)) [
    | inl two ↦ rw (e, two, next_unit-two u rest e (ground (arith, two))) refl
    | inr three ↦ rw (e, three, next_unit-three u rest (ground (arith, three)) h) refl
  ]
]

code_units-encode :
    (units : List ℕ) → All (λ u. u < 65536) units → code_units 0 (encode units) ≡ ok units
unfolding code_units
code_units-encode [] h = refl
code_units-encode (u ∷ units) h =
    rw (code_units-encoded u (encode units) h.0, code_units-encode units h.1) refl

decode-code_points :
    (units : List ℕ)
    → All (λ u. u < 65536) units
    → decode_modified_utf8 (encode units) ≡ ok (code_points units)
unfolding decode_modified_utf8
decode-code_points units h = rw (code_units-encode units h) refl

-- The code points of characters: none is a surrogate.
abbrev pub IsScalar : ℕ → Type 0
IsScalar c = (c < 55296) ⊎ ((57344 ≤ c) × (c ≤ 1114111))

-- The code units of characters in UTF-16: one, or a high and a low surrogate.
abbrev pub high_of : ℕ → ℕ
high_of c = 55296 + (c - 65536) / 1024

abbrev pub low_of : ℕ → ℕ
low_of c = 56320 + (c - 65536) % 1024

abbrev pub utf16 : List ℕ → List ℕ
utf16 [] = []
utf16 (c ∷ cs) =
    let rest = utf16 cs in if ltb c 65536 then c ∷ rest else high_of c ∷ low_of c ∷ rest

joined-plain : (u : ℕ) (cs : List ℕ) → is_high u ≡ false → joined u cs ≡ u ∷ cs
unfolding joined
joined-plain u [] h = refl
joined-plain u (v ∷ vs) h = rw h refl

joined-pair :
    (c : ℕ) (cs : List ℕ) → 65536 ≤ c → c ≤ 1114111 → joined (high_of c) (low_of c ∷ cs) ≡ c ∷ cs
unfolding joined
joined-pair c cs least most =
    let high : is_high (high_of c) ≡ true = ground (arith, least, most) in
    let low : is_low (low_of c) ≡ true = ground arith in
    let value : 65536 + (high_of c - 55296) * 1024 + (low_of c - 56320) ≡ c =
      omega (arith, least) in
    rw (high, low, value) refl

code_points-utf16 : (cs : List ℕ) → All IsScalar cs → code_points (utf16 cs) ≡ cs
unfolding code_points
code_points-utf16 [] h = refl
code_points-utf16 (c ∷ cs) (scalar, h) = elim (Bool-cases (ltb c 65536)) [
  | inl small ↦
      let plain : is_high c ≡ false = not_high scalar in
      rw (small, code_points-utf16 cs h) (joined-plain c cs plain)
  | inr large ↦
      let least : 65536 ≤ c = ground (arith, large) in
      let most : c ≤ 1114111 = bounded scalar in
      let low : is_high (low_of c) ≡ false = ground arith in
      rw (large, code_points-utf16 cs h, joined-plain (low_of c) cs low)
        (joined-pair c cs least most)
]
  where
    not_high : IsScalar c → is_high c ≡ false
    not_high (inl below) = ground (arith, below)
    not_high (inr (above, most)) = ground (arith, above)

    bounded : IsScalar c → c ≤ 1114111
    bounded (inl below) = omega (arith, below)
    bounded (inr (above, most)) = most

utf16-units : (cs : List ℕ) → All IsScalar cs → All (λ u. u < 65536) (utf16 cs)
utf16-units [] h = tt
utf16-units (c ∷ cs) (scalar, h) = elim (Bool-cases (ltb c 65536)) [
  | inl small ↦ rw small (ground (arith, small), utf16-units cs h)
  | inr large ↦
      let most : c ≤ 1114111 = bounded scalar in
      rw large (omega (arith, most), (omega arith, utf16-units cs h))
]
  where
    bounded : IsScalar c → c ≤ 1114111
    bounded (inl below) = omega (arith, below)
    bounded (inr (above, most)) = most

-- Characters are read back from the modified UTF-8 of their code units, where those beyond 16 bits
-- have a pair of surrogates.
pub decode_modified_utf8-encode :
    (cs : List ℕ) → All IsScalar cs → decode_modified_utf8 (encode (utf16 cs)) ≡ ok cs
decode_modified_utf8-encode cs h =
    decode-code_points (utf16 cs) (utf16-units cs h) ∙ ap ok (code_points-utf16 cs h)
