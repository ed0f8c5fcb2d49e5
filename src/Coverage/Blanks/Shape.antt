-- ===== src/Coverage/Blanks/Shape.antt =====
-- Lemmas and a theorem on the places that `_strip_comments_and_strings` of
-- scripts/quality/verify_coverage.py keeps.
use gas_station.Base.{
  ℕ, zero, suc, Bool, true, false, ◌||◌, [], ◌∷◌, ◌≡◌, ◌≢◌, refl, ◌⊎◌, inl, inr, arith,
  if◌then◌else◌, eq_nat, Bool-cases,
}
use gas_station.Coverage.Outcome.{Result, ok, err, ◌>>=◌}
use gas_station.Coverage.Bytes.{Bytes, begins_with, ascii}
use gas_station.Coverage.Blanks.{
  Mode, plain, line_comment, triple, block, literal, Turn, blank, is_finished, on_code, on_block,
  on_character, blanked, strip_comments_and_strings,
}

-- A character that stands for itself, or a space for one that is no line feed.
abbrev pub Masks : ℕ → ℕ → Type 0
Masks c o = (o ≡ c) ⊎ ((o ≡ 32) × (c ≢ 10))

-- As many characters, each of which masks the one of the source.
abbrev pub IsMask : Bytes → Bytes → Type 0
IsMask [] [] = Unit
IsMask (c ∷ s) (o ∷ out) = Masks c o × IsMask s out
IsMask _ _ = ⊥

-- None of the first characters, so many, is a line feed.
abbrev pub Clear : ℕ → Bytes → Type 0
Clear zero s = Unit
Clear (suc n) [] = Unit
Clear (suc n) (c ∷ s) = (c ≢ 10) × Clear n s

abbrev pub IsFair : ℕ → Bytes → Turn → Type 0
IsFair c rest t = Masks c t.out × Clear t.more rest

IsFair-if :
    (c : ℕ) (rest : Bytes) (b : Bool) (t u : Turn)
    → (b ≡ true → IsFair c rest t)
    → (b ≡ false → IsFair c rest u)
    → IsFair c rest (if b then t else u)
IsFair-if c rest true t u ht hu = ht refl
IsFair-if c rest false t u ht hu = hu refl

Masks-blank : (c : ℕ) → Masks c (blank c)
Masks-blank c = ground arith

-- Where a mark of two characters stands, neither of them is a line feed.
two-Clear :
    (c a b : ℕ) (rest : Bytes)
    → a ≢ 10
    → b ≢ 10
    → begins_with (c ∷ rest) (a ∷ b ∷ []) ≡ true
    → Masks c 32 × Clear 1 rest
two-Clear c a b [] ha hb e = ground (arith, e)
two-Clear c a b (d ∷ rest) ha hb e = ground (arith, e, ha, hb)

three-Clear :
    (c : ℕ) (rest : Bytes)
    → begins_with (c ∷ rest) (34 ∷ 34 ∷ 34 ∷ []) ≡ true
    → Masks c 32 × Clear 2 rest
three-Clear c [] e = ground (arith, e)
three-Clear c (d ∷ []) e = ground (arith, e)
three-Clear c (d ∷ f ∷ rest) e = ground (arith, e)

on_code-IsFair : (c : ℕ) (rest : Bytes) → IsFair c rest (on_code c rest)
unfolding on_code
on_code-IsFair c rest =
    IsFair-if c rest (begins_with (c ∷ rest) (ascii "/*")) _ _
      (two-Clear c 47 42 rest (omega arith) (omega arith))
      (λ _.
        IsFair-if c rest (begins_with (c ∷ rest) (ascii "//")) _ _
          (two-Clear c 47 47 rest (omega arith) (omega arith))
          (λ _.
            IsFair-if c rest (begins_with (c ∷ rest) (34 ∷ 34 ∷ 34 ∷ [])) _ _ (three-Clear c rest)
              (λ _.
                IsFair-if c rest (eq_nat c 34 || eq_nat c 39) _ _ (λ e. (ground (arith, e), tt))
                  (λ _. (inl refl, tt)))))

on_block-IsFair : (depth c : ℕ) (rest : Bytes) → IsFair c rest (on_block depth c rest)
unfolding on_block
on_block-IsFair depth c rest =
    IsFair-if c rest (begins_with (c ∷ rest) (ascii "/*")) _ _
      (two-Clear c 47 42 rest (omega arith) (omega arith))
      (λ _.
        IsFair-if c rest (begins_with (c ∷ rest) (ascii "*/")) _ _
          (two-Clear c 42 47 rest (omega arith) (omega arith)) (λ _. (Masks-blank c, tt)))

pub on_character-IsFair : (m : Mode) (c : ℕ) (rest : Bytes) → IsFair c rest (on_character m c rest)
unfolding on_character
on_character-IsFair plain c rest = on_code-IsFair c rest
on_character-IsFair (block depth) c rest = on_block-IsFair depth c rest
on_character-IsFair line_comment c rest =
    IsFair-if c rest (eq_nat c 10) _ _ (λ _. (inl refl, tt)) (λ e. (ground (arith, e), tt))
on_character-IsFair triple c rest =
    IsFair-if c rest (begins_with (c ∷ rest) (34 ∷ 34 ∷ 34 ∷ [])) _ _ (three-Clear c rest)
      (λ _. (Masks-blank c, tt))
on_character-IsFair (literal quote true) c rest = (Masks-blank c, tt)
on_character-IsFair (literal quote false) c rest =
    IsFair-if c rest (eq_nat c 92) _ _ (λ _. (Masks-blank c, tt)) (λ _. (Masks-blank c, tt))

pub ok-cons :
    (o : ℕ) (r : Result Bytes) {out : Bytes}
    → (r >>= λ s. ok (o ∷ s)) ≡ ok out
    → (s : Bytes) × (r ≡ ok s) × (out ≡ o ∷ s)
ok-cons o (err x) e = cc
ok-cons o (ok s) {out = out} e = let same : out ≡ o ∷ s = cc in (s, refl, same)

pub blanked-IsMask :
    (m : Mode) (n : ℕ) (source out : Bytes)
    → Clear n source
    → blanked m n source ≡ ok out
    → IsMask source out
unfolding blanked
blanked-IsMask m n [] out k e = elim (Bool-cases (is_finished m)) [
  | inl f ↦ let same : [] ≡ out = cc (rw f at e) in rw (← same) tt
  | inr f ↦ cc (rw f at e)
]
blanked-IsMask m (suc n) (c ∷ rest) out k e =
    let (s, e1, same) = ok-cons 32 (blanked m n rest) e in
    rw same (inr (refl, k.0), blanked-IsMask m n rest s k.1 e1)
blanked-IsMask m zero (c ∷ rest) out k e =
    let t = on_character m c rest in
    let (s, e1, same) = ok-cons t.out (blanked t.next t.more rest) e in
    let (masks, clear) = on_character-IsFair m c rest in
    rw same (masks, blanked-IsMask t.next t.more rest s clear e1)

-- What is left of a source has as many characters, each of which is the one of the source or a
-- space that stands for one that is no line feed.
pub strip_comments_and_strings-IsMask :
    (source out : Bytes) → strip_comments_and_strings source ≡ ok out → IsMask source out
unfolding strip_comments_and_strings
strip_comments_and_strings-IsMask source out e = blanked-IsMask plain 0 source out tt e
