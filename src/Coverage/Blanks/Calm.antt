-- ===== src/Coverage/Blanks/Calm.antt =====
-- Lemmas and theorems on what `_strip_comments_and_strings` of
-- scripts/quality/verify_coverage.py leaves of a source.
use gas_station.Base.{
  ℕ, zero, suc, Bool, true, false, not, ◌&&◌, ◌||◌, [], ◌∷◌, ◌≡◌, ◌≢◌, refl, inl, inr, arith,
  if◌then◌else◌, eq_nat, Bool-cases,
}
use gas_station.Coverage.Outcome.{ok}
use gas_station.Coverage.Bytes.{Bytes, begins_with, ascii}
use gas_station.Coverage.Blanks.{
  Mode, plain, line_comment, triple, block, literal, Turn, blank, is_finished, on_code, on_block,
  on_character, blanked, strip_comments_and_strings,
}
use gas_station.Coverage.Blanks.Shape.{IsMask, Clear, ok-cons, blanked-IsMask, on_character-IsFair}

-- No quote, and no mark that a comment starts with.
abbrev pub is_calm : ℕ → Bytes → Bool
is_calm c rest =
    not (eq_nat c 34)
    && not (eq_nat c 39)
    && not (begins_with (c ∷ rest) (47 ∷ 42 ∷ []))
    && not (begins_with (c ∷ rest) (47 ∷ 47 ∷ []))

abbrev pub IsCalm : Bytes → Type 0
IsCalm [] = Unit
IsCalm (c ∷ s) = (is_calm c s ≡ true) × IsCalm s

-- A calm character is code that is kept.
on_code-calm :
    (c : ℕ) (rest : Bytes)
    → is_calm c rest ≡ true
    → on_code c rest ≡ record { next = plain; out = c; more = 0 }
unfolding on_code
on_code-calm c [] h = ground (arith, h)
on_code-calm c (d ∷ rest) h = ground (arith, h)

-- A calm source is left as it is.
IsCalm-blanked : (source : Bytes) → IsCalm source → blanked plain 0 source ≡ ok source
unfolding blanked
IsCalm-blanked [] h = refl
IsCalm-blanked (c ∷ rest) h = rw (on_code-calm c rest h.0, IsCalm-blanked rest h.1) refl

calm-if :
    (s : Bytes) (b : Bool) (t u : Turn)
    → (b ≡ true → is_calm t.out s ≡ true)
    → (b ≡ false → is_calm u.out s ≡ true)
    → is_calm (if b then t else u).out s ≡ true
calm-if s true t u ht hu = ht refl
calm-if s false t u ht hu = hu refl

calm-other : (c : ℕ) (s : Bytes) → c ≢ 34 → c ≢ 39 → c ≢ 47 → is_calm c s ≡ true
calm-other c s h1 h2 h3 = ground (arith, h1, h2, h3)

calm-space : (s : Bytes) → is_calm 32 s ≡ true
calm-space s = calm-other 32 s (omega arith) (omega arith) (omega arith)

calm-blank : (c : ℕ) (s : Bytes) → is_calm (blank c) s ≡ true
calm-blank c s = calm-other (blank c) s (ground arith) (ground arith) (ground arith)

-- What masks the rest of the source starts no comment behind a character that starts none there.
calm-kept :
    (c : ℕ) (rest s : Bytes)
    → IsMask rest s
    → begins_with (c ∷ rest) (47 ∷ 42 ∷ []) ≡ false
    → begins_with (c ∷ rest) (47 ∷ 47 ∷ []) ≡ false
    → (eq_nat c 34 || eq_nat c 39) ≡ false
    → is_calm c s ≡ true
calm-kept c [] [] m h1 h2 h3 = ground (arith, h3)
calm-kept c [] (o ∷ s) m h1 h2 h3 = elim m [ ]
calm-kept c (d ∷ rest) [] m h1 h2 h3 = elim m [ ]
calm-kept c (d ∷ rest) (o ∷ s) m h1 h2 h3 = elim m.0 [
  | inl same ↦ ground (arith, same, h1, h2, h3)
  | inr (space, _) ↦ ground (arith, space, h3)
]

module _ (c : ℕ) (rest s : Bytes) (m : IsMask rest s) where
  on_code-calm_out : is_calm (on_code c rest).out s ≡ true
  unfolding on_code
  on_code-calm_out =
      calm-if s (begins_with (c ∷ rest) (ascii "/*")) _ _ (λ _. calm-space s)
        (λ h1.
          calm-if s (begins_with (c ∷ rest) (ascii "//")) _ _ (λ _. calm-space s)
            (λ h2.
              calm-if s (begins_with (c ∷ rest) (34 ∷ 34 ∷ 34 ∷ [])) _ _ (λ _. calm-space s)
                (λ _.
                  calm-if s (eq_nat c 34 || eq_nat c 39) _ _ (λ _. calm-space s)
                    (λ h3. calm-kept c rest s m h1 h2 h3))))

  on_block-calm_out : (depth : ℕ) → is_calm (on_block depth c rest).out s ≡ true
  unfolding on_block
  on_block-calm_out depth =
      calm-if s (begins_with (c ∷ rest) (ascii "/*")) _ _ (λ _. calm-space s)
        (λ _.
          calm-if s (begins_with (c ∷ rest) (ascii "*/")) _ _ (λ _. calm-space s)
            (λ _. calm-blank c s))

  on_character-calm_out : (mode : Mode) → is_calm (on_character mode c rest).out s ≡ true
  unfolding on_character
  on_character-calm_out plain = on_code-calm_out
  on_character-calm_out (block depth) = on_block-calm_out depth
  on_character-calm_out line_comment =
      calm-if s (eq_nat c 10) _ _
        (λ e. calm-other c s (ground (arith, e)) (ground (arith, e)) (ground (arith, e)))
        (λ _. calm-space s)
  on_character-calm_out triple =
      calm-if s (begins_with (c ∷ rest) (34 ∷ 34 ∷ 34 ∷ [])) _ _ (λ _. calm-space s)
        (λ _. calm-blank c s)
  on_character-calm_out (literal quote true) = calm-blank c s
  on_character-calm_out (literal quote false) =
      calm-if s (eq_nat c 92) _ _ (λ _. calm-blank c s) (λ _. calm-blank c s)

blanked-IsCalm :
    (mode : Mode) (n : ℕ) (source out : Bytes)
    → Clear n source
    → blanked mode n source ≡ ok out
    → IsCalm out
unfolding blanked
blanked-IsCalm mode n [] out k e = elim (Bool-cases (is_finished mode)) [
  | inl f ↦ let same : [] ≡ out = cc (rw f at e) in rw (← same) tt
  | inr f ↦ cc (rw f at e)
]
blanked-IsCalm mode (suc n) (c ∷ rest) out k e =
    let (s, e1, same) = ok-cons 32 (blanked mode n rest) e in
    rw same (calm-space s, blanked-IsCalm mode n rest s k.1 e1)
blanked-IsCalm mode zero (c ∷ rest) out k e =
    let t = on_character mode c rest in
    let (s, e1, same) = ok-cons t.out (blanked t.next t.more rest) e in
    let clear = (on_character-IsFair mode c rest).1 in
    let m = blanked-IsMask t.next t.more rest s clear e1 in
    rw same (on_character-calm_out c rest s m mode, blanked-IsCalm t.next t.more rest s clear e1)

-- What is left of a source holds no quote and no start of a comment.
pub strip_comments_and_strings-IsCalm :
    (source out : Bytes) → strip_comments_and_strings source ≡ ok out → IsCalm out
unfolding strip_comments_and_strings
strip_comments_and_strings-IsCalm source out e = blanked-IsCalm plain 0 source out tt e

-- Stripping what is left of a source changes nothing more.
pub strip_comments_and_strings_idem :
    (source out : Bytes)
    → strip_comments_and_strings source ≡ ok out
    → strip_comments_and_strings out ≡ ok out
unfolding strip_comments_and_strings
strip_comments_and_strings_idem source out e =
    IsCalm-blanked out (blanked-IsCalm plain 0 source out tt e)
