-- ===== src/Coverage/Blanks.antt =====
-- `_strip_comments_and_strings` of scripts/quality/verify_coverage.py.
pub mod Shape
pub mod Calm
use gas_station.Base.{
  ℕ, zero, suc, ◌+◌, ◌-◌, Char, code, Bool, true, false, not, ◌&&◌, ◌||◌, Option, none, some, List,
  [], ◌∷◌, if◌then◌else◌, eq_nat, drop,
}
use gas_station.Coverage.Outcome.{Result, ok, err, ◌>>=◌, policy_error}
use gas_station.Coverage.Bytes.{Bytes, begins_with, ascii}

-- A text is the list of its code points. Where the loop over it stands: in code, in comments that
-- are nested so deep, in a comment to the end of the line, in a literal with its quote and whether
-- the next character is escaped, or in a literal in three quotes.
pub data Mode : Type 0 where
  plain line_comment triple : Mode
  block : ℕ → Mode
  literal : ℕ → Bool → Mode

abbrev pub blank : ℕ → ℕ
blank c = if eq_nat c 10 then 10 else 32

-- The mode after a character, what is put out for it, and how many of those behind it belong to it.
pub record Turn : Type 0 where
  pub next : Mode
  pub out : ℕ
  pub more : ℕ

abbrev turn : Mode → ℕ → ℕ → Turn
turn m c n = record { next = m; out = c; more = n }

-- The mode that a comment's end leads to.
abbrev pub closed : ℕ → Mode
closed zero = plain
closed (suc zero) = plain
closed (suc (suc n)) = block (suc n)

unfoldable pub on_code : ℕ → Bytes → Turn
unfolding ascii
on_code c rest =
    if begins_with (c ∷ rest) (ascii "/*")
    then turn (block 1) 32 1
    else if begins_with (c ∷ rest) (ascii "//")
    then turn line_comment 32 1
    else if begins_with (c ∷ rest) (34 ∷ 34 ∷ 34 ∷ [])
    then turn triple 32 2
    else if eq_nat c 34 || eq_nat c 39
    then turn (literal c false) 32 0
    else turn plain c 0

unfoldable pub on_block : ℕ → ℕ → Bytes → Turn
unfolding ascii
on_block depth c rest =
    if begins_with (c ∷ rest) (ascii "/*")
    then turn (block (suc depth)) 32 1
    else if begins_with (c ∷ rest) (ascii "*/")
    then turn (closed depth) 32 1
    else turn (block depth) (blank c) 0

unfoldable pub on_character : Mode → ℕ → Bytes → Turn
unfolding on_code on_block
on_character plain c rest = on_code c rest
on_character (block depth) c rest = on_block depth c rest
on_character line_comment c rest = if eq_nat c 10 then turn plain c 0 else turn line_comment 32 0
on_character triple c rest =
    if begins_with (c ∷ rest) (34 ∷ 34 ∷ 34 ∷ []) then turn plain 32 2 else turn triple (blank c) 0
on_character (literal quote true) c rest = turn (literal quote false) (blank c) 0
on_character (literal quote false) c rest =
    if eq_nat c 92
    then turn (literal quote true) (blank c) 0
    else turn (if eq_nat c quote then plain else literal quote false) (blank c) 0

-- A source ends in code or in a comment to the end of the line.
abbrev pub is_finished : Mode → Bool
is_finished plain = true
is_finished line_comment = true
is_finished _ = false

-- What is put out for the rest of a source, of which so many characters are blanked first.
unfoldable pub blanked : Mode → ℕ → Bytes → Result Bytes
unfolding on_character
blanked m n [] = if is_finished m then ok [] else err policy_error
blanked m (suc n) (c ∷ rest) = blanked m n rest >>= λ out. ok (32 ∷ out)
blanked m zero (c ∷ rest) =
    let t = on_character m c rest in blanked t.next t.more rest >>= λ out. ok (t.out ∷ out)

unfoldable pub strip_comments_and_strings : Bytes → Result Bytes
unfolding blanked
strip_comments_and_strings source = blanked plain 0 source
