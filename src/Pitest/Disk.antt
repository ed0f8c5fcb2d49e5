-- ===== src/Pitest/Disk.antt =====
-- Files and directories, as scripts/quality/verify_pitest.py reads and changes them.
use gas_station.Base.{
  ℕ, String, false, none, some, List, [], ◌∷◌, ◌==◌, ◌≡◌, refl, ap, arith, if◌then◌else◌, eq_iff,
  Bool-cases, inl, inr,
}
use gas_station.Coverage.Bytes.{Bytes}
use gas_station.Coverage.Statuses.{find}

abbrev pub Files : Type 0
Files = List (String × Bytes)

pub record Disk : Type 0 where
  pub files : Files
  pub dirs : List String

-- What the script uses of `pathlib`: `parent`, `parents`, `len(path.parts)`.
pub record Paths : Type 0 where
  pub parent : String → String
  pub parents : String → List String
  pub depth : String → ℕ

-- `path.write_bytes(raw)`
unfoldable pub put : String → Bytes → Files → Files
put path raw [] = (path, raw) ∷ []
put path raw ((p, old) ∷ files) =
    let rest = put path raw files in if p == path then (p, raw) ∷ files else (p, old) ∷ rest

-- `path.unlink()`, where it exists
unfoldable pub remove : String → Files → Files
remove path [] = []
remove path ((p, old) ∷ files) =
    let rest = remove path files in if p == path then rest else (p, old) ∷ rest

pub find-put :
    (path : String) (raw : Bytes) (files : Files) → find path (put path raw files) ≡ some raw
unfolding find put
find-put path raw [] = ground (arith, eq_iff path path)
find-put path raw ((p, old) ∷ files) = ground (arith, find-put path raw files)

pub find-put_other :
    (q path : String) (raw : Bytes) (files : Files)
    → (path == q) ≡ false
    → find q (put path raw files) ≡ find q files
unfolding find put
find-put_other q path raw [] h = rw h refl
find-put_other q path raw ((p, old) ∷ files) h = elim (Bool-cases (p == path)) [
  | inl e ↦
      let same : p ≡ path = (eq_iff p path).0 e in
      let apart : (p == q) ≡ false = rw same h in rw (e, apart, find) refl
  | inr n ↦ rw n (ap (λ o. if p == q then some old else o) (find-put_other q path raw files h))
]

pub find-remove : (path : String) (files : Files) → find path (remove path files) ≡ none
unfolding find remove
find-remove path [] = refl
find-remove path ((p, old) ∷ files) = ground (arith, find-remove path files)

pub find-remove_other :
    (q path : String) (files : Files)
    → (path == q) ≡ false
    → find q (remove path files) ≡ find q files
unfolding find remove
find-remove_other q path [] h = refl
find-remove_other q path ((p, old) ∷ files) h = elim (Bool-cases (p == path)) [
  | inl e ↦
      let same : p ≡ path = (eq_iff p path).0 e in
      let apart : (p == q) ≡ false = rw same h in rw (e, apart) (find-remove_other q path files h)
  | inr n ↦ rw n (ap (λ o. if p == q then some old else o) (find-remove_other q path files h))
]
