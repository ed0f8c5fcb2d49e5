-- ===== src/Pitest/Install/Sorted.antt =====
-- The order in which `install_successor_atomically` of scripts/quality/verify_pitest.py writes the
-- archive files, and the names it writes.
use gas_station.Base.{
  is_earlier, String, true, false, List, [], ◌∷◌, ◌==◌, ◌≡◌, refl, sym, ◌∙◌, arith, one_of, eq_iff,
  All, Bool-cases, inl, inr,
}
use gas_station.Coverage.Bytes.{Bytes}
use gas_station.Coverage.Statuses.{find}
use gas_station.Pitest.Disk.{Files, put, find-put, find-put_other}
use gas_station.Pitest.Install.{sorted_files, insert_file}
use gas_station.Pitest.Install.Kept.{names, tmp_names}
use gas_station.Pitest.Install.Done.{Contents, Others}
use gas_station.Pitest.Install.Staged.{IsDistinct, Fit, Outside}

module _ (P : String × Bytes → Type 0) where
  All-insert_file :
      (f : String × Bytes) (files : Files) → P f → All P files → All P (insert_file f files)
  unfolding insert_file
  All-insert_file f [] h k = (h, tt)
  All-insert_file f (g ∷ files) h k = elim (Bool-cases (is_earlier f.0 g.0)) [
    | inl e ↦ rw e (h, k)
    | inr e ↦ rw e (k.0, All-insert_file f files h k.1)
  ]

  pub All-sorted_files : (files : Files) → All P files → All P (sorted_files files)
  unfolding sorted_files
  All-sorted_files [] h = tt
  All-sorted_files (f ∷ files) h =
      All-insert_file f (sorted_files files) h.0 (All-sorted_files files h.1)

  insert_file-All :
      (f : String × Bytes) (files : Files) → All P (insert_file f files) → P f × All P files
  unfolding insert_file
  insert_file-All f [] h = h
  insert_file-All f (g ∷ files) h = elim (Bool-cases (is_earlier f.0 g.0)) [
    | inl e ↦ rw e at h
    | inr e ↦
        let (first, others) : P g × All P (insert_file f files) = rw e at h in
        let (this, rest) = insert_file-All f files others in (this, (first, rest))
  ]

  pub sorted_files-All : (files : Files) → All P (sorted_files files) → All P files
  unfolding sorted_files
  sorted_files-All [] h = tt
  sorted_files-All (f ∷ files) h =
      let (this, rest) = insert_file-All f (sorted_files files) h in
      (this, sorted_files-All files rest)

pub one_of-Others : (p : String) (files : Files) → Others p files → one_of p (names files) ≡ false
unfolding one_of
one_of-Others p [] o = refl
one_of-Others p ((q, raw) ∷ files) o = rw o.0 (one_of-Others p files o.1)

pub Others-one_of : (p : String) (files : Files) → one_of p (names files) ≡ false → Others p files
unfolding one_of
Others-one_of p [] h = tt
Others-one_of p ((q, raw) ∷ files) h = elim (Bool-cases (p == q)) [
  | inl e ↦ cc (rw e at h)
  | inr e ↦ (e, Others-one_of p files (rw e at h))
]

pub Outside-names :
    (temps : List String) (files : Files)
    → All (λ q. one_of q temps ≡ false) (names files)
    → Outside temps files
Outside-names temps [] h = tt
Outside-names temps ((p, raw) ∷ files) h = (h.0, Outside-names temps files h.1)

pub Fit-names :
    (temps : List String) (files : Files)
    → All (λ q. one_of q temps ≡ false) (names files)
    → All (λ t. one_of t temps ≡ true) (tmp_names files)
    → IsDistinct (names files)
    → Fit temps files
Fit-names temps [] plain inside distinct = tt
Fit-names temps ((p, raw) ∷ files) plain inside distinct =
    (plain.0, inside.0, distinct.0, Fit-names temps files plain.1 inside.1 distinct.1)

-- The files `wanted` are written, the last of them first.
abbrev pub put_all : Files → Files → Files
put_all [] files = files
put_all ((p, raw) ∷ wanted) files = put p raw (put_all wanted files)

-- Files agree with those where others are written, which they hold.
pub find-put_all :
    (p : String) (wanted before after : Files)
    → Contents wanted after
    → (Others p wanted → find p after ≡ find p before)
    → find p after ≡ find p (put_all wanted before)
find-put_all p [] before after holds same = same tt
find-put_all p ((q, raw) ∷ wanted) before after holds same = elim (Bool-cases (p == q)) [
  | inl e ↦
      let is : p ≡ q = (eq_iff p q).0 e in
      rw is (holds.0 ∙ sym (find-put q raw (put_all wanted before)))
  | inr n ↦
      let apart : (q == p) ≡ false = ground (arith, n, eq_iff p q, eq_iff q p) in
      find-put_all p wanted before after holds.1 (λ o. same (n, o))
      ∙ sym (find-put_other p q raw (put_all wanted before) apart)
]
