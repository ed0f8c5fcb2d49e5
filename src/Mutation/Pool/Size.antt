-- ===== src/Mutation/Pool/Size.antt =====
-- The number of slots of the constant pool that `_parse_class_source_file` of
-- scripts/quality/pitest_policy/__init__.py reads.
use gas_station.Base.{ℕ, zero, suc, Bool, true, false, List, [], ◌∷◌, ◌≡◌, sym, ap, arith, length}
use gas_station.Coverage.Bytes.{Bytes}
use gas_station.Coverage.Outcome.{Result, ok, >>=-eq-ok}
use gas_station.Mutation.Pool.{Slot, hole, number_in, constant_of, slots, constant_pool}

one_more :
    (slot : Slot) (n : ℕ) {pool found : List Slot} {bytes bytes' : Bytes}
    → length found ≡ n
    → ◌≡◌ {A = Result (List Slot × Bytes)} (ok (slot ∷ found, bytes)) (ok (pool, bytes'))
    → length pool ≡ suc n
one_more slot n {pool = pool} {found = found} h e =
    let same : slot ∷ found ≡ pool = cc in omega (arith, h, ap length same)

length-slots :
    (wide : Bool) (n : ℕ) (bytes rest : Bytes) (found : List Slot)
    → slots wide n bytes ≡ ok (found, rest)
    → length found ≡ n
unfolding slots
length-slots wide zero bytes rest found e = let same : [] ≡ found = cc in ap length (sym same)
length-slots true (suc n) bytes rest found e =
    let (r, e1, e2) = >>=-eq-ok (slots false n bytes) _ e in
    one_more hole n (length-slots false n bytes r.1 r.0 e1) e2
length-slots false (suc n) [] rest found e = cc
length-slots false (suc n) (t ∷ bytes) rest found e =
    let (c, e1, e2) = >>=-eq-ok (constant_of t bytes) _ e in
    let (r, e3, e4) = >>=-eq-ok (slots (number_in t (5 ∷ 6 ∷ [])) n c.1) _ e2 in
    one_more _ n (length-slots _ n c.1 r.1 r.0 e3) e4

-- A constant pool that is read has as many slots as are asked for, though some constants take two.
pub length-constant_pool :
    (count : ℕ) (bytes rest : Bytes) (pool : List Slot)
    → constant_pool count bytes ≡ ok (pool, rest)
    → length pool ≡ count
unfolding constant_pool
length-constant_pool zero bytes rest pool e = let same : [] ≡ pool = cc in ap length (sym same)
length-constant_pool (suc n) bytes rest pool e =
    let (r, e1, e2) = >>=-eq-ok (slots false n bytes) _ e in
    one_more hole n (length-slots false n bytes r.1 r.0 e1) e2
