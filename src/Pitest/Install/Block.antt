-- ===== src/Pitest/Install/Block.antt =====
-- Lemmas on the whole `try` block of `install_successor_atomically` in
-- scripts/quality/verify_pitest.py.
use text.Mathlib.TextLemmas.{append_cancel_right}
use gas_station.Base.{
  String, true, false, List, ◌∷◌, ◌==◌, ◌≡◌, refl, sym, ◌∙◌, arith, one_of, eq_iff, Bool-cases, inl,
  inr,
}
use gas_station.Coverage.Bytes.{Bytes}
use gas_station.Pitest.Disk.{Files}
use gas_station.Pitest.Steps.{Step, ◌then◌, tmp, write, replace_file, check, note_installed}
use gas_station.Pitest.Install.Frame.{apart}
use gas_station.Pitest.Install.Done.{
  Contents, Led, ◌upto◌, writing, checking, replacing, resting, Others,
}
use gas_station.Pitest.Install.Runs.{
  Runs, ◌onward◌, given as given_run, write-Runs, check-Runs, replace-Runs, note-Runs,
}
use gas_station.Pitest.Install.Staged.{Outside, Others-Outside}

tmp_other : (x y : String) → (x == y) ≡ false → (tmp x == tmp y) ≡ false
tmp_other x y h = elim (Bool-cases (tmp x == tmp y)) [
  | inr n ↦ n
  | inl e ↦
      let same : x ≡ y = append_cancel_right x y ".tmp" ((eq_iff (tmp x) (tmp y)).0 e) in
      cc (sym h ∙ (eq_iff x y).1 same)
]

pub other_sym : (x y : String) → (x == y) ≡ false → (y == x) ≡ false
other_sym x y h = ground (arith, h, eq_iff x y, eq_iff y x)

-- Contents in another order.
given :
    {K L M : Files}
    → {step : Step} → ((files : Files) → Contents K files → Contents L files)
    → Led L step M
    → Led K step M
given f h = record { leads = λ s c e. h.leads s (f s.disk.files c) e }

module _ (r t b : String) (r_raw t_raw b_raw : Bytes) (temps : List String) (L : Files)
    (r_plain : one_of r temps ≡ false) (t_plain : one_of t temps ≡ false)
    (b_plain : one_of b temps ≡ false) (r_temp : one_of (tmp r) temps ≡ true)
    (t_temp : one_of (tmp t) temps ≡ true) (b_temp : one_of (tmp b) temps ≡ true)
    (rt : (r == t) ≡ false) (rb : (r == b) ≡ false) (tb : (t == b) ≡ false) (out : Outside temps L)
    (r_new : Others r L) (t_new : Others t L) (b_new : Others b L) where
  from :
      (x y : String) → one_of (tmp x) temps ≡ true → one_of y temps ≡ false → (tmp x == y) ≡ false
  from x y h k = apart (tmp x) y temps h k

  temp : (x : String) → one_of (tmp x) temps ≡ true → Others (tmp x) L
  temp x h = Others-Outside (tmp x) temps L h out

  abbrev three : Step
  three =
      write (tmp r) r_raw
      then write (tmp t) t_raw
      then write (tmp b) b_raw
      then check (tmp r) r_raw
      then check (tmp t) t_raw
      then check (tmp b) b_raw
      then replace_file (tmp r) r
      then note_installed r
      then replace_file (tmp t) t
      then note_installed t
      then replace_file (tmp b) b

  pub place_three : Led L three ((b, b_raw) ∷ (t, t_raw) ∷ (r, r_raw) ∷ L)
  place_three =
      writing (tmp r) r_raw L (temp r r_temp)
      upto writing (tmp t) t_raw L (temp t t_temp)
      upto writing (tmp b) b_raw L (temp b b_temp)
      upto checking (tmp r) r_raw L
      upto checking (tmp t) t_raw ((tmp r, r_raw) ∷ L)
      upto checking (tmp b) b_raw ((tmp t, t_raw) ∷ (tmp r, r_raw) ∷ L)
      upto given (λ g (cb, (ct, (cr, l))). (cr, (ct, (cb, l))))
          (replacing (tmp r) r r_raw ((tmp t, t_raw) ∷ (tmp b, b_raw) ∷ L)
            (tmp_other r t rt, (tmp_other r b rb, temp r r_temp))
            (
              other_sym (tmp t) r (from t r t_temp r_plain),
              (other_sym (tmp b) r (from b r b_temp r_plain), r_new),
            ))
      upto resting ((r, r_raw) ∷ (tmp t, t_raw) ∷ (tmp b, b_raw) ∷ L) (note_installed r) (λ s. refl)
      upto given (λ g (cr, (ct, (cb, l))). (ct, (cr, (cb, l))))
          (replacing (tmp t) t t_raw ((r, r_raw) ∷ (tmp b, b_raw) ∷ L)
            (from t r t_temp r_plain, (tmp_other t b tb, temp t t_temp))
            (other_sym r t rt, (other_sym (tmp b) t (from b t b_temp t_plain), t_new)))
      upto resting ((t, t_raw) ∷ (r, r_raw) ∷ (tmp b, b_raw) ∷ L) (note_installed t) (λ s. refl)
      upto given (λ g (ct, (cr, (cb, l))). (cb, (ct, (cr, l))))
          (replacing (tmp b) b b_raw ((t, t_raw) ∷ (r, r_raw) ∷ L)
            (from b t b_temp t_plain, (from b r b_temp r_plain, temp b b_temp))
            (other_sym t b tb, (other_sym r b rb, b_new)))

  pub run_three : Runs L three ((b, b_raw) ∷ (t, t_raw) ∷ (r, r_raw) ∷ L)
  run_three =
      write-Runs (tmp r) r_raw L (temp r r_temp)
      onward write-Runs (tmp t) t_raw ((tmp r, r_raw) ∷ L)
          (tmp_other t r (other_sym r t rt), temp t t_temp)
      onward write-Runs (tmp b) b_raw ((tmp t, t_raw) ∷ (tmp r, r_raw) ∷ L)
          (tmp_other b t (other_sym t b tb), (tmp_other b r (other_sym r b rb), temp b b_temp))
      onward given_run (λ g (cb, (ct, (cr, l))). (cr, (ct, (cb, l))))
          (check-Runs (tmp r) r_raw ((tmp t, t_raw) ∷ (tmp b, b_raw) ∷ L))
      onward given_run (λ g (cr, (ct, (cb, l))). (ct, (cr, (cb, l))))
          (check-Runs (tmp t) t_raw ((tmp r, r_raw) ∷ (tmp b, b_raw) ∷ L))
      onward given_run (λ g (ct, (cr, (cb, l))). (cb, (ct, (cr, l))))
          (check-Runs (tmp b) b_raw ((tmp t, t_raw) ∷ (tmp r, r_raw) ∷ L))
      onward given_run (λ g (cb, (ct, (cr, l))). (cr, (ct, (cb, l))))
          (replace-Runs (tmp r) r r_raw ((tmp t, t_raw) ∷ (tmp b, b_raw) ∷ L)
            (tmp_other r t rt, (tmp_other r b rb, temp r r_temp))
            (
              other_sym (tmp t) r (from t r t_temp r_plain),
              (other_sym (tmp b) r (from b r b_temp r_plain), r_new),
            ))
      onward note-Runs r ((r, r_raw) ∷ (tmp t, t_raw) ∷ (tmp b, b_raw) ∷ L)
      onward given_run (λ g (cr, (ct, (cb, l))). (ct, (cr, (cb, l))))
          (replace-Runs (tmp t) t t_raw ((r, r_raw) ∷ (tmp b, b_raw) ∷ L)
            (from t r t_temp r_plain, (tmp_other t b tb, temp t t_temp))
            (other_sym r t rt, (other_sym (tmp b) t (from b t b_temp t_plain), t_new)))
      onward note-Runs t ((t, t_raw) ∷ (r, r_raw) ∷ (tmp b, b_raw) ∷ L)
      onward given_run (λ g (ct, (cr, (cb, l))). (cb, (ct, (cr, l))))
          (replace-Runs (tmp b) b b_raw ((t, t_raw) ∷ (r, r_raw) ∷ L)
            (from b t b_temp t_plain, (from b r b_temp r_plain, temp b b_temp))
            (other_sym t b tb, (other_sym r b rb, b_new)))
