-- ===== src/Dag/Buffer.antt =====
-- Writing pieces one behind the other into a fresh, zeroed array.
use trackerstream.Common.{
  ℕ, zero, suc, ◌+◌, ◌-◌, ◌≤◌, ◌≡◌, sym, ap, ◌∙◌, false, List, ◌++◌, ltb, arith, append_assoc,
  length, take, drop, replicate, length-append, length-replicate, take-append, take-add,
  drop-append, drop-drop, length-take, length-drop,
}
use trackerstream.Common.Result.{ok}
use trackerstream.Dag.Build.{set_range, subarray}

drop-replicate : (k n : ℕ) (z : ℕ) → drop k (replicate n z) ≡ replicate (n - k) z
drop-replicate zero n z = ap (λ m. replicate m z) (omega arith)
drop-replicate (suc k) zero z =
    ap (λ m. replicate m z) (let e : zero ≡ zero - suc k = omega arith in e)
drop-replicate (suc k) (suc n) z =
    drop-replicate k n z
    ∙ ap (λ m. replicate m z) (let e : n - k ≡ suc n - suc k = omega arith in e)

drop-past : (done rest : List ℕ) (n : ℕ) → drop (length done + n) (done ++ rest) ≡ drop n rest
drop-past done rest n =
    sym (drop-drop (length done) n (done ++ rest)) ∙ ap (drop n) (drop-append done rest)

-- `done` is written, `k` zeros are left, and the next piece fits.
pub set_range-front :
    (done piece : List ℕ) (k w : ℕ)
    → w ≡ length done
    → length piece ≤ k
    → set_range (done ++ replicate k 0) piece w
      ≡ ok ((done ++ piece) ++ replicate (k - length piece) 0)
unfolding set_range
set_range-front done piece k w e h = rw (
  e,
  fits,
  take-append done (replicate k 0),
  drop-past done (replicate k 0) (length piece),
  drop-replicate (length piece) k 0,
  append_assoc,
)
  where
    fits : ltb (length (done ++ replicate k 0)) (length done + length piece) ≡ false
    fits = ground (arith, length-append done (replicate k 0), length-replicate {A = ℕ} k 0)

pub length-subarray :
    (b : List ℕ) (s e : ℕ) → s ≤ e → e ≤ length b → length (subarray b s e) ≡ e - s
length-subarray b s e h k = omega (arith, length-take {0} (e - s) (drop s b), length-drop {0} s b)

-- The first `w` bytes of a file and its bytes from `w` to `e` are its first `e` bytes; the zeros
-- behind them shrink.
pub file_step :
    (file : List ℕ) (w e : ℕ)
    → w ≤ e
    → e ≤ length file
    → (take w file ++ subarray file w e)
        ++ replicate (length file - w - length (subarray file w e)) 0
      ≡ take e file ++ replicate (length file - e) 0
file_step file w e h k = rw (length-subarray file w e h k, ← take-add w (e - w) file, back, rest)
  where
    back : w + (e - w) ≡ e
    back = omega arith

    rest : length file - w - (e - w) ≡ length file - e
    rest = omega arith

-- The first `w` bytes of a file are written; the next piece is the file's, up to `e`.
pub set_range-file :
    (file : List ℕ) (w e : ℕ)
    → w ≤ e
    → e ≤ length file
    → set_range (take w file ++ replicate (length file - w) 0) (subarray file w e) w
      ≡ ok (take e file ++ replicate (length file - e) 0)
set_range-file file w e h k =
    set_range-front (take w file) (subarray file w e) (length file - w) w
      (omega (arith, length-take {0} w file)) (omega (arith, length-subarray file w e h k))
    ∙ ap ok (file_step file w e h k)
