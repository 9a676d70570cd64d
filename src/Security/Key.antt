-- ===== src/Security/Key.antt =====
-- How much of the key comes from the random device.
use maiccu.Base.{
  ℕ, ◌+◌, ◌-◌, ◌^◌, ◌≤◌, ◌<◌, List, [], ◌∷◌, ◌++◌, some, ◌≡◌, ap, ◌∙◌, zero, suc, arith, drop,
  length, replicate,
}
use maiccu.Security.{key_len, block_len, read_key}

drop-replicate : (n k : ℕ) → drop {A = ℕ} n (replicate k 0) ≡ replicate (k - n) 0
drop-replicate zero k = ap (λ (j : ℕ). replicate {A = ℕ} j 0) {x = k} {y = k - 0} (omega arith)
drop-replicate (suc n) zero =
    ap (λ (j : ℕ). replicate {A = ℕ} j 0) {x = 0} {y = 0 - suc n} (omega arith)
drop-replicate (suc n) (suc k) =
    drop-replicate n k
    ∙ ap (λ (j : ℕ). replicate {A = ℕ} j 0) {x = k - n} {y = suc k - suc n} (omega arith)

read_key_done :
    (reads : List (List ℕ)) (len : ℕ) (key : List ℕ)
    → key_len ≤ len
    → read_key reads len key ≡ some key
unfolding read_key
read_key_done [] len key h = ground arith
read_key_done (bs ∷ reads) len key h = ground arith

-- The loop subtracts the length of a read from the length it has. So whatever the device delivers
-- first, if it delivers anything, is all that it is asked for: after a short read the rest of the
-- sixteen bytes stays zero.
read_key_short :
    (bs : List ℕ) (reads : List (List ℕ))
    → 0 < length bs
    → length bs ≤ key_len
    → read_key (bs ∷ reads) 0 (replicate block_len 0)
      ≡ some (bs ++ replicate (block_len - length bs) 0)
unfolding read_key
read_key_short bs reads h k = ground (
  arith,
  read_key_done reads (2 ^ 32 - length bs) (bs ++ drop (0 + length bs) (replicate block_len 0)),
  drop-replicate (0 + length bs) block_len,
)
