-- ===== src/Sha256/Absorb.antt =====
-- The block loop, as a function of the whole message: what it has absorbed and what is pending.
use ngx_brotli.Base.{
  ℕ, zero, suc, ◌%◌, ◌≤◌, ◌<◌, ◌≡◌, refl, ap, sym, ◌∙◌, false, Bytes, [], ◌∷◌, ◌++◌, arith, ltb,
  length, take, drop, length-append, length-drop, dec_lt,
}
use ngx_brotli.Sha256.Compress.{Words, compress}
use ngx_brotli.Sha256.{full_blocks}

-- Every whole block compressed in turn, and the bytes that are left.
abbrev pub absorb : Words → Bytes → Words × Bytes
absorb state msg = full_blocks (length msg) state msg

full_blocks_short :
    (n : ℕ) (state : Words) (msg : Bytes) → length msg < 64 → full_blocks n state msg ≡ (state, msg)
unfolding full_blocks
full_blocks_short zero state msg h = refl
full_blocks_short (suc n) state msg h = ground arith

full_blocks_long :
    (n : ℕ) (state : Words) (msg : Bytes)
    → 64 ≤ length msg
    → full_blocks (suc n) state msg ≡ full_blocks n (compress state (take 64 msg)) (drop 64 msg)
unfolding full_blocks
full_blocks_long n state msg h =
    let long : ltb (length msg) 64 ≡ false = ground arith in rw (long, full_blocks)

-- More fuel than the message is long changes nothing.
full_blocks_fuel :
    (n m : ℕ) (state : Words) (msg : Bytes)
    → length msg ≤ n
    → length msg ≤ m
    → full_blocks n state msg ≡ full_blocks m state msg
full_blocks_fuel zero m state msg h k =
    full_blocks_short zero state msg (omega arith)
    ∙ sym (full_blocks_short m state msg (omega arith))
full_blocks_fuel (suc n) zero state msg h k =
    full_blocks_short (suc n) state msg (omega arith)
    ∙ sym (full_blocks_short zero state msg (omega arith))
full_blocks_fuel (suc n) (suc m) state msg h k = elim (dec_lt (length msg) 64) [
  | yes short ↦
      full_blocks_short (suc n) state msg short ∙ sym (full_blocks_short (suc m) state msg short)
  | no long ↦
      full_blocks_long n state msg (omega arith)
      ∙ full_blocks_fuel n m _ (drop 64 msg) (omega (arith, length-drop 64 msg))
          (omega (arith, length-drop 64 msg))
      ∙ sym (full_blocks_long m state msg (omega arith))
]

-- What is left is shorter than a block, and as long as the message modulo 64.
full_blocks-length :
    (n : ℕ) (state : Words) (msg : Bytes)
    → length msg ≤ n
    → length (full_blocks n state msg).1 ≡ length msg % 64
full_blocks-length zero state msg h =
    rw (full_blocks_short zero state msg (omega arith)) (omega arith)
full_blocks-length (suc n) state msg h = elim (dec_lt (length msg) 64) [
  | yes short ↦ rw (full_blocks_short (suc n) state msg short) (omega arith)
  | no long ↦ rw (full_blocks_long n state msg (omega arith)) (
      omega (
        arith,
        length-drop 64 msg,
        full_blocks-length n (compress state (take 64 msg)) (drop 64 msg)
            (omega (arith, length-drop 64 msg)),
      ))
]

take-append : (n : ℕ) (xs ys : Bytes) → n ≤ length xs → take n (xs ++ ys) ≡ take n xs
take-append zero xs ys h = refl
take-append (suc n) [] ys h = absurd (omega arith)
take-append (suc n) (x ∷ xs) ys h = ap (◌∷◌ x) (take-append n xs ys (omega arith))

drop-append : (n : ℕ) (xs ys : Bytes) → n ≤ length xs → drop n (xs ++ ys) ≡ drop n xs ++ ys
drop-append zero xs ys h = refl
drop-append (suc n) [] ys h = absurd (omega arith)
drop-append (suc n) (x ∷ xs) ys h = drop-append n xs ys (omega arith)

-- Absorbing two pieces is absorbing the second behind what the first left pending.
full_blocks-append :
    (n : ℕ) (state : Words) (xs ys : Bytes)
    → length xs ≤ n
    → let s = full_blocks n state xs in absorb state (xs ++ ys) ≡ absorb s.0 (s.1 ++ ys)
full_blocks-append zero state xs ys h = rw (full_blocks_short zero state xs (omega arith)) refl
full_blocks-append (suc n) state xs ys h = elim (dec_lt (length xs) 64) [
  | yes short ↦ rw (full_blocks_short (suc n) state xs short) refl
  | no long ↦ rw (full_blocks_long n state xs (omega arith)) (
      full_blocks_fuel (length (xs ++ ys)) (suc (length (xs ++ ys))) state (xs ++ ys) (omega arith)
        (omega arith)
      ∙ full_blocks_long (length (xs ++ ys)) state (xs ++ ys) (omega (arith, length-append xs ys))
      ∙ rw (take-append 64 xs ys (omega arith), drop-append 64 xs ys (omega arith))
          (full_blocks_fuel (length (xs ++ ys)) (length (drop 64 xs ++ ys)) _ (drop 64 xs ++ ys)
            (omega (arith, length-append xs ys, length-append (drop 64 xs) ys, length-drop 64 xs))
            (omega arith))
      ∙ full_blocks-append n _ (drop 64 xs) ys (omega (arith, length-drop 64 xs)))
]

pub absorb-append :
    (state : Words) (xs ys : Bytes)
    → absorb state (xs ++ ys) ≡ absorb (absorb state xs).0 ((absorb state xs).1 ++ ys)
absorb-append state xs ys = full_blocks-append (length xs) state xs ys (omega arith)

pub absorb-length : (state : Words) (msg : Bytes) → length (absorb state msg).1 ≡ length msg % 64
absorb-length state msg = full_blocks-length (length msg) state msg (omega arith)

pub absorb_short : (state : Words) (msg : Bytes) → length msg < 64 → absorb state msg ≡ (state, msg)
absorb_short state msg h = full_blocks_short (length msg) state msg h

take_all : (n : ℕ) (xs : Bytes) → length xs ≡ n → take n xs ≡ xs
take_all zero [] e = refl
take_all zero (x ∷ xs) e = absurd (omega arith)
take_all (suc n) [] e = absurd (omega arith)
take_all (suc n) (x ∷ xs) e = ap (◌∷◌ x) (take_all n xs (omega arith))

drop_all : (n : ℕ) (xs : Bytes) → length xs ≡ n → drop n xs ≡ []
drop_all zero [] e = refl
drop_all zero (x ∷ xs) e = absurd (omega arith)
drop_all (suc n) [] e = refl
drop_all (suc n) (x ∷ xs) e = drop_all n xs (omega arith)

-- A whole block, then more.
pub absorb_block :
    (state : Words) (block rest : Bytes)
    → length block ≡ 64
    → absorb state (block ++ rest) ≡ absorb (compress state block) rest
absorb_block state block rest e =
    full_blocks_fuel (length (block ++ rest)) (suc (length (block ++ rest))) state (block ++ rest)
      (omega arith) (omega arith)
    ∙ full_blocks_long (length (block ++ rest)) state (block ++ rest)
        (omega (arith, length-append block rest))
    ∙ rw
        (
          take-append 64 block rest (omega arith),
          drop-append 64 block rest (omega arith),
          take_all 64 block e,
          drop_all 64 block e,
        )
        (full_blocks_fuel (length (block ++ rest)) (length rest) _ rest
          (omega (arith, length-append block rest)) (omega arith))
