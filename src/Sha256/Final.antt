-- ===== src/Sha256/Final.antt =====
-- `ngx_http_brotli_sha256_final`: the digest is that of the padded message of FIPS 180-4.
use ngx_brotli.Base.{
  u64, ℕ, zero, suc, ◌+◌, ◌-◌, ◌*◌, ◌%◌, ◌≡◌, ap, sym, ◌∙◌, true, false, Bytes, List, [], ◌∷◌, ◌++◌,
  arith, ltb, length, replicate, length-append, length-replicate, append_assoc, append-nil, dec_lt,
}
use native.Mathlib.Nat.{zero-add, suc-add}
use ngx_brotli.Sha256.Absorb.{absorb, absorb-append, absorb_block, absorb_short}
use ngx_brotli.Sha256.Compress.{Words, compress}
use ngx_brotli.Sha256.Update.{
  Represents, init-Represents, pending-lt, update_all, concat, update_all-Represents,
}
use ngx_brotli.Sha256.{Sha256, initial_state, init, length_bytes, digest_bytes, final}

-- FIPS 180-4, 5.1.1: a one bit, zeros up to 56 bytes modulo 64, and the length in bits on 64 bits.
abbrev pub zeros_after : ℕ → ℕ
zeros_after n = (119 - n % 64) % 64

abbrev pub padded : Bytes → Bytes
padded msg =
    msg ++ 0x80 ∷ (replicate (zeros_after (length msg)) 0 ++ length_bytes (u64 (length msg * 8)))

replicate-add :
    (m n : ℕ) (rest : Bytes)
    → replicate (m + n) 0 ++ rest ≡ replicate m 0 ++ (replicate n 0 ++ rest)
replicate-add zero n rest = rw zero-add
replicate-add (suc m) n rest = rw suc-add (ap (◌∷◌ 0) (replicate-add m n rest))

-- The block with the length, behind `b` pending bytes.
abbrev tail_of : Bytes → ℕ → Bytes → Bytes
tail_of b k more = b ++ 0x80 ∷ (replicate k 0 ++ more)

regroup : (b zeros more : Bytes) → b ++ 0x80 ∷ (zeros ++ more) ≡ ((b ++ 0x80 ∷ []) ++ zeros) ++ more
regroup b zeros more =
    sym (append_assoc (b ++ 0x80 ∷ []) zeros more ∙ append_assoc b (0x80 ∷ []) (zeros ++ more))

absorb_whole :
    (state : Words) (block : Bytes)
    → length block ≡ 64
    → absorb state block ≡ (compress state block, [])
absorb_whole state block e =
    ap (absorb state) (sym (append-nil block))
    ∙ absorb_block state block [] e
    ∙ absorb_short (compress state block) [] (omega arith)

-- The length still fits behind the pending bytes.
absorb_last :
    (state : Words) (b : Bytes) (k bits : ℕ)
    → length b + 1 + k ≡ 56
    → absorb state (tail_of b k (length_bytes bits))
      ≡ (compress state (((b ++ 0x80 ∷ []) ++ replicate k 0) ++ length_bytes bits), [])
absorb_last state b k bits e =
    ap (absorb state) (regroup b (replicate k 0) (length_bytes bits))
    ∙ absorb_whole state (((b ++ 0x80 ∷ []) ++ replicate k 0) ++ length_bytes bits) (
        omega (
          arith,
          length-append ((b ++ 0x80 ∷ []) ++ replicate k 0) (length_bytes bits),
          length-append (b ++ 0x80 ∷ []) (replicate k 0),
          length-append b (0x80 ∷ []),
          length-replicate {A = ℕ} k 0,
        ))

-- It does not: the padding takes one block more.
absorb_two :
    (state : Words) (b : Bytes) (k bits : ℕ)
    → length b + 1 + k ≡ 64
    → let state' = compress state ((b ++ 0x80 ∷ []) ++ replicate k 0) in
      absorb state (tail_of b (k + 56) (length_bytes bits))
      ≡ (compress state' (replicate 56 0 ++ length_bytes bits), [])
absorb_two state b k bits e =
    let more = replicate 56 0 ++ length_bytes bits in
    ap (λ (r : Bytes). absorb state (b ++ 0x80 ∷ r)) (replicate-add k 56 (length_bytes bits))
    ∙ ap (absorb state) (regroup b (replicate k 0) more)
    ∙ absorb_block state ((b ++ 0x80 ∷ []) ++ replicate k 0) more (
        omega (
          arith,
          length-append (b ++ 0x80 ∷ []) (replicate k 0),
          length-append b (0x80 ∷ []),
          length-replicate {A = ℕ} k 0,
        ))
    ∙ absorb_whole (compress state ((b ++ 0x80 ∷ []) ++ replicate k 0)) more (omega arith)

-- `final` compresses exactly the padding behind the pending bytes.
final_pending :
    (c : Sha256) (n : ℕ)
    → length c.block ≡ n % 64
    → let bits = u64 (c.total * 8) in
      (state : Words) × (absorb c.state (tail_of c.block (zeros_after n) (length_bytes bits))
        ≡ (state, []))
      × (final c ≡ digest_bytes state)
unfolding final
final_pending c n e = elim (dec_lt 56 (length (c.block ++ 0x80 ∷ []))) [
  | yes over ↦
      let size = length-append c.block (0x80 ∷ []) in
      let k = 64 - length (c.block ++ 0x80 ∷ []) in
      let zeros : zeros_after n ≡ k + 56 = omega (arith, size) in
      let test : ltb 56 (length (c.block ++ 0x80 ∷ [])) ≡ true = ground arith in
      (
        compress (compress c.state ((c.block ++ 0x80 ∷ []) ++ replicate k 0))
            (replicate 56 0 ++ length_bytes (u64 (c.total * 8))),
        rw zeros (absorb_two c.state c.block k (u64 (c.total * 8)) (omega (arith, size))),
        rw test,
      )
  | no under ↦
      let size = length-append c.block (0x80 ∷ []) in
      let k = 56 - length (c.block ++ 0x80 ∷ []) in
      let zeros : zeros_after n ≡ k = omega (arith, size) in
      let test : ltb 56 (length (c.block ++ 0x80 ∷ [])) ≡ false = ground arith in
      (
        compress c.state
            (((c.block ++ 0x80 ∷ []) ++ replicate k 0) ++ length_bytes (u64 (c.total * 8))),
        rw zeros (absorb_last c.state c.block k (u64 (c.total * 8)) (omega (arith, size))),
        rw test,
      )
]

final-Represents :
    (msg : Bytes) (c : Sha256)
    → Represents msg c
    → (state : Words) × (absorb initial_state (padded msg) ≡ (state, []))
      × (final c ≡ digest_bytes state)
final-Represents msg c r =
    let (state, ends, digest) = final_pending c (length msg) (pending-lt msg c r) in
    let bits : u64 (c.total * 8) ≡ u64 (length msg * 8) = omega (arith, r.counted) in
    let tail =
      0x80 ∷ (replicate (zeros_after (length msg)) 0 ++ length_bytes (u64 (length msg * 8))) in
    (
      state,
      absorb-append initial_state msg tail
          ∙ ap (λ (s : Words × Bytes). absorb s.0 (s.1 ++ tail)) r.absorbed
          ∙ rw bits at ends,
      digest,
    )

-- However the message is cut into pieces, `init`, one `update` for each piece and `final` give
-- one digest: the message padded as FIPS 180-4 pads it, with its bit length in 64 bits, is a
-- whole number of 64-byte blocks, and the digest is the big-endian state behind `compress` of
-- each block in turn.
pub final-update_all :
    (pieces : List Bytes)
    → (state : Words) × (absorb initial_state (padded (concat pieces)) ≡ (state, []))
      × (final (update_all init pieces) ≡ digest_bytes state)
final-update_all pieces =
    final-Represents (concat pieces) (update_all init pieces)
      (update_all-Represents [] pieces init init-Represents)
