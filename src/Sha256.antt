-- ===== src/Sha256.antt =====
-- ngx_http_brotli_sha256.h: the context and its operations.
pub mod Compress
pub mod Absorb
pub mod Update
pub mod Final
pub mod Digest
pub mod Tests
use ngx_brotli.Base.{
  u64, ℕ, zero, suc, ◌+◌, ◌-◌, ◌*◌, ◌/◌, ◌%◌, ◌^◌, Bool, true, false, Bytes, List, [], ◌∷◌, ◌++◌,
  Option, none, some, ltb, if◌then◌else◌, length, take, drop, replicate,
}
use Compress.{Words, compress}

-- The context. `block` holds the `block_len` pending bytes; those behind them are never read.
pub record Sha256 : Type 0 where
  pub state : Words
  pub total : ℕ
  pub block : Bytes

abbrev pub initial_state : Words
initial_state = record {
  a = 0x6a09e667;
  b = 0xbb67ae85;
  c = 0x3c6ef372;
  d = 0xa54ff53a;
  e = 0x510e527f;
  f = 0x9b05688c;
  g = 0x1f83d9ab;
  h = 0x5be0cd19;
}

abbrev pub init : Sha256
init = record { state = initial_state; total = 0; block = [] }

-- `while (len >= 64)`, on fuel: the state, and the data that remain.
unfoldable pub full_blocks : ℕ → Words → Bytes → Words × Bytes
full_blocks zero state rest = (state, rest)
full_blocks (suc n) state rest = elim (ltb (length rest) 64) [
  | true ↦ (state, rest)
  | false ↦ full_blocks n (compress state (take 64 rest)) (drop 64 rest)
]

-- The end of `update`: what is left becomes the pending block, which is empty by then.
abbrev pub keep_rest : Sha256 → Words × Bytes → Sha256
keep_rest c (state, []) = record c { state = state; block = [] }
keep_rest c (state, x ∷ rest) = record c { state = state; block = x ∷ rest }

abbrev pub whole_blocks : Sha256 → Bytes → Sha256
whole_blocks c rest = keep_rest c (full_blocks (length rest) c.state rest)

-- `if (c->block_len)`: the pending block is filled first.
abbrev pub fill_block : Sha256 → ℕ → Bytes → Sha256
fill_block c n rest =
    let block = c.block ++ take n rest in
    if ltb (length block) 64
    then record c { block = block }
    else whole_blocks (record c { state = compress c.state block; block = [] }) (drop n rest)

abbrev pub room : Sha256 → Bytes → ℕ
room c rest = let n = 64 - length c.block in if ltb (length rest) n then length rest else n

unfoldable pub update : Sha256 → Bytes → Sha256
unfolding full_blocks
update c rest =
    let c' = record c { total = u64 (c.total + length rest) } in
    if ltb 0 (length c.block) then fill_block c' (room c rest) rest else whole_blocks c' rest

-- `(u_char) (n >> shift)`.
abbrev pub byte_of : ℕ → ℕ → ℕ
byte_of n shift = n / 2 ^ shift % 256

abbrev pub length_bytes : ℕ → Bytes
length_bytes bits =
    byte_of bits 56
    ∷ byte_of bits 48
    ∷ byte_of bits 40
    ∷ byte_of bits 32
    ∷ byte_of bits 24
    ∷ byte_of bits 16
    ∷ byte_of bits 8
    ∷ byte_of bits 0
    ∷ []

abbrev pub word_bytes : ℕ → Bytes → Bytes
word_bytes w rest = byte_of w 24 ∷ byte_of w 16 ∷ byte_of w 8 ∷ byte_of w 0 ∷ rest

abbrev pub digest_bytes : Words → Bytes
digest_bytes s = word_bytes s.a (
    word_bytes s.b (
      word_bytes s.c
        (word_bytes s.d (word_bytes s.e (word_bytes s.f (word_bytes s.g (word_bytes s.h [])))))))

-- The last block, once there is room for the length.
abbrev pub last_block : Words → Bytes → ℕ → Bytes
last_block state block bits =
    digest_bytes (compress state ((block ++ replicate (56 - length block) 0) ++ length_bytes bits))

unfoldable pub final : Sha256 → Bytes
final c =
    let bits = u64 (c.total * 8) in
    let block = c.block ++ 0x80 ∷ [] in
    if ltb 56 (length block)
    then last_block (compress c.state (block ++ replicate (64 - length block) 0)) [] bits
    else last_block c.state block bits

-- The portable path.
unfoldable pub portable : Bytes → Bytes
unfolding update final
portable bytes = final (update init bytes)

-- `ngx_http_brotli_sha256`: `evp` is libcrypto's digest through the context that the caller passes,
-- `none` where there is no context or a stage fails.
unfoldable pub sha256 : (Bytes → Option Bytes) → Bytes → Bytes
unfolding portable
sha256 evp bytes = elim (evp bytes) [ some digest ↦ digest | none ↦ portable bytes ]
