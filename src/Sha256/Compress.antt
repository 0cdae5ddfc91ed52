-- ===== src/Sha256/Compress.antt =====
-- ngx_http_brotli_sha256.h: the constants and `ngx_http_brotli_sha256_compress`. A uint32_t is a
-- number below 2 ^ 32, its sums and shifts cut by `u32`.
use ngx_brotli.Base.{
  ℕ, zero, suc, ◌+◌, ◌-◌, ◌*◌, ◌/◌, ◌%◌, ◌^◌, Bytes, List, [], ◌∷◌, ◌++◌, bit_and, bit_or, bit_xor,
}

abbrev pub u32 : ℕ → ℕ
u32 n = n % 2 ^ 32

-- The eight words of `state`.
pub record Words : Type 0 where
  pub a : ℕ
  pub b : ℕ
  pub c : ℕ
  pub d : ℕ
  pub e : ℕ
  pub f : ℕ
  pub g : ℕ
  pub h : ℕ

abbrev round_constants : List ℕ
round_constants =
    0x428a2f98 ∷ 0x71374491 ∷ 0xb5c0fbcf ∷ 0xe9b5dba5 ∷ 0x3956c25b ∷ 0x59f111f1 ∷ 0x923f82a4
    ∷ 0xab1c5ed5 ∷ 0xd807aa98 ∷ 0x12835b01 ∷ 0x243185be ∷ 0x550c7dc3 ∷ 0x72be5d74 ∷ 0x80deb1fe
    ∷ 0x9bdc06a7 ∷ 0xc19bf174 ∷ 0xe49b69c1 ∷ 0xefbe4786 ∷ 0x0fc19dc6 ∷ 0x240ca1cc ∷ 0x2de92c6f
    ∷ 0x4a7484aa ∷ 0x5cb0a9dc ∷ 0x76f988da ∷ 0x983e5152 ∷ 0xa831c66d ∷ 0xb00327c8 ∷ 0xbf597fc7
    ∷ 0xc6e00bf3 ∷ 0xd5a79147 ∷ 0x06ca6351 ∷ 0x14292967 ∷ 0x27b70a85 ∷ 0x2e1b2138 ∷ 0x4d2c6dfc
    ∷ 0x53380d13 ∷ 0x650a7354 ∷ 0x766a0abb ∷ 0x81c2c92e ∷ 0x92722c85 ∷ 0xa2bfe8a1 ∷ 0xa81a664b
    ∷ 0xc24b8b70 ∷ 0xc76c51a3 ∷ 0xd192e819 ∷ 0xd6990624 ∷ 0xf40e3585 ∷ 0x106aa070 ∷ 0x19a4c116
    ∷ 0x1e376c08 ∷ 0x2748774c ∷ 0x34b0bcb5 ∷ 0x391c0cb3 ∷ 0x4ed8aa4a ∷ 0x5b9cca4f ∷ 0x682e6ff3
    ∷ 0x748f82ee ∷ 0x78a5636f ∷ 0x84c87814 ∷ 0x8cc70208 ∷ 0x90befffa ∷ 0xa4506ceb ∷ 0xbef9a3f7
    ∷ 0xc67178f2 ∷ []

abbrev get_or : List ℕ → ℕ → ℕ → ℕ
get_or [] i d = d
get_or (x ∷ xs) zero d = x
get_or (x ∷ xs) (suc i) d = get_or xs i d

-- `x >> n`, `x << n`, `~x` and the macro `rotr` on uint32_t.
abbrev shr : ℕ → ℕ → ℕ
shr x n = x / 2 ^ n

abbrev shl : ℕ → ℕ → ℕ
shl x n = u32 (x * 2 ^ n)

abbrev complement : ℕ → ℕ
complement x = 2 ^ 32 - 1 - x

abbrev rotr : ℕ → ℕ → ℕ
rotr x n = bit_or (shr x n) (shl x (32 - n))

-- `w[i]` of the first sixteen, big-endian.
abbrev load_word : Bytes → ℕ → ℕ
load_word p i =
    bit_or
      (bit_or (bit_or (shl (get_or p (i * 4) 0) 24) (shl (get_or p (i * 4 + 1) 0) 16))
        (shl (get_or p (i * 4 + 2) 0) 8))
      (get_or p (i * 4 + 3) 0)

load_words : ℕ → ℕ → Bytes → List ℕ → List ℕ
load_words zero i p w = w
load_words (suc left) i p w = load_words left (i + 1) p (w ++ load_word p i ∷ [])

abbrev next_word : ℕ → List ℕ → ℕ
next_word i w =
    let x = get_or w (i - 15) 0 in
    let y = get_or w (i - 2) 0 in
    let s0 = bit_xor (bit_xor (rotr x 7) (rotr x 18)) (shr x 3) in
    let s1 = bit_xor (bit_xor (rotr y 17) (rotr y 19)) (shr y 10) in
    u32 (u32 (u32 (get_or w (i - 16) 0 + s0) + get_or w (i - 7) 0) + s1)

extend_words : ℕ → ℕ → List ℕ → List ℕ
extend_words zero i w = w
extend_words (suc left) i w = extend_words left (i + 1) (w ++ next_word i w ∷ [])

-- One round of the main loop.
abbrev compress_round : ℕ → ℕ → Words → Words
compress_round k w v =
    let s1 = bit_xor (bit_xor (rotr v.e 6) (rotr v.e 11)) (rotr v.e 25) in
    let ch = bit_xor (bit_and v.e v.f) (bit_and (complement v.e) v.g) in
    let t1 = u32 (u32 (u32 (u32 (v.h + s1) + ch) + k) + w) in
    let s0 = bit_xor (bit_xor (rotr v.a 2) (rotr v.a 13)) (rotr v.a 22) in
    let maj = bit_xor (bit_xor (bit_and v.a v.b) (bit_and v.a v.c)) (bit_and v.b v.c) in
    record {
      a = u32 (u32 (t1 + s0) + maj);
      b = v.a;
      c = v.b;
      d = v.c;
      e = u32 (v.d + t1);
      f = v.e;
      g = v.f;
      h = v.g;
    }

rounds : List ℕ → List ℕ → Words → Words
rounds (k ∷ ks) (w ∷ ws) v = rounds ks ws (compress_round k w v)
rounds _ _ v = v

unfoldable pub compress : Words → Bytes → Words
unfolding load_words extend_words rounds
compress s p =
    let v = rounds round_constants (extend_words 48 16 (load_words 16 0 p [])) s in
    record {
      a = u32 (s.a + v.a);
      b = u32 (s.b + v.b);
      c = u32 (s.c + v.c);
      d = u32 (s.d + v.d);
      e = u32 (s.e + v.e);
      f = u32 (s.f + v.f);
      g = u32 (s.g + v.g);
      h = u32 (s.h + v.h);
    }
