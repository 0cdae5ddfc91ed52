-- ===== src/Base/Words.antt =====
-- Unsigned words of 64 bits: `uint64_t`, and `size_t`, `off_t` and `ngx_uint_t` on 64-bit platforms.
use mathlib.Core.Bool.{Bool}
use Prim.Native.Nat.{ℕ, ◌+◌, ◌%◌, ◌^◌}
use ngx_brotli.Base.Tests.{ltb}

abbrev pub u64 : ℕ → ℕ
u64 n = n % 2 ^ 64

-- `(off_t)a < (off_t)b`: the words as signed numbers, in the order of the words with the sign bit
-- flipped.
abbrev pub off_t_less : ℕ → ℕ → Bool
off_t_less a b = ltb (u64 (a + 2 ^ 63)) (u64 (b + 2 ^ 63))
