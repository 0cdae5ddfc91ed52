-- ===== src/Ratio/Round.antt =====
-- The printed value of `$brotli_ratio`.
use native.Mathlib.Nat.{div-one, div-mul-le_self, mul-le-mul_left}
use ngx_brotli.Base.{ℕ, ◌+◌, ◌*◌, ◌/◌, ◌%◌, ◌^◌, ◌≤◌, ◌<◌, ◌≡◌, ap, ◌∙◌, arith, dec_lt}
use ngx_brotli.Ratio.Exact.{ratio_parts_exact}
use ngx_brotli.Ratio.{ratio_parts, round_parts}

round_parts_lem :
    (m : ℕ)
    → m / 1000 + 1 < 2 ^ 64
    → round_parts (m / 1000, m % 1000) ≡ ((m + 5) / 10 / 100, (m + 5) / 10 % 100)
unfolding round_parts
round_parts_lem m h = ground arith

round_parts_whole :
    (m : ℕ)
    → m % 1000 ≡ 0
    → round_parts (m / 1000, m % 1000) ≡ ((m + 5) / 10 / 100, (m + 5) / 10 % 100)
unfolding round_parts
round_parts_whole m h = ground arith

-- For every pair of uint64_t counters with a nonzero divisor the two numbers that $brotli_ratio
-- prints are bytes_in / bytes_out in hundredths, rounded half up on the exact third decimal.
pub round_parts-ratio_parts :
    (bytes_in bytes_out : ℕ)
    → bytes_in < 2 ^ 64
    → 0 < bytes_out
    → bytes_out < 2 ^ 64
    → let hundredths = (bytes_in * 1000 / bytes_out + 5) / 10 in
      round_parts (ratio_parts bytes_in bytes_out) ≡ (hundredths / 100, hundredths % 100)
round_parts-ratio_parts n out hn pos h =
    ap round_parts (ratio_parts_exact n out hn pos h) ∙ elim (dec_lt 1 out) [
      | yes big ↦ round_parts_lem (n * 1000 / out) (
          let q = n * 1000 / out in
          let twice : q * 2 ≤ q * out = mul-le-mul_left q big in
          omega (arith, div-mul-le_self (n * 1000) out, twice))
      | no one ↦
          round_parts_whole (n * 1000 / out)
            (let e : out ≡ 1 = omega arith in rw (e, div-one) (omega arith))
    ]
