-- ===== src/Ratio/Exact.antt =====
-- The three digits against the exact quotient.
use mathlib.Core.Path.{ap₂}
use native.Mathlib.Nat.{mod-lt, div-add-mod'}
use ngx_brotli.Base.{ℕ, ◌+◌, ◌*◌, ◌/◌, ◌%◌, ◌^◌, ◌<◌, ◌≡◌, arith}
use ngx_brotli.Ratio.Digits.{Splits-div-mod, digit-lt, digit_step_lem}
use ngx_brotli.Ratio.{ratio_parts}

three_digits :
    (n out : ℕ)
    → 0 < out
    → let r = n % out in
      let d1 = r * 10 / out in
      let r1 = r * 10 % out in
      let d2 = r1 * 10 / out in
      let r2 = r1 * 10 % out in
      let d3 = r2 * 10 / out in n * 1000 / out ≡ n / out * 1000 + (d1 * 100 + d2 * 10 + d3)
three_digits n out h =
    let r = n % out in
    let r1 = r * 10 % out in
    let r2 = r1 * 10 % out in
    let r3 = r2 * 10 % out in
    (Splits-div-mod out (n * 1000)
      (r3, n / out * 1000 + (r * 10 / out * 100 + r1 * 10 / out * 10 + r2 * 10 / out))
      (
        mod-lt (r2 * 10) h,
        omega (
          arith,
          div-add-mod' n out,
          div-add-mod' (r * 10) out,
          div-add-mod' (r1 * 10) out,
          div-add-mod' (r2 * 10) out,
        ),
      )).0

-- For every pair of uint64_t counters with a nonzero divisor the integer part and the three
-- fractional digits are exactly those of bytes_in * 1000 / bytes_out, computed without overflow.
pub ratio_parts_exact :
    (bytes_in bytes_out : ℕ)
    → bytes_in < 2 ^ 64
    → 0 < bytes_out
    → bytes_out < 2 ^ 64
    → ratio_parts bytes_in bytes_out
      ≡ (bytes_in * 1000 / bytes_out / 1000, bytes_in * 1000 / bytes_out % 1000)
unfolding ratio_parts
ratio_parts_exact n out hn pos h =
    let r = n % out in
    let below = mod-lt n pos in
    let r1 = r * 10 % out in
    let below1 = mod-lt (r * 10) pos in
    let r2 = r1 * 10 % out in
    let below2 = mod-lt (r1 * 10) pos in
    let d1 = digit-lt out r below in
    let d2 = digit-lt out r1 below1 in
    let d3 = digit-lt out r2 below2 in
    rw
      (
        digit_step_lem out r 0 h below (omega arith),
        digit_step_lem out r1 (0 * 10 + r * 10 / out) h below1 (omega arith),
        digit_step_lem out r2 ((0 * 10 + r * 10 / out) * 10 + r1 * 10 / out) h below2 (omega arith),
      )
      (ap₂ (λ (a b : ℕ). (a, b)) (omega (arith, three_digits n out pos))
        (omega (arith, three_digits n out pos)))
