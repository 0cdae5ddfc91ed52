-- ===== src/Ratio.antt =====
-- filter/ngx_http_brotli_filter_module.c: `$brotli_ratio`, the exact long division of the two
-- uint64_t counters and its rounding to two decimals.
pub mod Digits
pub mod Exact
pub mod Round
pub mod Variable
pub mod Reported
mod Tests
use ngx_brotli.Base.{
  u64, ℕ, zero, suc, ◌+◌, ◌-◌, ◌*◌, ◌/◌, ◌%◌, ◌^◌, Bool, true, false, ◌||◌, ltb, leb, if◌then◌else◌,
  Option, none, some,
}

-- One round of the peeling loop, over `acc` and `digit`.
unfoldable pub peel_step : ℕ → ℕ → ℕ × ℕ → ℕ × ℕ
peel_step bytes_out remainder (acc, digit) =
    let acc' = u64 (acc + remainder) in
    if leb bytes_out acc' || ltb acc' remainder
    then (u64 (acc' + 2 ^ 64 - bytes_out), u64 (digit + 1))
    else (acc', digit)

unfoldable pub peel : ℕ → ℕ → ℕ → ℕ × ℕ → ℕ × ℕ
unfolding peel_step
peel bytes_out remainder zero s = s
peel bytes_out remainder (suc left) s =
    peel bytes_out remainder left (peel_step bytes_out remainder s)

-- One round of the digit loop, over `remainder` and `frac`.
unfoldable pub digit_step : ℕ → ℕ × ℕ → ℕ × ℕ
unfolding peel
digit_step bytes_out (remainder, frac) =
    if leb remainder ((2 ^ 64 - 1) / 10)
    then (let scaled = u64 (remainder * 10) in
        (scaled % bytes_out, u64 (frac * 10 + scaled / bytes_out)))
    else (let (acc, digit) = peel bytes_out remainder 9 (remainder, 0) in
        (acc, u64 (frac * 10 + digit)))

-- `ratio_int` and `ratio_frac`.
unfoldable pub ratio_parts : ℕ → ℕ → ℕ × ℕ
unfolding digit_step
ratio_parts bytes_in bytes_out = (
  bytes_in / bytes_out,
  (digit_step bytes_out (digit_step bytes_out (digit_step bytes_out (bytes_in % bytes_out, 0)))).1,
)

-- The rounding of the third digit in `ngx_http_brotli_ratio_variable`.
unfoldable pub round_parts : ℕ × ℕ → ℕ × ℕ
round_parts (ratio_int, ratio_frac) =
    if ltb 4 (ratio_frac % 10)
    then (let up = ratio_frac / 10 + 1 in
        if ltb 99 up then (u64 (ratio_int + 1), 0) else (ratio_int, up))
    else (ratio_int, ratio_frac / 10)
