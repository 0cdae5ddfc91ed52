-- ===== src/Ratio/Tests.antt =====
-- The theorems on the ratio at concrete counters.
use ngx_brotli.Base.{◌-◌, ◌^◌, ◌≡◌, refl, arith}
use ngx_brotli.Ratio.Exact.{ratio_parts_exact}
use ngx_brotli.Ratio.Round.{round_parts-ratio_parts}
use ngx_brotli.Ratio.{ratio_parts, round_parts}

huge : ratio_parts (2 ^ 64 - 2) (2 ^ 64 - 1) ≡ (0, 999)
unfolding ratio_parts
huge = refl

ratio_parts_exact_example : ratio_parts 17 8 ≡ (2, 125)
ratio_parts_exact_example = ratio_parts_exact 17 8 (omega arith) (omega arith) (omega arith)

round_parts-ratio_parts_example : round_parts (ratio_parts 17 8) ≡ (2, 13)
round_parts-ratio_parts_example =
    round_parts-ratio_parts 17 8 (omega arith) (omega arith) (omega arith)
