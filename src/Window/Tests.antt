-- ===== src/Window/Tests.antt =====
-- The windows at concrete sizes.
use ngx_brotli.Base.{◌^◌, ◌≤◌, ◌≡◌, refl, none, some, arith, ◌↔◌}
use ngx_brotli.Window.Bits.{parse_wbits_iff}
use ngx_brotli.Window.Tuned.{Fits, window_bits-Fits}
use ngx_brotli.Window.{parse_wbits, window_bits}

runs :
    (parse_wbits 524288 ≡ some 19)
    × (parse_wbits 524289 ≡ none)
    × (parse_wbits 512 ≡ none)
    × (window_bits 19 (some 4097) ≡ 13)
    × (window_bits 19 none ≡ 19)
    × (window_bits 19 (some 100000000) ≡ 19)
unfolding parse_wbits window_bits
runs = (refl, refl, refl, refl, refl, refl)

parse_wbits_iff_example : (parse_wbits 65536 ≡ some 16) ↔ ((10 ≤ 16) × (16 ≤ 24) × (65536 ≡ 2 ^ 16))
parse_wbits_iff_example = parse_wbits_iff 65536 16

window_bits-Fits_example : Fits 19 5000 10 (window_bits 19 (some 5000))
window_bits-Fits_example = window_bits-Fits 19 5000 (omega arith) (omega arith)
