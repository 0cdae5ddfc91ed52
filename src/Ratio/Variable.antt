-- ===== src/Ratio/Variable.antt =====
-- `ngx_http_brotli_ratio_variable` and `ngx_http_brotli_dcb_dicts_hashed_variable`.
use ngx_brotli.Base.{ℕ, Bool, true, false, not, Bytes, Option, none, some, ◌==◌, if◌then◌else◌}
use ngx_brotli.Body.Stream.{Stream}
use ngx_brotli.Loading.Load.{Main}
use ngx_brotli.Ratio.{ratio_parts, round_parts}

-- What a variable's handler leads to: NGX_ERROR, a division by zero, `not_found`, or its text.
pub data Variable : Type 0 where
  no_memory divides_by_zero not_found : Variable
  found : Bytes → Variable

abbrev pub print_ratio : (ℕ → ℕ → Bytes) → ℕ × ℕ → Variable
print_ratio sprintf (ratio_int, ratio_frac) = found (sprintf ratio_int ratio_frac)

-- Behind the test of the context: `success`, whether there is room for the text, and the counters.
unfoldable pub ratio_of : (ℕ → ℕ → Bytes) → Bool → Bool → ℕ → ℕ → Variable
unfolding ratio_parts round_parts
ratio_of sprintf success allocated bytes_in bytes_out =
    if not success
    then not_found
    else if not allocated
    then no_memory
    else if bytes_out == 0
    then divides_by_zero
    else print_ratio sprintf (round_parts (ratio_parts bytes_in bytes_out))

-- `sprintf` is `ngx_sprintf` with the format "%ui.%02ui".
unfoldable pub ratio_variable :
    {E N : Type 0} → (ℕ → ℕ → Bytes) → Bool → Option (Stream E N) → Variable
unfolding ratio_of
ratio_variable sprintf allocated none = not_found
ratio_variable sprintf allocated (some s) =
    ratio_of sprintf s.success allocated s.bytes_in s.bytes_out

-- `sprintf` is `ngx_sprintf` with the format "%ui".
abbrev pub dcb_dicts_hashed_variable : (ℕ → Bytes) → Bool → Main → Variable
dcb_dicts_hashed_variable sprintf false m = no_memory
dcb_dicts_hashed_variable sprintf true m = found (sprintf m.dcb_dicts_hashed)
