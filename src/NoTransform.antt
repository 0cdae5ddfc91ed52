-- ===== src/NoTransform.antt =====
-- filter/ngx_http_brotli_filter_module.c: the test for Cache-Control: no-transform,
-- `ngx_http_brotli_cc_value_no_transform` and `ngx_http_brotli_no_transform`.
pub mod Segments
pub mod Directives
mod Tests
use ngx_brotli.AcceptEncoding.Scan.{is_ows, same_name, skip_to}
use ngx_brotli.AcceptEncoding.Walk.{is_comma}
use ngx_brotli.Base.{
  ℕ, zero, suc, ◌-◌, Bool, true, false, not, ◌&&◌, ◌||◌, Bytes, List, [], ◌∷◌, Option, none, some,
  ◌==◌, length, take, if◌then◌else◌, drop_while, take_while, codes, ◌>>=◌,
}
use ngx_brotli.Request.{Header}
use ngx_brotli.Vary.{trim_end, past_comma}

abbrev pub no_transform_name : Bytes
no_transform_name = codes "no-transform"

abbrev pub cache_control_name : Bytes
cache_control_name = codes "Cache-Control"

-- `*cut != ';' && *cut != '='`.
abbrev pub in_directive_name : ℕ → Bool
in_directive_name c = not (c == b';' || c == b'=')

-- The directive between `start` and `seg_end`, cut at its argument and trimmed.
abbrev pub is_no_transform : Bytes → Bool
is_no_transform segment =
    same_name (trim_end (take_while in_directive_name segment)) no_transform_name

-- `while (p < last)`, on fuel.
unfoldable pub cc_fuel : ℕ → Bytes → Option Bool
unfolding trim_end skip_to same_name
cc_fuel zero p = none
cc_fuel (suc n) [] = some false
cc_fuel (suc n) (c ∷ cs) =
    let start = drop_while is_ows (c ∷ cs) in
    skip_to is_comma start >>= λ seg_end.
    let rest = cc_fuel n (past_comma seg_end) in
    if is_no_transform (take (length start - length seg_end) start) then some true else rest

unfoldable pub cc_value_no_transform : Bytes → Option Bool
unfolding cc_fuel
cc_value_no_transform value = cc_fuel (suc (length value)) value

abbrev pub is_nil : Bytes → Bool
is_nil [] = true
is_nil (c ∷ cs) = false

-- `ngx_http_brotli_no_transform`, over the lines of headers_out.
unfoldable pub no_transform : List Header → Option Bool
unfolding cc_value_no_transform same_name
no_transform [] = some false
no_transform (h ∷ hs) =
    let rest = no_transform hs in
    if h.hash == 0 || is_nil h.value
    then rest
    else if same_name h.key cache_control_name
    then (cc_value_no_transform h.value >>= λ found. if found then some true else rest)
    else rest
