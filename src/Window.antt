-- ===== src/Window.antt =====
-- filter/ngx_http_brotli_filter_module.c: the window of the encoder, as it is configured and as it
-- is chosen for a response of known length. Brotli's windows have 10 to 24 bits, the 1k to 16m of
-- the message.
pub mod Bits
pub mod Tuned
mod Tests
use ngx_brotli.Base.{
  ℕ, zero, suc, ◌+◌, ◌-◌, ◌^◌, Bool, true, false, ◌&&◌, Option, none, some, ◌==◌, ltb,
  if◌then◌else◌,
}

abbrev pub min_window_bits : ℕ
min_window_bits = 10

abbrev pub max_window_bits : ℕ
max_window_bits = 24

-- The loop of `ngx_http_brotli_parse_wbits` from `bits` on, with `left` rounds to go.
unfoldable pub find_bits : ℕ → ℕ → ℕ → Option ℕ
find_bits zero bits parameter = none
find_bits (suc left) bits parameter =
    let rest = find_bits left (bits + 1) parameter in
    if parameter == 2 ^ bits then some bits else rest

-- `ngx_http_brotli_parse_wbits`; `none` is the message.
unfoldable pub parse_wbits : ℕ → Option ℕ
unfolding find_bits
parse_wbits parameter = find_bits (max_window_bits + 1 - min_window_bits) min_window_bits parameter

-- `while ((wbits < conf->lg_win) && (ctx->content_length > (1 << wbits)))`, on fuel.
unfoldable pub widen : ℕ → ℕ → ℕ → ℕ → ℕ
widen zero lg_win content_length wbits = wbits
widen (suc n) lg_win content_length wbits =
    let rest = widen n lg_win content_length (wbits + 1) in
    if ltb wbits lg_win && ltb (2 ^ wbits) content_length then rest else wbits

-- The window for a response; a length of -1 is `none`.
unfoldable pub window_bits : ℕ → Option ℕ → ℕ
unfolding widen
window_bits lg_win none = lg_win
window_bits lg_win (some content_length) =
    if ltb 0 content_length
    then widen (lg_win - min_window_bits) lg_win content_length min_window_bits
    else lg_win
