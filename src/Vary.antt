-- ===== src/Vary.antt =====
-- ngx_http_brotli_common.h: `ngx_http_brotli_vary_accept_encoding`.
pub mod Tokens
pub mod Emits
mod Tests
use ngx_brotli.Base.{
  ℕ, zero, suc, Bool, true, false, not, ◌&&◌, Bytes, List, [], ◌∷◌, Option, none, some, ◌==◌,
  length, if◌then◌else◌, drop_while, take_while, codes, ◌>>=◌,
}
use ngx_brotli.AcceptEncoding.Scan.{is_ows, same_name}
use ngx_brotli.Request.{Header, Request, push_header, new_header}

-- The loop that moves `tend` back over blanks.
unfoldable pub trim_end : Bytes → Bytes
trim_end [] = []
trim_end (c ∷ cs) =
    let rest = trim_end cs in
    elim rest [ [] ↦ (if is_ows c then [] else c ∷ []) | d ∷ ds ↦ c ∷ d ∷ ds ]

abbrev pub not_comma : ℕ → Bool
not_comma c = not (c == b',')

abbrev pub past_comma : Bytes → Bytes
past_comma [] = []
past_comma (c ∷ cs) = cs

-- Is `name` among the comma-separated tokens? On fuel.
unfoldable pub token_fuel : ℕ → Bytes → Bytes → Option Bool
unfolding trim_end
token_fuel zero name p = none
token_fuel (suc n) name p = elim (drop_while is_ows p) [
  | [] ↦ some false
  | c ∷ cs ↦
      let rest = token_fuel n name (past_comma (drop_while not_comma (c ∷ cs))) in
      if same_name (trim_end (take_while not_comma (c ∷ cs))) name then some true else rest
]

unfoldable pub has_token : Bytes → Bytes → Option Bool
unfolding token_fuel
has_token name value = token_fuel (suc (length value)) name value

abbrev pub vary_name : Bytes
vary_name = codes "Vary"

abbrev pub accept_encoding_name : Bytes
accept_encoding_name = codes "Accept-Encoding"

-- A live header line called Vary.
abbrev pub is_vary : Header → Bool
is_vary h = not (h.hash == 0) && same_name h.key vary_name

-- The walk over headers_out: does some Vary line name Accept-Encoding?
unfoldable pub varies : List Header → Option Bool
unfolding has_token same_name
varies [] = some false
varies (h ∷ hs) =
    let rest = varies hs in
    if is_vary h
    then (has_token accept_encoding_name h.value >>= λ found. if found then some true else rest)
    else rest

-- `core_gzip_vary` is `clcf != NULL && clcf->gzip_vary`; false is NGX_ERROR.
unfoldable pub vary_accept_encoding : Bool → Request → Option (Bool × Request)
unfolding varies
vary_accept_encoding core_gzip_vary r =
    let r' = record r { gzip_vary = true } in
    if core_gzip_vary then some (true, r') else (do
      found ← varies r'.headers_out
      some (
          if found then (true, r') else push_header (new_header vary_name accept_encoding_name) r'))
