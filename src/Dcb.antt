-- ===== src/Dcb.antt =====
-- filter/ngx_http_brotli_filter_module.c: the configuration and the context of the filter, and the
-- negotiation of the dcb coding (RFC 9842).
pub mod Granted
mod Tests
use ngx_brotli.AcceptEncoding.Scan.{same_name}
use ngx_brotli.AcceptEncoding.Walk.{request_coding_weight, is_positive}
use ngx_brotli.Base.{
  ℕ, zero, suc, ◌-◌, Bool, true, false, not, ◌&&◌, ◌||◌, Bytes, List, [], ◌∷◌, ◌++◌, Option, none,
  some, ◌==◌, ltb, length, take, drop, if◌then◌else◌, codes, ◌>>=◌,
}
use ngx_brotli.Request.{Header, Request}

-- `ngx_http_brotli_dcb_dict_t`.
pub record Dict : Type 0 where
  pub file : Bytes
  pub bytes : Bytes
  pub hash : Bytes

-- `ngx_http_brotli_conf_t`. `max_length` is `none` where it is unset, and a NULL array of
-- dictionaries is an empty one: the code treats both alike.
pub record Conf : Type 0 where
  pub enable : Bool
  pub types : List Bytes
  pub min_length : ℕ
  pub max_length : Option ℕ
  pub bypass : Option (List Bytes)
  pub bypass_vary : Bytes
  pub dcb_dicts : List Dict
  pub dcb_assume_secure : Bool
  pub quality : ℕ
  pub lg_win : ℕ

-- `ngx_http_brotli_find_request_header`.
unfoldable pub find_request_header : Bytes → List Header → Option Header
unfolding same_name
find_request_header name [] = none
find_request_header name (h ∷ hs) =
    let rest = find_request_header name hs in if same_name h.key name then some h else rest

abbrev pub last_byte : ℕ → Bytes → ℕ
last_byte c [] = c
last_byte c (d ∷ ds) = last_byte d ds

-- `data[0]` and `data[len - 1]` are colons.
abbrev pub between_colons : Bytes → Bool
between_colons [] = false
between_colons (c ∷ cs) = c == b':' && last_byte c cs == b':'

-- The bytes between the colons of an RFC 8941 byte sequence of at most 44 characters.
unfoldable pub byte_sequence : Bytes → Option Bytes
byte_sequence value =
    if ltb (length value) 2 || (not (between_colons value) || ltb 44 (length value - 2))
    then none
    else some (take (length value - 2) (drop 1 value))

-- Sec-Fetch-Site is absent, same-origin or none.
unfoldable pub same_site : Option Header → Bool
unfolding same_name
same_site none = true
same_site (some h) = same_name h.value (codes "same-origin") || same_name h.value (codes "none")

-- `ngx_memcmp(a, b, 32) == 0` on two hashes of that length.
unfoldable pub same_bytes : Bytes → Bytes → Bool
same_bytes [] [] = true
same_bytes [] (y ∷ ys) = false
same_bytes (x ∷ xs) [] = false
same_bytes (x ∷ xs) (y ∷ ys) = x == y && same_bytes xs ys

unfoldable pub find_dict : Bytes → List Dict → Option Dict
unfolding same_bytes
find_dict hash [] = none
find_dict hash (d ∷ ds) =
    let rest = find_dict hash ds in if same_bytes d.hash hash then some d else rest

abbrev pub no_lines : List Bytes → Bool
no_lines [] = true
no_lines (v ∷ vs) = false

abbrev pub no_dicts : List Dict → Bool
no_dicts [] = true
no_dicts (d ∷ ds) = false

-- `ngx_decode_base64` is nginx's; `none` is its error.
module _ (decode_base64 : Bytes → Option Bytes) where
  -- The decoded hash has 32 bytes, and the site may use it.
  abbrev pub checked_hash : Request → Bytes → Option Bytes
  checked_hash r decoded =
      if not (length decoded == 32)
      then none
      else if not (same_site (find_request_header (codes "sec-fetch-site") r.headers_in))
      then none
      else some decoded

  abbrev pub decoded_hash : Request → Bytes → Option Bytes
  decoded_hash r b64 = decode_base64 b64 >>= λ decoded. checked_hash r decoded

  abbrev pub hash_of_line : Request → Header → Option Bytes
  hash_of_line r h = byte_sequence h.value >>= λ b64. decoded_hash r b64

  -- The gates before the lookup of the weight: the hash that the client holds.
  unfoldable pub offered_hash : Request → Conf → Option Bytes
  unfolding find_request_header byte_sequence same_site
  offered_hash r conf =
      if no_dicts conf.dcb_dicts
      then none
      else if not r.is_main
      then none
      else if not (conf.dcb_assume_secure || r.ssl)
      then none
      else if no_lines r.accept_encoding
      then none
      else (find_request_header (codes "available-dictionary") r.headers_in >>= λ h.
          hash_of_line r h)

-- The weight of dcb, without the wildcard, decides; then the first dictionary of that hash.
abbrev pub weighed_dict : Request → Conf → Option Bytes → Option (Option Dict)
weighed_dict r conf none = some none
weighed_dict r conf (some decoded) =
    request_coding_weight (codes "dcb") false r.accept_encoding >>= λ q.
    some (if is_positive q then find_dict decoded conf.dcb_dicts else none)

-- `ngx_http_brotli_dcb_negotiate`; the outer `none` is the end of the walker's fuel.
unfoldable pub dcb_negotiate : (Bytes → Option Bytes) → Request → Conf → Option (Option Dict)
unfolding offered_hash request_coding_weight find_dict
dcb_negotiate decode_base64 r conf = weighed_dict r conf (offered_hash decode_base64 r conf)

-- The 36 bytes of `ngx_http_brotli_emit_dcb_header`.
abbrev pub dcb_frame_header : Dict → Bytes
dcb_frame_header d = (0xff ∷ 0x44 ∷ 0x43 ∷ 0x42 ∷ []) ++ d.hash
