-- ===== src/HeaderFilter.antt =====
-- filter/ngx_http_brotli_filter_module.c: `ngx_http_brotli_header_filter`.
pub mod Route
pub mod Coding
pub mod Gates
pub mod Varies
pub mod Tests
use ngx_brotli.Base.{
  ℕ, Bool, true, false, not, ◌&&◌, ◌||◌, Bytes, List, [], ◌∷◌, Option, none, some, ◌==◌, ltb,
  if◌then◌else◌, codes, ◌>>=◌,
}
use ngx_brotli.Dcb.{Dict, Conf, dcb_negotiate, no_dicts}
use ngx_brotli.NoTransform.{no_transform, is_nil}
use ngx_brotli.Request.{Request, allocate, push_header, new_header, latch_gzip_off, brotli_ok}
use ngx_brotli.Vary.{vary_accept_encoding, vary_name}

-- What the filter calls of nginx: the tests for the MIME type and the predicates, the three calls
-- that adjust the header of a compressed response, the decoding of base64, and core's `gzip_vary`.
pub record Nginx : Type 0 where
  pub test_content_type : Request → List Bytes → Bool
  pub test_predicates : Request → List Bytes → Bool
  pub clear_content_length : Request → Request
  pub clear_accept_ranges : Request → Request
  pub weak_etag : Request → Request
  pub decode_base64 : Bytes → Option Bytes
  pub gzip_vary : Bool

-- The fields of `ngx_http_brotli_ctx_t` that the header filter sets.
pub record Context : Type 0 where
  pub content_length : Option ℕ
  pub dcb_dict : Option Dict

-- NGX_ERROR; the next filter with no context; the next filter with a context.
pub data Outcome : Type 0 where
  fails passes : Request → Outcome
  compresses : Context → Request → Outcome

abbrev pub is_coded_status : ℕ → Bool
is_coded_status s = s == 200 || s == 403 || s == 404 || s == 410

abbrev pub has_coding : Option Bytes → Bool
has_coding none = false
has_coding (some v) = not (is_nil v)

abbrev pub too_short : Option ℕ → ℕ → Bool
too_short none min_length = false
too_short (some n) min_length = ltb n min_length

abbrev pub too_long : Option ℕ → Option ℕ → Bool
too_long none max_length = false
too_long (some n) none = false
too_long (some n) (some max_length) = ltb max_length n

module _ (nginx : Nginx) (conf : Conf) where
  -- The early returns up to the MIME type.
  abbrev pub ineligible : Request → Bool
  ineligible r =
      not conf.enable
      || (not (is_coded_status r.status)
          || (r.header_only
              || (has_coding r.content_encoding
                  || (too_short r.content_length_n conf.min_length
                      || (too_long r.content_length_n conf.max_length
                          || not (nginx.test_content_type r conf.types))))))

  abbrev pub bypassed : Request → Option (List Bytes) → Bool
  bypassed r none = false
  bypassed r (some predicates) = not (nginx.test_predicates r predicates)

  abbrev pub push_bypass_vary : Request → Bool × Request
  push_bypass_vary r =
      if is_nil conf.bypass_vary
      then (true, r)
      else push_header (new_header vary_name conf.bypass_vary) r

  abbrev pub combined_vary : Bytes
  combined_vary = codes "Accept-Encoding, Available-Dictionary, Sec-Fetch-Site"

  -- One Vary line for the negotiation.
  abbrev pub push_vary : Request → Option (Bool × Request)
  push_vary r =
      if no_dicts conf.dcb_dicts
      then vary_accept_encoding nginx.gzip_vary r
      else some (push_header (new_header vary_name combined_vary) r)

  -- The coding, with gzip latched off where one is chosen.
  abbrev pub chosen : Request → Option Dict → Option (Bool × Request)
  chosen r none = brotli_ok r
  chosen r (some d) = some (true, latch_gzip_off r)

  abbrev pub coding_name : Option Dict → Bytes
  coding_name none = codes "br"
  coding_name (some d) = codes "dcb"

  abbrev pub adjusted : Bytes → Request → Request
  adjusted coding r = nginx.weak_etag (
      nginx.clear_accept_ranges (
        nginx.clear_content_length
          (record r { content_encoding = some coding; need_in_memory = true })))

  -- The context and the Content-Encoding line.
  abbrev pub set_encoding : Option Dict → Request → Bool × Request → Outcome
  set_encoding dcb r (false, r') = fails r'
  set_encoding dcb r (true, r') =
      compresses (record { content_length = r.content_length_n; dcb_dict = dcb })
        (adjusted (coding_name dcb) r')

  abbrev pub commit : Option Dict → Bool × Request → Outcome
  commit dcb (false, r) = fails r
  commit dcb (true, r) =
      set_encoding dcb r (push_header (new_header (codes "Content-Encoding") (coding_name dcb)) r)

  abbrev pub encode : Option Dict → Bool × Request → Outcome
  encode dcb (false, r) = passes r
  encode dcb (true, r) = commit dcb (allocate r)

  -- Behind the Vary line.
  abbrev pub negotiate : Bool × Request → Option Outcome
  negotiate (false, r) = some (fails r)
  negotiate (true, r) =
      dcb_negotiate nginx.decode_base64 r conf >>= λ dcb. chosen r dcb >>= λ c. some (encode dcb c)

  -- Behind the line of brotli_bypass_vary.
  abbrev pub unless_bypassed : Bool × Request → Option Outcome
  unless_bypassed (false, r) = some (fails r)
  unless_bypassed (true, r) =
      if bypassed r conf.bypass
      then some (passes r)
      else (push_vary r >>= λ pushed. negotiate pushed)

  -- The outer `none` is the end of a loop's fuel.
  unfoldable pub header_filter : Request → Option Outcome
  unfolding no_transform vary_accept_encoding dcb_negotiate brotli_ok
  header_filter r =
      if ineligible r
      then some (passes r)
      else (no_transform r.headers_out >>= λ forbidden.
          if forbidden then some (passes r) else unless_bypassed (push_bypass_vary r))
