-- ===== src/Request.antt =====
-- The parts of nginx's request that the modules read and write, and the acceptance predicates of
-- ngx_http_brotli_common.h over it.
pub mod Accepts
pub mod Tests
use ngx_brotli.Base.{
  ℕ, Bool, true, false, not, Bytes, List, [], ◌∷◌, ◌++◌, Option, none, some, if◌then◌else◌, codes,
  ◌>>=◌,
}
use ngx_brotli.AcceptEncoding.Walk.{request_coding_weight, is_positive}

-- `ngx_table_elt_t`.
pub record Header : Type 0 where
  pub hash : ℕ
  pub key : Bytes
  pub value : Bytes

pub data Method : Type 0 where
  get head other : Method

-- `accept_encoding` holds the values of the chained field lines; a pointer that may be NULL is an
-- Option, and a length of -1 is `none`. `pool` says of each later allocation whether it succeeds.
pub record Request : Type 0 where
  pub is_main : Bool
  pub method : Method
  pub uri : Bytes
  pub ssl : Bool
  pub accept_encoding : List Bytes
  pub headers_in : List Header
  pub headers_out : List Header
  pub status : ℕ
  pub header_only : Bool
  pub content_encoding : Option Bytes
  pub content_length_n : Option ℕ
  pub gzip_tested : Bool
  pub gzip_ok : Bool
  pub gzip_vary : Bool
  pub need_in_memory : Bool
  pub allow_ranges : Bool
  pub error_page : Bool
  pub root_tested : Bool
  pub last_modified_time : ℕ
  pub pool : List Bool

-- An allocation from the request's pool: whether it succeeds.
abbrev pub allocate : Request → Bool × Request
allocate r = elim r.pool [ [] ↦ (false, r) | answer ∷ pool ↦ (answer, record r { pool = pool }) ]

-- `ngx_list_push(&r->headers_out.headers)` and the fields set behind it; false is NULL.
abbrev pub push_header : Header → Request → Bool × Request
push_header h r = elim r.pool [
  | [] ↦ (false, r)
  | answer ∷ pool ↦
      if answer
      then (true, record r { headers_out = r.headers_out ++ h ∷ []; pool = pool })
      else (false, record r { pool = pool })
]

abbrev pub new_header : Bytes → Bytes → Header
new_header key value = record { hash = 1; key = key; value = value }

-- `ngx_http_brotli_accepts`; the outer `none` is the end of the walker's fuel.
unfoldable pub accepts : Request → Option Bool
unfolding request_coding_weight
accepts r =
    if not r.is_main
    then some false
    else (do q ← request_coding_weight (codes "br") true r.accept_encoding; some (is_positive q))

-- The latch that keeps gzip from compressing a response that this module encodes.
abbrev pub latch_gzip_off : Request → Request
latch_gzip_off r = record r { gzip_tested = true; gzip_ok = false }

-- `ngx_http_brotli_ok`.
unfoldable pub brotli_ok : Request → Option (Bool × Request)
unfolding accepts
brotli_ok r = do
  accepted ← accepts r
  some (if accepted then (true, latch_gzip_off r) else (false, r))
