-- ===== src/Static/Sends.antt =====
-- What `serve` hands to nginx: the prepared request, and the body behind its header.
use mathlib.Core.Bool.{}
use ngx_brotli.Base.{
  ℕ, zero, suc, ◌≡◌, ◌≢◌, Bool, true, false, not, ◌||◌, Bytes, List, [], ◌∷◌, ◌++◌, some, codes,
  ◌⊎◌, ltb,
}
use ngx_brotli.Request.{head, Header, Request}
use ngx_brotli.Static.{Code, ok, error, again, declined, status, FileInfo, Server}

-- A call of nginx that succeeds has changed the response headers at most, behind those there were.
abbrev pub Extends : Request → Request → Type 0
Extends r r' = (hs : List Header) × (r' ≡ record r { headers_out = r.headers_out ++ hs })

-- What the handler relies on of nginx.
pub record Keeps (server : Server) : Type 0 where
  pub discards : (r r' : Request) → server.discard_request_body r ≡ (ok, r') → Extends r r'
  pub tags : (r r' : Request) → server.set_etag r ≡ (true, r') → Extends r r'
  pub types : (r r' : Request) → server.set_content_type r ≡ (true, r') → Extends r r'

-- One of the next `n` allocations fails.
abbrev pub Short : ℕ → List Bool → Type 0
Short zero pool = ⊥
Short (suc n) [] = Unit
Short (suc n) (false ∷ pool) = Unit
Short (suc n) (true ∷ pool) = Short n pool

abbrev pub NotOk : Code → Type 0
NotOk ok = ⊥
NotOk error = Unit
NotOk again = Unit
NotOk declined = Unit
NotOk (status n) = Unit

-- A code of `ngx_http_send_header` behind which no body goes out.
abbrev pub Stops : Code → Type 0
Stops ok = ⊥
Stops error = Unit
Stops again = ⊥
Stops declined = ⊥
Stops (status n) = Unit

module _ (path : Bytes) (file : FileInfo) where
  -- The request as the response's header finds it.
  abbrev pub prepared : Request → List Header → List Bool → Request
  prepared r hs pool = record r {
    root_tested = not r.error_page;
    status = 200;
    content_length_n = some file.size;
    last_modified_time = file.mtime;
    headers_out =
        (r.headers_out ++ hs)
        ++ record { hash = 1; key = codes "Content-Encoding"; value = codes "br" } ∷ [];
    content_encoding = some (codes "br");
    allow_ranges = true;
    pool = pool;
  }

  module _ (server : Server) where
    -- Behind the response's header: the code, or what the filters make of the whole file.
    abbrev pub Follows : Code × Request → Code × Request → Type 0
    Follows (code, q) x =
        ((Stops code ⊎ (q.header_only ≡ true)) × (x ≡ (code, q)))
        ⊎ ((¬ (Stops code ⊎ (q.header_only ≡ true)))
            × (x
                ≡ server.output_filter
                    (record {
                      name = path;
                      file_last = file.size;
                      in_file = ltb 0 file.size;
                      last_buf = q.is_main;
                      sync = not (q.is_main || ltb 0 file.size);
                    })
                    q))

    -- The header alone for HEAD, and the header with what follows otherwise.
    abbrev pub Sends : Request → Code × Request → Type 0
    Sends q x =
        ((q.method ≡ head) × (x ≡ server.send_header q))
        ⊎ ((q.method ≢ head) × Follows (server.send_header q) x)

    -- How the serving of a request ends: with the code of the request's body, with 500 because a call
    -- or an allocation failed, or with the response.
    pub data Outcome (r : Request) (x : Code × Request) : Type 0 where
      refuses : (q : Request) → server.discard_request_body q ≡ x → NotOk x.0 → Outcome r x
      untagged : (q : Request) → server.set_etag q ≡ (false, x.1) → x.0 ≡ status 500 → Outcome r x
      untyped :
          (q : Request) → server.set_content_type q ≡ (false, x.1) → x.0 ≡ status 500 → Outcome r x
      no_room : Short 3 r.pool → x.0 ≡ status 500 → Outcome r x
      sent : (hs : List Header) (pool : List Bool) → Sends (prepared r hs pool) x → Outcome r x
