-- ===== src/Request/Tests.antt =====
-- The theorem on the acceptance test at a concrete request.
use ngx_brotli.Base.{◌⊎◌, ℕ, ◌≡◌, true, false, Option, none, some, codes, [], ◌∷◌}
use ngx_brotli.AcceptEncoding.ParamsEnd.{IsMilli}
use ngx_brotli.AcceptEncoding.Walk.{request_coding_weight}
use ngx_brotli.Request.Accepts.{Acceptable, brotli_ok_total}
use ngx_brotli.Request.{Request, get, brotli_ok, new_header}

-- A main GET request for a page, whose response carries one Vary line.
abbrev pub page : Request
page = record {
  is_main = true;
  method = get;
  uri = codes "/page.html";
  ssl = true;
  accept_encoding = codes "gzip, br;q=0.5" ∷ [];
  headers_in = [];
  headers_out = new_header (codes "Vary") (codes "Cookie , Origin") ∷ [];
  status = 200;
  header_only = false;
  content_encoding = none;
  content_length_n = some 4096;
  gzip_tested = false;
  gzip_ok = false;
  gzip_vary = false;
  need_in_memory = false;
  allow_ranges = true;
  error_page = false;
  root_tested = false;
  last_modified_time = 0;
  pool = true ∷ true ∷ true ∷ true ∷ [];
}

brotli_ok_total_example :
    (q : Option ℕ) × (request_coding_weight (codes "br") true page.accept_encoding ≡ some q)
    × IsMilli q
    × ((Acceptable page q
          × (brotli_ok page ≡ some (true, record page { gzip_tested = true; gzip_ok = false })))
        ⊎ ((¬ (Acceptable page q)) × (brotli_ok page ≡ some (false, page))))
brotli_ok_total_example = brotli_ok_total page
