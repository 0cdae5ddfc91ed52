-- ===== src/HeaderFilter/Tests.antt =====
-- The header filter on a concrete response, and the theorems on it there.

use ngx_brotli.Base.{
  ◌≡◌, refl, true, false, [], ◌∷◌, ◌++◌, none, some, codes, drop_while, take_while,
}
use ngx_brotli.Dcb.{Conf}
use ngx_brotli.HeaderFilter.Gates.{Compressed, header_filter-Compressed}
use ngx_brotli.HeaderFilter.Varies.{KeepsVary, header_filter-some_line, header_filter_total}
use ngx_brotli.HeaderFilter.{Nginx, Context, Outcome, compresses, header_filter}
use ngx_brotli.Request.Tests.{page}
use ngx_brotli.Request.{Request, new_header}
use ngx_brotli.Vary.Emits.{some_line, vary_line}

-- Every type is listed and no predicate fires.
abbrev pub plain_nginx : Nginx
plain_nginx = record {
  test_content_type = λ r types. true;
  test_predicates = λ r predicates. true;
  clear_content_length = λ r. record r { content_length_n = none };
  clear_accept_ranges = λ r. record r { allow_ranges = false };
  weak_etag = λ r. r;
  decode_base64 = λ b64. none;
  gzip_vary = false;
}

abbrev pub plain_conf : Conf
plain_conf = record {
  enable = true;
  types = codes "text/html" ∷ [];
  min_length = 20;
  max_length = some 100000;
  bypass = none;
  bypass_vary = codes "Cookie";
  dcb_dicts = [];
  dcb_assume_secure = false;
  quality = 6;
  lg_win = 19;
}

abbrev pub page_context : Context
page_context = record { content_length = some 4096; dcb_dict = none }

abbrev pub encoded_page : Request
encoded_page = record page {
  headers_out =
      page.headers_out
      ++ (new_header (codes "Vary") (codes "Cookie")
          ∷ vary_line
          ∷ new_header (codes "Content-Encoding") (codes "br")
          ∷ []);
  content_encoding = some (codes "br");
  content_length_n = none;
  gzip_tested = true;
  gzip_ok = false;
  gzip_vary = true;
  need_in_memory = true;
  allow_ranges = false;
  pool = [];
}

pub page-compresses :
    header_filter plain_nginx plain_conf page ≡ some (compresses page_context encoded_page)
unfolding header_filter drop_while take_while
page-compresses = refl

plain_nginx-KeepsVary : KeepsVary plain_nginx
plain_nginx-KeepsVary = record {
  length_kept = λ r. refl;
  ranges_kept = λ r. refl;
  etag_kept = λ r. refl;
}

header_filter-Compressed_example : Compressed plain_nginx plain_conf page page_context encoded_page
header_filter-Compressed_example =
    header_filter-Compressed plain_nginx plain_conf page page_context encoded_page page-compresses

header_filter-some_line_example : some_line encoded_page.headers_out ≡ true
header_filter-some_line_example =
    header_filter-some_line plain_nginx plain_conf page page_context encoded_page
      plain_nginx-KeepsVary refl page-compresses

header_filter_total_example : (o : Outcome) × (header_filter plain_nginx plain_conf page ≡ some o)
header_filter_total_example = header_filter_total plain_nginx plain_conf page
