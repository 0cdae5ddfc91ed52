-- ===== src/Vary/Tests.antt =====
-- The theorems on Vary at a concrete response.
use ngx_brotli.Base.{
  ◌≡◌, refl, true, false, ◌||◌, some, if◌then◌else◌, codes, [], ◌∷◌, ◌++◌, drop_while, take_while,
  arith,
}
use ngx_brotli.AcceptEncoding.Scan.{same_name}
use ngx_brotli.Request.Tests.{page}
use ngx_brotli.Request.{Request, push_header}
use ngx_brotli.Vary.Emits.{some_line, vary_line, asks_vary, vary_accept_encoding-some_line}
use ngx_brotli.Vary.Tokens.{any, trim, pieces, has_token-pieces}
use ngx_brotli.Vary.{has_token, vary_accept_encoding, accept_encoding_name}

found : has_token accept_encoding_name (codes "Cookie,, accept-ENCODING\t,") ≡ some true
unfolding has_token same_name drop_while take_while
found = refl

has_token-pieces_example :
    has_token (codes "Origin") (codes "Cookie , Origin")
    ≡ some (any (λ p. same_name (trim p) (codes "Origin")) (pieces (codes "Cookie , Origin")))
has_token-pieces_example = has_token-pieces (codes "Origin") (omega arith) (codes "Cookie , Origin")

vary_accept_encoding-some_line_example :
    vary_accept_encoding false page
    ≡ some (
        if false || some_line page.headers_out
        then (true, asks_vary page)
        else push_header vary_line (asks_vary page))
vary_accept_encoding-some_line_example = vary_accept_encoding-some_line false page

abbrev page_with_vary : Request
page_with_vary = record page {
  gzip_vary = true;
  headers_out = page.headers_out ++ vary_line ∷ [];
  pool = true ∷ true ∷ true ∷ [];
}
