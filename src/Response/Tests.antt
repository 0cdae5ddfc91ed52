-- ===== src/Response/Tests.antt =====
-- A response from the header filter to its end, with a concrete encoder.
use mathlib.Core.Option.{none-ne-some}
use ngx_brotli.Base.{
  ℕ, ◌+◌, ◌≡◌, refl, true, false, List, [], ◌∷◌, ◌++◌, Option, none, some, length, codes, Bytes,
  drop_while, take_while, inl,
}
use ngx_brotli.Body.Open.{core}
use ngx_brotli.Body.Rounds.{returns, body_filter}
use ngx_brotli.Body.Sessions.{Reached, start, called}
use ngx_brotli.Body.Store.{store_laws}
use ngx_brotli.Body.StoreRuns.{Store, store}
use ngx_brotli.Body.Stream.{Piece, Answer, ok, Downstream, Stream}
use ngx_brotli.HeaderFilter.Tests.{
  plain_nginx, plain_conf, page_context, encoded_page, page-compresses,
}
use ngx_brotli.Request.Tests.{page}
use ngx_brotli.Dcb.{Dict, Conf}
use ngx_brotli.Dcb.Granted.{Offers}
use ngx_brotli.HeaderFilter.{Nginx, Context, compresses, header_filter}
use ngx_brotli.Loading.Load.{Main, create_main_conf, init_main_conf, dcb_dict_file}
use ngx_brotli.Loading.Located.{IsKeyed, unset, added}
use ngx_brotli.Loading.Parse.{Line, start, dict_file}
use ngx_brotli.Loading.Tests.{files, file_name}
use ngx_brotli.Loading.{System, accepted}
use ngx_brotli.Request.{Request, new_header}
use ngx_brotli.Response.Sources.{header_filter-IsKeyed}
use ngx_brotli.Sha256.Compress.{compress}
use ngx_brotli.Sha256.Tests.{abc_digest}
use ngx_brotli.Sha256.{sha256}
use ngx_brotli.Response.{Delivered, header_filter-Delivered}

abbrev writing_next : ℕ → Option Piece → ℕ × Answer × ℕ
writing_next n none = (n, ok, 0)
writing_next n (some p) = (n + 1, ok, length p.content)

abbrev writing : Downstream ℕ
writing = record { next = writing_next; forward = λ n ps. (n, ok) }

abbrev page_stream : Stream Store ℕ
page_stream = record {
  encoder = none;
  content_length = some 4096;
  bytes_in = 0;
  bytes_out = 0;
  input = [];
  out_chain = false;
  out_buf = none;
  initialized = false;
  closed = false;
  success = false;
  output_ready = false;
  output_busy = false;
  end_of_input = false;
  end_of_block = false;
  dcb_header_sent = false;
  dcb_dict = none;
  buffered = false;
  header_only = false;
  pool = true ∷ true ∷ true ∷ [];
  downstream = 0;
  handed = [];
}

abbrev page_link : List Piece
page_link = record { content = codes "page"; last_buf = true; flush = false } ∷ []

abbrev coded_page : Piece
coded_page = record { content = b'p' ∷ b'a' ∷ b'g' ∷ b'e' ∷ 3 ∷ []; last_buf = true; flush = false }

abbrev done_stream : Stream Store ℕ
done_stream = record page_stream {
  bytes_in = 4;
  bytes_out = 5;
  initialized = true;
  closed = true;
  success = true;
  end_of_input = true;
  pool = [];
  downstream = 1;
  handed = coded_page ∷ [];
}

page-sent :
    body_filter store plain_conf writing 9 page_link page_stream ≡ some (returns ok done_stream)
unfolding body_filter
page-sent = refl

done-Reached : Reached store plain_conf none writing page_link done_stream
done-Reached = called (start page_stream refl) refl 9 page_link ok done_stream page-sent

header_filter-Delivered_example :
    Delivered store_laws plain_nginx plain_conf page none page_link (core done_stream)
header_filter-Delivered_example =
    header_filter-Delivered store_laws plain_nginx plain_conf writing page encoded_page page_context
      page-compresses done-Reached refl

-- A system without libcrypto, on which a directive loads a file of the bytes "abc".
abbrev portable_files : System ℕ Bytes
portable_files = record files { evp = λ msg. none }

abbrev abc_dict : Dict
abc_dict = record { file = file_name; bytes = codes "abc"; hash = abc_digest }

abbrev abc_main : Main
abc_main = record create_main_conf {
  dict_loaded_before_strict_on = some file_name;
  dcb_dicts_hashed = 1;
}

abc-loaded :
    dcb_dict_file portable_files 9 file_name none create_main_conf none
    ≡ accepted (abc_main, abc_dict ∷ [])
unfolding dcb_dict_file sha256 compress
abc-loaded = refl

abbrev abc_line : Line ℕ Bytes
abc_line = record { sys = portable_files; name = file_name; text = none; found = create_main_conf }

abc-accepted :
    init_main_conf abc_main
    ≡ some (record abc_main { dict_strict_path = some false; dcb_dict_trust_hashes = some false })
unfolding init_main_conf
abc-accepted = refl

-- The request offers the digest, in a Base64 of which the decoder knows one text.
abbrev dcb_nginx : Nginx
dcb_nginx = record plain_nginx { decode_base64 = λ b64. some abc_digest }

abbrev abc_conf : Conf
abc_conf = record plain_conf { dcb_dicts = abc_dict ∷ []; dcb_assume_secure = true }

abbrev abc_offer : Request
abc_offer = record page {
  accept_encoding = codes "br, dcb" ∷ [];
  headers_in =
      new_header (codes "Sec-Fetch-Site") (codes "same-origin")
      ∷ new_header (codes "Available-Dictionary") (codes ":ungWv48Bz+o=:")
      ∷ [];
}

abbrev abc_encoded : Request
abc_encoded = record abc_offer {
  headers_out =
      page.headers_out
      ++ (new_header (codes "Vary") (codes "Cookie")
          ∷ new_header (codes "Vary")
              (codes "Accept-Encoding, Available-Dictionary, Sec-Fetch-Site")
          ∷ new_header (codes "Content-Encoding") (codes "dcb")
          ∷ []);
  content_encoding = some (codes "dcb");
  content_length_n = none;
  gzip_tested = true;
  gzip_ok = false;
  need_in_memory = true;
  allow_ranges = false;
  pool = [];
}

abbrev abc_context : Context
abc_context = record { content_length = some 4096; dcb_dict = some abc_dict }

header_filter-abc :
    header_filter dcb_nginx abc_conf abc_offer ≡ some (compresses abc_context abc_encoded)
unfolding header_filter drop_while take_while
header_filter-abc = refl

header_filter-IsKeyed_example :
    Offers dcb_nginx.decode_base64 abc_offer abc_conf abc_digest × IsKeyed abc_dict
header_filter-IsKeyed_example =
    header_filter-IsKeyed _ dcb_nginx abc_conf abc_offer abc_encoded abc_context abc_dict
      (dict_file start portable_files 9 file_name none none abc_main (abc_dict ∷ []) abc-loaded)
      abc-accepted refl (λ msg hash e. absurd (none-ne-some hash e), tt)
      (added unset abc_line (inl refl) 9 abc_main (abc_dict ∷ []) abc-loaded) refl header_filter-abc
      refl
