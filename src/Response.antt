-- ===== src/Response.antt =====
-- filter/ngx_http_brotli_filter_module.c: one response, from the header filter through every call of the
-- body filter.
pub mod Sources
mod Tests
use ngx_brotli.Base.{
  ℕ, ◌≡◌, refl, ap, sym, subst, ◌∙◌, Bool, true, false, Bytes, List, Option, none, some, length,
}
use ngx_brotli.Body.Begin.{Hashed}
use ngx_brotli.Body.Complete.{Reached-Done}
use ngx_brotli.Body.Laws.{EncoderLaws}
use ngx_brotli.Body.Open.{Core, core, Done}
use ngx_brotli.Body.Sessions.{Reached}
use ngx_brotli.Body.Stream.{Piece, Encoder, Downstream, Stream}
use ngx_brotli.Dcb.Granted.{Offers}
use ngx_brotli.Dcb.{Dict, Conf}
use ngx_brotli.HeaderFilter.Coding.{HasCoding}
use ngx_brotli.HeaderFilter.Gates.{Compressed, header_filter-Compressed}
use ngx_brotli.HeaderFilter.{Nginx, Context, compresses, header_filter}
use ngx_brotli.Request.{Request}

granted-Offers :
    (nginx : Nginx) (conf : Conf) (r : Request) (dict : Option Dict) (d : Dict)
    → HasCoding nginx conf r dict
    → dict ≡ some d
    → Offers nginx.decode_base64 r conf d.hash
granted-Offers nginx conf r dict d h e = (subst (HasCoding nginx conf r) e h).0

-- What a completed response promises: the body filter's promise, and for a coding with a dictionary
-- that the request offered the hash of it.
pub record Delivered {E : Type 0} {enc : Encoder E} {decode : Option Bytes → Bytes → Option Bytes}
    (laws : EncoderLaws enc decode) (nginx : Nginx) (conf : Conf) (r : Request) (dict : Option Dict)
    (given : List Piece) (s : Core E) : Type 0 where
  pub done : Done laws conf dict given s
  pub offered : (d : Dict) → dict ≡ some d → Offers nginx.decode_base64 r conf d.hash

-- If the header filter takes a response with some context, and the body filter, called in whatever way
-- on a stream with that context's dictionary, succeeds, then the response is complete, and a dictionary
-- that it is coded with is one whose hash the request offered under the gates of RFC 9842, if the
-- encoder keeps its laws.
pub header_filter-Delivered :
    {E N : Type 0} {enc : Encoder E} {decode : Option Bytes → Bytes → Option Bytes}
    (laws : EncoderLaws enc decode) (nginx : Nginx) (conf : Conf) (down : Downstream N)
    (r r' : Request) (c : Context) {given : List Piece} {s : Stream E N}
    → header_filter nginx conf r ≡ some (compresses c r')
    → Reached enc conf c.dcb_dict down given s
    → s.success ≡ true
    → Delivered laws nginx conf r c.dcb_dict given (core s)
header_filter-Delivered laws nginx conf down r r' c taken k h =
    let coding = (header_filter-Compressed nginx conf r c r' taken).coding in
    let offered : (d : Dict) → c.dcb_dict ≡ some d → Offers nginx.decode_base64 r conf d.hash =
      λ d e. granted-Offers nginx conf r c.dcb_dict d coding e in
    record {
      done = Reached-Done laws conf c.dcb_dict down (λ d e. (offered d e).size) k h;
      offered = offered;
    }
