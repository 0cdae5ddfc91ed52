-- ===== src/Response/Sources.antt =====
-- The dictionary of a dcb response, from the directives that loaded it to the request that it is
-- granted to.
use ngx_brotli.Base.{◌≡◌, subst, sym, false, List, [], ◌∷◌, Option, some, All, inl, inr}
use ngx_brotli.Dcb.Granted.{Offers, Among}
use ngx_brotli.Dcb.{Dict, Conf}
use ngx_brotli.HeaderFilter.Coding.{HasCoding}
use ngx_brotli.HeaderFilter.Gates.{header_filter-Compressed}
use ngx_brotli.HeaderFilter.{Nginx, Context, compresses, header_filter}
use ngx_brotli.Loading.Load.{Main, is_on, init_main_conf, dicts_of}
use ngx_brotli.Loading.Located.{Located, HasLibcrypto, IsKeyed, Located-IsDigest}
use ngx_brotli.Loading.Parse.{Line, Parsed}
use ngx_brotli.Request.{Request}

All-Among : (P : Dict → Type 0) (d : Dict) (ds : List Dict) → All P ds → Among d ds → P d
All-Among P d [] a h = absurd h
All-Among P d (x ∷ xs) a (inl e) = subst P (sym e) a.0
All-Among P d (x ∷ xs) a (inr h) = All-Among P d xs a.1 h

-- Where trust_hashes does not end up on, a response is coded only with a dictionary the SHA-256 of
-- whose bytes the request offered under the gates of RFC 9842, if the location's dictionaries are
-- those that directives of the accepted configuration loaded, and libcrypto computes SHA-256.
pub header_filter-IsKeyed :
    {D F : Type 0} {m : Main} {lines : List (Line D F)} {dicts : Option (List Dict)} (m' : Main)
    (nginx : Nginx) (conf : Conf) (r r' : Request) (c : Context) (d : Dict)
    → Parsed D F m lines
    → init_main_conf m ≡ some m'
    → is_on m'.dcb_dict_trust_hashes ≡ false
    → All HasLibcrypto lines
    → Located lines dicts
    → conf.dcb_dicts ≡ dicts_of dicts
    → header_filter nginx conf r ≡ some (compresses c r')
    → c.dcb_dict ≡ some d
    → Offers nginx.decode_base64 r conf d.hash × IsKeyed d
header_filter-IsKeyed {dicts} m' nginx conf r r' c d k h off libcrypto l here taken e =
    let coding =
      subst (HasCoding nginx conf r) e (header_filter-Compressed nginx conf r c r' taken).coding in
    let keyed = Located-IsDigest m' k h off libcrypto l in
    (coding.0, All-Among IsKeyed d (dicts_of dicts) keyed (subst (Among d) here coding.1))
