-- ===== src/Dcb/Tests.antt =====
-- The negotiation of dcb on a concrete request, and the theorem on it there.
use ngx_brotli.Base.{
  ◌≡◌, refl, true, false, Bytes, [], ◌∷◌, Option, none, some, codes, replicate, drop_while,
  take_while,
}
use ngx_brotli.Dcb.Granted.{Offers, Among, HasWeight, dcb_negotiate-Offers}
use ngx_brotli.Dcb.{Dict, Conf, dcb_negotiate}
use ngx_brotli.Request.Tests.{page}
use ngx_brotli.Request.{Request, new_header}

abbrev sevens : Dict
sevens = record { file = codes "/dict"; bytes = codes "words"; hash = replicate 32 7 }

-- A decoder that knows one text.
abbrev decode : Bytes → Option Bytes
decode [] = none
decode (c ∷ cs) = some (replicate 32 c)

abbrev dcb_conf : Conf
dcb_conf = record {
  enable = true;
  types = [];
  min_length = 20;
  max_length = none;
  bypass = none;
  bypass_vary = [];
  dcb_dicts = record { file = []; bytes = []; hash = replicate 32 8 } ∷ sevens ∷ [];
  dcb_assume_secure = false;
  quality = 6;
  lg_win = 19;
}

abbrev offer : Request
offer = record page {
  accept_encoding = codes "br, dcb;q=0.3" ∷ [];
  headers_in =
      new_header (codes "Sec-Fetch-Site") (codes "Same-Origin")
      ∷ new_header (codes "Available-Dictionary") (b':' ∷ 7 ∷ 7 ∷ b':' ∷ [])
      ∷ [];
}

offer-granted : dcb_negotiate decode offer dcb_conf ≡ some (some sevens)
unfolding dcb_negotiate drop_while take_while
offer-granted = refl

wildcard_refused :
    dcb_negotiate decode (record offer { accept_encoding = codes "br, *" ∷ [] }) dcb_conf
    ≡ some none
unfolding dcb_negotiate drop_while take_while
wildcard_refused = refl

cross_site_refused :
    dcb_negotiate decode
      (record offer {
        headers_in = new_header (codes "Sec-Fetch-Site") (codes "cross-site") ∷ offer.headers_in;
      })
      dcb_conf
    ≡ some none
unfolding dcb_negotiate drop_while take_while
cross_site_refused = refl

dcb_negotiate-Offers_example :
    Offers decode offer dcb_conf (replicate 32 7)
    × Among sevens dcb_conf.dcb_dicts
    × HasWeight decode offer
dcb_negotiate-Offers_example = dcb_negotiate-Offers decode offer dcb_conf sevens offer-granted
