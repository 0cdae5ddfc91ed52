-- ===== src/HeaderFilter/Coding.antt =====
-- The coding that `ngx_http_brotli_header_filter` chooses, and what it reads of the request.
use mathlib.Core.Bool.{false≢true}
use mathlib.Core.Option.{some-injective}
use ngx_brotli.AcceptEncoding.Walk.{request_coding_weight, is_positive}
use ngx_brotli.Base.{
  ℕ, ◌≡◌, ◌<◌, refl, ap, sym, ◌∙◌, Bool, true, false, ◌&&◌, ◌||◌, Bytes, List, [], ◌∷◌, Option,
  none, some, arith, if◌then◌else◌, codes, inl, inr, Bool-cases,
}
use ngx_brotli.Dcb.Granted.{Offers, Among, HasWeight, dcb_negotiate-Offers}
use ngx_brotli.Dcb.{Dict, Conf, dcb_negotiate, no_dicts, find_request_header, same_site}
use ngx_brotli.HeaderFilter.{Nginx, push_bypass_vary, push_vary, chosen, combined_vary}
use ngx_brotli.NoTransform.{is_nil}
use ngx_brotli.Request.Accepts.{brotli_ok-is_main}
use ngx_brotli.Request.{Header, Request, push_header, new_header, latch_gzip_off}
use ngx_brotli.Vary.Emits.{vary_line, asks_vary, some_line, vary_accept_encoding-some_line}

-- What the negotiation reads.
abbrev pub Inputs : Type 0
Inputs = Bool × Bool × List Bytes × List Header

abbrev pub inputs : Request → Inputs
inputs r = (r.is_main, r.ssl, r.accept_encoding, r.headers_in)

pub push_header-inputs :
    (h : Header) (r : Request) (pool : List Bool)
    → inputs (push_header h (record r { pool = pool })).1 ≡ inputs r
push_header-inputs h r [] = refl
push_header-inputs h r (true ∷ pool) = refl
push_header-inputs h r (false ∷ pool) = refl

pub if_inputs :
    (b : Bool) (r : Request) (x y : Bool × Request)
    → inputs x.1 ≡ inputs r
    → inputs y.1 ≡ inputs r
    → inputs (if b then x else y).1 ≡ inputs r
if_inputs true r x y h k = h
if_inputs false r x y h k = k

module _ (nginx : Nginx) (conf : Conf) where
  pub push_bypass_vary-inputs : (r : Request) → inputs (push_bypass_vary nginx conf r).1 ≡ inputs r
  push_bypass_vary-inputs r =
      if_inputs (is_nil conf.bypass_vary) r (true, r) _ refl (push_header-inputs _ r r.pool)

  -- The Vary line of the module, or the combined one.
  pub push_vary-core :
      (r : Request)
      → no_dicts conf.dcb_dicts ≡ true
      → push_vary nginx conf r
        ≡ some (
            if nginx.gzip_vary || some_line r.headers_out
            then (true, asks_vary r)
            else push_header vary_line (asks_vary r))
  push_vary-core r h = rw (h) (vary_accept_encoding-some_line nginx.gzip_vary r)

  pub push_vary-combined :
      (r : Request)
      → no_dicts conf.dcb_dicts ≡ false
      → push_vary nginx conf r
        ≡ some (push_header (new_header (codes "Vary") (combined_vary nginx conf)) r)
  push_vary-combined r h = rw (h) refl

  pub push_vary-inputs :
      (r r' : Request) (b : Bool) → push_vary nginx conf r ≡ some (b, r') → inputs r' ≡ inputs r
  push_vary-inputs r r' b e = elim (Bool-cases (no_dicts conf.dcb_dicts)) [
    | inl h ↦
        ap (λ (x : Bool × Request). inputs x.1) (some-injective _ _ (sym e ∙ push_vary-core r h))
        ∙ if_inputs (nginx.gzip_vary || some_line r.headers_out) r (true, asks_vary r)
            (push_header vary_line (asks_vary r)) refl
            (push_header-inputs vary_line (asks_vary r) r.pool)
    | inr h ↦
        ap (λ (x : Bool × Request). inputs x.1)
          (some-injective _ _ (sym e ∙ push_vary-combined r h))
        ∙ push_header-inputs (new_header (codes "Vary") (combined_vary nginx conf)) r r.pool
  ]

  -- A coding is chosen with gzip latched off: br for a field that accepts it, dcb on an offer.
  abbrev pub HasCoding : Request → Option Dict → Type 0
  HasCoding r none =
      (r.is_main ≡ true)
      × ((q : ℕ) × (request_coding_weight (codes "br") true r.accept_encoding ≡ some (some q))
          × (0 < q))
  HasCoding r (some d) =
      Offers nginx.decode_base64 r conf d.hash
      × Among d conf.dcb_dicts
      × HasWeight nginx.decode_base64 r

  abbrev latched : Bool → Request → Bool × Request
  latched b r = if b then (true, latch_gzip_off r) else (false, r)

  latched_lem :
      (b : Bool) (r r' : Request)
      → ◌≡◌ {A = Bool × Request} (latched b r) (true, r')
      → (b ≡ true) × (latch_gzip_off r ≡ r')
  latched_lem true r r' e = (refl, ap (λ (x : Bool × Request). x.1) e)
  latched_lem false r r' e = absurd (false≢true (ap (λ (x : Bool × Request). x.0) e))

  positive_main :
      (b : Bool) (q : Option ℕ)
      → (b && is_positive q) ≡ true
      → (b ≡ true) × ((n : ℕ) × (q ≡ some n) × (0 < n))
  positive_main true none h = absurd (false≢true h)
  positive_main false q h = absurd (false≢true h)
  positive_main true (some n) h = (refl, (n, refl, ground (arith, h)))

  pub chosen-HasCoding :
      (r r' : Request) (dcb : Option Dict)
      → dcb_negotiate nginx.decode_base64 r conf ≡ some dcb
      → chosen nginx conf r dcb ≡ some (true, r')
      → HasCoding r dcb × (latch_gzip_off r ≡ r')
  chosen-HasCoding r r' none g e =
      let (q, w, _, f) = brotli_ok-is_main r in
      let (h, k) = latched_lem (r.is_main && is_positive q) r r' (some-injective _ _ (sym f ∙ e)) in
      let (main, (n, same, positive)) = positive_main r.is_main q h in
      ((main, (n, w ∙ ap some same, positive)), k)
  chosen-HasCoding r r' (some d) g e = (
    dcb_negotiate-Offers nginx.decode_base64 r conf d g,
    ap (λ (x : Bool × Request). x.1) (some-injective _ _ e),
  )

  pub HasCoding-inputs :
      (r r' : Request) (dcb : Option Dict)
      → inputs r' ≡ inputs r
      → HasCoding r' dcb
      → HasCoding r dcb
  HasCoding-inputs r r' none e (main, (q, w, p)) =
      let lines = ap (λ (i : Inputs). i.2) e in
      (
        sym (ap (λ (i : Inputs). i.0) e) ∙ main,
        (q, sym (ap (λ lines. request_coding_weight (codes "br") true lines) lines) ∙ w, p),
      )
  HasCoding-inputs r r' (some d) e (o, among, (q, w, p)) =
      let lines = ap (λ (i : Inputs). i.2) e in
      let headers = ap (λ (i : Inputs). i.3) e in
      (
        record {
          main = sym (ap (λ (i : Inputs). i.0) e) ∙ o.main;
          secure = sym (ap (λ (i : Inputs). conf.dcb_assume_secure || i.1) e) ∙ o.secure;
          line = o.line;
          available =
              sym (ap (find_request_header (codes "available-dictionary")) headers) ∙ o.available;
          b64 = o.b64;
          framed = o.framed;
          short = o.short;
          decoded = o.decoded;
          size = o.size;
          site =
              sym (ap (λ hs. same_site (find_request_header (codes "sec-fetch-site") hs)) headers)
              ∙ o.site;
        },
        among,
        (q, sym (ap (λ lines. request_coding_weight (codes "dcb") false lines) lines) ∙ w, p),
      )
