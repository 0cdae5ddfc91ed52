-- ===== src/HeaderFilter/Route.antt =====
-- The route through `ngx_http_brotli_header_filter` of a response that is compressed.
use mathlib.Core.Option.{some-injective}
use mathlib.Core.Bool.{false≢true}
use ngx_brotli.Base.{
  ◌≡◌, refl, ap, sym, ◌∙◌, Bool, true, false, Option, some, if◌then◌else◌, codes, ◌>>=◌, >>=-some,
}
use ngx_brotli.Dcb.{Dict, Conf, dcb_negotiate}
use ngx_brotli.HeaderFilter.{
  Nginx, Context, Outcome, fails, passes, compresses, ineligible, bypassed, push_bypass_vary,
  push_vary, chosen, coding_name, adjusted, set_encoding, commit, encode, negotiate,
  unless_bypassed, header_filter,
}
use ngx_brotli.NoTransform.Directives.{some_forbids, no_transform-some_forbids}
use ngx_brotli.NoTransform.{no_transform}
use ngx_brotli.Request.{Request, allocate, push_header, new_header}

abbrev is_compressed : Outcome → Bool
is_compressed (fails r) = false
is_compressed (passes r) = false
is_compressed (compresses c r) = true

abbrev context_of : Context → Outcome → Context
context_of c (fails r) = c
context_of c (passes r) = c
context_of c (compresses d r) = d

abbrev request_of : Outcome → Request
request_of (fails r) = r
request_of (passes r) = r
request_of (compresses d r) = r

fails-ne-compresses : (r r' : Request) (c : Context) → fails r ≡ compresses c r' → ⊥
fails-ne-compresses r r' c e = false≢true (ap is_compressed e)

passes-ne-compresses : (r r' : Request) (c : Context) → passes r ≡ compresses c r' → ⊥
passes-ne-compresses r r' c e = false≢true (ap is_compressed e)

if-passes :
    (b : Bool) (r r' : Request) (c : Context) (x : Option Outcome)
    → (if b then some (passes r) else x) ≡ some (compresses c r')
    → (b ≡ false) × (x ≡ some (compresses c r'))
if-passes true r r' c x e = absurd (passes-ne-compresses r r' c (some-injective _ _ e))
if-passes false r r' c x e = (refl, e)

module _ (nginx : Nginx) (conf : Conf) where
  -- The requests along the route.
  pub record Encoded (r5 : Request) (dcb : Option Dict) (c : Context) (r' : Request) : Type 0 where
    pub r6 : Request
    pub pushed :
        push_header (new_header (codes "Content-Encoding") (coding_name nginx conf dcb)) r5
        ≡ (true, r6)
    pub context : record { content_length = r5.content_length_n; dcb_dict = dcb } ≡ c
    pub adjusts : adjusted nginx conf (coding_name nginx conf dcb) r6 ≡ r'

  set_encoding-Encoded :
      (dcb : Option Dict) (r5 : Request) (x : Bool × Request) (c : Context) (r' : Request)
      → push_header (new_header (codes "Content-Encoding") (coding_name nginx conf dcb)) r5 ≡ x
      → set_encoding nginx conf dcb r5 x ≡ compresses c r'
      → Encoded r5 dcb c r'
  set_encoding-Encoded dcb r5 (false, r6) c r' p e = absurd (fails-ne-compresses r6 r' c e)
  set_encoding-Encoded dcb r5 (true, r6) c r' p e = record {
    r6 = r6;
    pushed = p;
    context = ap (context_of c) e;
    adjusts = ap request_of e;
  }

  pub record Committed (r4 : Request) (dcb : Option Dict) (c : Context) (r' : Request)
      : Type 0 where
    pub r5 : Request
    pub allocated : allocate r4 ≡ (true, r5)
    pub encoded : Encoded r5 dcb c r'

  commit-Committed :
      (dcb : Option Dict) (r4 : Request) (x : Bool × Request) (c : Context) (r' : Request)
      → allocate r4 ≡ x
      → commit nginx conf dcb x ≡ compresses c r'
      → Committed r4 dcb c r'
  commit-Committed dcb r4 (false, r5) c r' p e = absurd (fails-ne-compresses r5 r' c e)
  commit-Committed dcb r4 (true, r5) c r' p e = record {
    r5 = r5;
    allocated = p;
    encoded = set_encoding-Encoded dcb r5 _ c r' refl e;
  }

  pub record Negotiated (r3 : Request) (c : Context) (r' : Request) : Type 0 where
    pub dcb : Option Dict
    pub granted : dcb_negotiate nginx.decode_base64 r3 conf ≡ some dcb
    pub r4 : Request
    pub choice : chosen nginx conf r3 dcb ≡ some (true, r4)
    pub committed : Committed r4 dcb c r'

  encode-Negotiated :
      (r3 : Request) (dcb : Option Dict) (x : Bool × Request) (c : Context) (r' : Request)
      → dcb_negotiate nginx.decode_base64 r3 conf ≡ some dcb
      → chosen nginx conf r3 dcb ≡ some x
      → encode nginx conf dcb x ≡ compresses c r'
      → Negotiated r3 c r'
  encode-Negotiated r3 dcb (false, r4) c r' g p e = absurd (passes-ne-compresses r4 r' c e)
  encode-Negotiated r3 dcb (true, r4) c r' g p e = record {
    dcb = dcb;
    granted = g;
    r4 = r4;
    choice = p;
    committed = commit-Committed dcb r4 (allocate r4) c r' refl e;
  }

  pub record Varied (r2 : Request) (c : Context) (r' : Request) : Type 0 where
    pub r3 : Request
    pub varied : push_vary nginx conf r2 ≡ some (true, r3)
    pub negotiated : Negotiated r3 c r'

  negotiate-Varied :
      (r2 : Request) (x : Bool × Request) (c : Context) (r' : Request)
      → push_vary nginx conf r2 ≡ some x
      → negotiate nginx conf x ≡ some (compresses c r')
      → Varied r2 c r'
  negotiate-Varied r2 (false, r3) c r' p e =
      absurd (fails-ne-compresses r3 r' c (some-injective _ _ e))
  negotiate-Varied r2 (true, r3) c r' p e =
      let (dcb, g, f) =
        >>=-some (dcb_negotiate nginx.decode_base64 r3 conf)
          (λ dcb. chosen nginx conf r3 dcb >>= λ x. some (encode nginx conf dcb x)) _ e in
      let (x, q, k) =
        >>=-some (chosen nginx conf r3 dcb) (λ x. some (encode nginx conf dcb x)) _ f in
      record {
        r3 = r3;
        varied = p;
        negotiated = encode-Negotiated r3 dcb x c r' g q (some-injective _ _ k);
      }

  pub record Route (r : Request) (c : Context) (r' : Request) : Type 0 where
    pub eligible : ineligible nginx conf r ≡ false
    pub allowed : some_forbids r.headers_out ≡ false
    pub r2 : Request
    pub pushed : push_bypass_vary nginx conf r ≡ (true, r2)
    pub kept : bypassed nginx conf r2 conf.bypass ≡ false
    pub rest : Varied r2 c r'

  unless_bypassed-Route :
      (r : Request) (x : Bool × Request) (c : Context) (r' : Request)
      → ineligible nginx conf r ≡ false
      → some_forbids r.headers_out ≡ false
      → push_bypass_vary nginx conf r ≡ x
      → unless_bypassed nginx conf x ≡ some (compresses c r')
      → Route r c r'
  unless_bypassed-Route r (false, r2) c r' g h p e =
      absurd (fails-ne-compresses r2 r' c (some-injective _ _ e))
  unless_bypassed-Route r (true, r2) c r' g h p e =
      let (kept, f) = if-passes (bypassed nginx conf r2 conf.bypass) r2 r' c _ e in
      let (x, q, k) = >>=-some (push_vary nginx conf r2) (negotiate nginx conf) _ f in
      record {
        eligible = g;
        allowed = h;
        r2 = r2;
        pushed = p;
        kept = kept;
        rest = negotiate-Varied r2 x c r' q k;
      }

  pub header_filter-Route :
      (r : Request) (c : Context) (r' : Request)
      → header_filter nginx conf r ≡ some (compresses c r')
      → Route r c r'
  unfolding header_filter
  header_filter-Route r c r' e =
      let (g, f) = if-passes (ineligible nginx conf r) r r' c _ e in
      let (forbidden, p, k) =
        >>=-some (no_transform r.headers_out)
          (λ forbidden.
            if forbidden
            then some (passes r)
            else unless_bypassed nginx conf (push_bypass_vary nginx conf r))
          _ f in
      let (h, l) = if-passes forbidden r r' c _ k in
      let same = some-injective _ _ (sym (no_transform-some_forbids r.headers_out) ∙ p) in
      unless_bypassed-Route r (push_bypass_vary nginx conf r) c r' g (same ∙ h) refl l
