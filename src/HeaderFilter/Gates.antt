-- ===== src/HeaderFilter/Gates.antt =====
-- What holds of a request when `ngx_http_brotli_header_filter` compresses its response.
use mathlib.Core.Bool.{true≢false}
use ngx_brotli.Base.{
  ◌≡◌, refl, ap, sym, subst, ◌∙◌, Bool, true, false, not, ◌||◌, List, [], ◌∷◌, some,
}
use ngx_brotli.Dcb.Granted.{not-false}
use ngx_brotli.Dcb.{Conf}
use ngx_brotli.HeaderFilter.Coding.{
  inputs, HasCoding, push_bypass_vary-inputs, push_vary-inputs, chosen-HasCoding, HasCoding-inputs,
}
use ngx_brotli.HeaderFilter.Route.{header_filter-Route}
use ngx_brotli.HeaderFilter.{
  bypassed, push_bypass_vary, Nginx, Context, compresses, is_coded_status, has_coding, too_short,
  too_long, coding_name, adjusted, header_filter,
}
use ngx_brotli.NoTransform.Directives.{some_forbids}
use ngx_brotli.Request.{Header, Request, allocate, push_header}

module _ (nginx : Nginx) (conf : Conf) where
  -- The gates of the header filter, and the state of the request that it passes on.
  pub record Compressed (r : Request) (c : Context) (r' : Request) : Type 0 where
    pub enabled : conf.enable ≡ true
    pub status : is_coded_status r.status ≡ true
    pub body : r.header_only ≡ false
    pub plain : has_coding r.content_encoding ≡ false
    pub long_enough : too_short r.content_length_n conf.min_length ≡ false
    pub short_enough : too_long r.content_length_n conf.max_length ≡ false
    pub typed : nginx.test_content_type r conf.types ≡ true
    pub allowed : some_forbids r.headers_out ≡ false
    pub kept :
        (r2 : Request) × (push_bypass_vary nginx conf r ≡ (true, r2))
        × (bypassed nginx conf r2 conf.bypass ≡ false)
    pub coding : HasCoding nginx conf r c.dcb_dict
    pub pushed : Request
    pub gzip_off : (pushed.gzip_tested ≡ true) × (pushed.gzip_ok ≡ false)
    pub adjusts : r' ≡ adjusted nginx conf (coding_name nginx conf c.dcb_dict) pushed

  or_false : (b c : Bool) → (b || c) ≡ false → (b ≡ false) × (c ≡ false)
  or_false true c h = absurd (true≢false h)
  or_false false c h = (refl, h)

  abbrev gzip : Request → Bool × Bool
  gzip r = (r.gzip_tested, r.gzip_ok)

  allocate-gzip :
      (r : Request) (pool : List Bool) → gzip (allocate (record r { pool = pool })).1 ≡ gzip r
  allocate-gzip r [] = refl
  allocate-gzip r (x ∷ pool) = refl

  push_header-gzip :
      (h : Header) (r : Request) (pool : List Bool)
      → gzip (push_header h (record r { pool = pool })).1 ≡ gzip r
  push_header-gzip h r [] = refl
  push_header-gzip h r (true ∷ pool) = refl
  push_header-gzip h r (false ∷ pool) = refl

  -- A response is compressed only behind every gate: the filter is enabled, the status is one of
  -- the four, the response has a body and no content coding, its known length is within the bounds,
  -- its MIME type is listed, no Cache-Control line forbids it and no bypass predicate fires; it
  -- answers a main request whose field gives br a weight above zero, or one that has offered a
  -- configured dictionary. Then gzip is latched off for it.
  pub header_filter-Compressed :
      (r : Request) (c : Context) (r' : Request)
      → header_filter nginx conf r ≡ some (compresses c r')
      → Compressed r c r'
  header_filter-Compressed r c r' e =
      let route = header_filter-Route nginx conf r c r' e in
      let v = route.rest in
      let n = v.negotiated in
      let k = n.committed in
      let z = k.encoded in
      let (g1, f1) = or_false (not conf.enable) _ route.eligible in
      let (g2, f2) = or_false (not (is_coded_status r.status)) _ f1 in
      let (g3, f3) = or_false r.header_only _ f2 in
      let (g4, f4) = or_false (has_coding r.content_encoding) _ f3 in
      let (g5, f5) = or_false (too_short r.content_length_n conf.min_length) _ f4 in
      let (g6, g7) = or_false (too_long r.content_length_n conf.max_length) _ f5 in
      let (coding, latch) = chosen-HasCoding nginx conf v.r3 n.r4 n.dcb n.granted n.choice in
      let to_r2 : inputs route.r2 ≡ inputs r =
        ap (λ (x : Bool × Request). inputs x.1) (sym route.pushed)
        ∙ push_bypass_vary-inputs nginx conf r in
      let to_r3 = push_vary-inputs nginx conf route.r2 v.r3 true v.varied ∙ to_r2 in
      let same : n.dcb ≡ c.dcb_dict = ap (λ (c : Context). c.dcb_dict) z.context in
      let latches : gzip z.r6 ≡ (true, false) =
        ap (λ (x : Bool × Request). gzip x.1) (sym z.pushed)
        ∙ push_header-gzip _ k.r5 k.r5.pool
        ∙ ap (λ (x : Bool × Request). gzip x.1) (sym k.allocated)
        ∙ allocate-gzip n.r4 n.r4.pool
        ∙ ap gzip (sym latch) in
      record {
        enabled = not-false conf.enable g1;
        status = not-false (is_coded_status r.status) g2;
        body = g3;
        plain = g4;
        long_enough = g5;
        short_enough = g6;
        typed = not-false (nginx.test_content_type r conf.types) g7;
        allowed = route.allowed;
        kept = (route.r2, route.pushed, route.kept);
        coding =
            subst (HasCoding nginx conf r) same
              (HasCoding-inputs nginx conf r v.r3 n.dcb to_r3 coding);
        pushed = z.r6;
        gzip_off = (ap (λ (x : Bool × Bool). x.0) latches, ap (λ (x : Bool × Bool). x.1) latches);
        adjusts =
            sym z.adjusts ∙ ap (λ d. adjusted nginx conf (coding_name nginx conf d) z.r6) same;
      }
