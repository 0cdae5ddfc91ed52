-- ===== src/HeaderFilter/Varies.antt =====
-- A response that `ngx_http_brotli_header_filter` compresses carries Vary, and the filter always
-- answers.
use mathlib.Core.Bool.{false≢true}
use mathlib.Core.Option.{some-injective}
use ngx_brotli.AcceptEncoding.Scan.{same_name}
use ngx_brotli.Base.{
  ◌≡◌, refl, ap, sym, ◌∙◌, Bool, true, false, ◌||◌, List, [], ◌∷◌, ◌++◌, Option, none, some,
  if◌then◌else◌, codes, inl, inr, Bool-cases, drop_while,
}
use ngx_brotli.Dcb.Granted.{dcb_negotiate_total}
use ngx_brotli.Dcb.{Dict, Conf, no_dicts}
use ngx_brotli.HeaderFilter.Coding.{chosen-HasCoding, push_vary-core, push_vary-combined}
use ngx_brotli.HeaderFilter.Route.{header_filter-Route}
use ngx_brotli.HeaderFilter.{
  Nginx, Context, Outcome, fails, passes, compresses, ineligible, bypassed, push_bypass_vary,
  push_vary, chosen, coding_name, encode, negotiate, unless_bypassed, combined_vary, header_filter,
}
use ngx_brotli.NoTransform.Directives.{some_forbids, no_transform-some_forbids}
use ngx_brotli.Request.Accepts.{brotli_ok-is_main}
use ngx_brotli.Request.{Header, Request, allocate, push_header, new_header}
use ngx_brotli.Vary.Emits.{
  some_line, names_accept_encoding, some_line-push, some_line-append, vary_accept_encoding-twice,
  vary_accept_encoding-some_line, vary_line, asks_vary,
}
use ngx_brotli.Vary.Tokens.{pieces}
use ngx_brotli.Vary.{trim_end}

combined-names :
    (nginx : Nginx) (conf : Conf)
    → names_accept_encoding (new_header (codes "Vary") (combined_vary nginx conf)) ≡ true
unfolding same_name trim_end pieces drop_while
combined-names nginx conf = refl

-- nginx's calls leave the Vary lines of the response alone.
pub record KeepsVary (nginx : Nginx) : Type 0 where
  pub length_kept :
      (r : Request) → some_line (nginx.clear_content_length r).headers_out ≡ some_line r.headers_out
  pub ranges_kept :
      (r : Request) → some_line (nginx.clear_accept_ranges r).headers_out ≡ some_line r.headers_out
  pub etag_kept :
      (r : Request) → some_line (nginx.weak_etag r).headers_out ≡ some_line r.headers_out

push_header-some_line :
    (h : Header) (r r' : Request) (pool : List Bool)
    → push_header h (record r { pool = pool }) ≡ (true, r')
    → r'.headers_out ≡ r.headers_out ++ h ∷ []
push_header-some_line h r r' [] e = absurd (false≢true (ap (λ x. x.0) e))
push_header-some_line h r r' (false ∷ pool) e = absurd (false≢true (ap (λ x. x.0) e))
push_header-some_line h r r' (true ∷ pool) e = ap (λ x. x.1.headers_out) (sym e)

allocate-headers_out :
    (r r' : Request) (pool : List Bool)
    → allocate (record r { pool = pool }) ≡ (true, r')
    → r'.headers_out ≡ r.headers_out
allocate-headers_out r r' [] e = absurd (false≢true (ap (λ x. x.0) e))
allocate-headers_out r r' (x ∷ pool) e = ap (λ x. x.1.headers_out) (sym e)

module _ (nginx : Nginx) (conf : Conf) where
  push_vary-some_line :
      (r r' : Request)
      → nginx.gzip_vary ≡ false
      → push_vary nginx conf r ≡ some (true, r')
      → some_line r'.headers_out ≡ true
  push_vary-some_line r r' g e = elim (Bool-cases (no_dicts conf.dcb_dicts)) [
    | inl h ↦
        let line = some_line r.headers_out in
        let flag =
          ap
            (λ (b : Bool).
              some (if b || line then (true, asks_vary r) else push_header vary_line (asks_vary r)))
            (sym g) in
        (vary_accept_encoding-twice r r' (
          vary_accept_encoding-some_line false r
          ∙ flag
          ∙ sym (push_vary-core nginx conf r h)
          ∙ e)).0
    | inr h ↦
        let f = some-injective _ _ (sym (push_vary-combined nginx conf r h) ∙ e) in
        ap some_line (push_header-some_line _ r r' r.pool f)
        ∙ some_line-push r.headers_out _ (combined-names nginx conf)
  ]

  -- With core's gzip_vary off, where nginx calls leave the Vary lines alone, every response that the
  -- filter compresses carries a live Vary line that names Accept-Encoding.
  pub header_filter-some_line :
      (r : Request) (c : Context) (r' : Request)
      → KeepsVary nginx
      → nginx.gzip_vary ≡ false
      → header_filter nginx conf r ≡ some (compresses c r')
      → some_line r'.headers_out ≡ true
  header_filter-some_line r c r' keeps g e =
      let route = header_filter-Route nginx conf r c r' e in
      let v = route.rest in
      let n = v.negotiated in
      let k = n.committed in
      let z = k.encoded in
      let (_, latch) = chosen-HasCoding nginx conf v.r3 n.r4 n.dcb n.granted n.choice in
      let there = push_vary-some_line route.r2 v.r3 g v.varied in
      let to_r5 =
        allocate-headers_out n.r4 k.r5 n.r4.pool k.allocated
        ∙ ap (λ (r : Request). r.headers_out) (sym latch) in
      let to_r6 = push_header-some_line _ k.r5 z.r6 k.r5.pool z.pushed in
      let before =
        ap some_line to_r6 ∙ some_line-append k.r5.headers_out _ (ap some_line to_r5 ∙ there) in
      let r7 = record z.r6 {
        content_encoding = some (coding_name nginx conf n.dcb);
        need_in_memory = true;
      } in
      ap (λ (r : Request). some_line r.headers_out) (sym z.adjusts)
      ∙ keeps.etag_kept (nginx.clear_accept_ranges (nginx.clear_content_length r7))
      ∙ keeps.ranges_kept (nginx.clear_content_length r7)
      ∙ keeps.length_kept r7
      ∙ before

  chosen_total :
      (r : Request) (dcb : Option Dict) → (x : Bool × Request) × (chosen nginx conf r dcb ≡ some x)
  chosen_total r none = let (q, w, h, f) = brotli_ok-is_main r in (_, f)
  chosen_total r (some d) = (_, refl)

  push_vary_total : (r : Request) → (x : Bool × Request) × (push_vary nginx conf r ≡ some x)
  push_vary_total r = elim (Bool-cases (no_dicts conf.dcb_dicts)) [
    | inl h ↦ (_, push_vary-core nginx conf r h)
    | inr h ↦ (_, push_vary-combined nginx conf r h)
  ]

  negotiate_total : (x : Bool × Request) → (o : Outcome) × (negotiate nginx conf x ≡ some o)
  negotiate_total (false, r) = (fails r, refl)
  negotiate_total (true, r) =
      let (dcb, e) = dcb_negotiate_total nginx.decode_base64 r conf in
      let (x, f) = chosen_total r dcb in (encode nginx conf dcb x, rw (e, f) refl)

  unless_bypassed_total :
      (x : Bool × Request) → (o : Outcome) × (unless_bypassed nginx conf x ≡ some o)
  unless_bypassed_total (false, r) = (fails r, refl)
  unless_bypassed_total (true, r) = elim (Bool-cases (bypassed nginx conf r conf.bypass)) [
    | inl h ↦ (passes r, rw (h) refl)
    | inr h ↦ let (x, e) = push_vary_total r in let (o, f) = negotiate_total x in (o, rw (h, e) f)
  ]

  -- For every request and configuration the filter answers: no loop in it runs out of fuel.
  pub header_filter_total : (r : Request) → (o : Outcome) × (header_filter nginx conf r ≡ some o)
  unfolding header_filter
  header_filter_total r =
      let (o, e) = unless_bypassed_total (push_bypass_vary nginx conf r) in
      let lines = no_transform-some_forbids r.headers_out in
      elim (Bool-cases (ineligible nginx conf r)) [
        | inl h ↦ (passes r, rw (h) refl)
        | inr h ↦ elim (Bool-cases (some_forbids r.headers_out)) [
          | inl k ↦ (passes r, rw (h, lines, k) refl)
          | inr k ↦ (o, rw (h, lines, k) e)
        ]
      ]
