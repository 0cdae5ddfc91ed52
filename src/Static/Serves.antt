-- ===== src/Static/Serves.antt =====
-- The handler behind the proof that a file is usable.

use ngx_brotli.AcceptEncoding.LinesEnd.{request_coding_weight_total}
use ngx_brotli.AcceptEncoding.Walk.{request_coding_weight, is_positive}
use ngx_brotli.Base.{
  ℕ, ◌≡◌, refl, ap, subst, not, ◌⊎◌, inl, inr, if_both, ◌∙◌, Bool, true, false, ◌&&◌, ◌||◌, Bytes,
  Option, some, if◌then◌else◌, codes,
}
use ngx_brotli.HeaderFilter.Coding.{Inputs, inputs, if_inputs, push_header-inputs}
use ngx_brotli.Request.Accepts.{accepts-is_main, Acceptable, Acceptable-cases}
use ngx_brotli.Static.Sends.{Keeps, Outcome}
use ngx_brotli.Static.Outcomes.{serve-Outcome}
use ngx_brotli.Request.{Request, push_header, latch_gzip_off, accepts}
use ngx_brotli.Static.{
  Mode, off, on, always, Code, declined, status, FileInfo, Server, Probe, stop, usable, probe,
  serve, serve_accepted, respond, handler, get_or_head, ends_in_slash,
}
use ngx_brotli.Vary.Emits.{vary_line, asks_vary, some_line, vary_accept_encoding-some_line}

-- The Vary line by construction.
abbrev pub with_vary : Bool → Request → Bool × Request
with_vary gzip_vary r =
    if gzip_vary || some_line r.headers_out
    then (true, asks_vary r)
    else push_header vary_line (asks_vary r)

with_vary-inputs : (gzip_vary : Bool) (r : Request) → inputs (with_vary gzip_vary r).1 ≡ inputs r
with_vary-inputs gzip_vary r =
    if_inputs (gzip_vary || some_line r.headers_out) r (true, asks_vary r)
      (push_header vary_line (asks_vary r)) refl (push_header-inputs vary_line (asks_vary r) r.pool)

accepts-inputs :
    (r r' : Request) (q : Option ℕ)
    → inputs r' ≡ inputs r
    → request_coding_weight (codes "br") true r.accept_encoding ≡ some q
    → accepts r' ≡ some (r.is_main && is_positive q)
accepts-inputs r r' q e w =
    accepts-is_main r' q (ap (λ (i : Inputs). request_coding_weight (codes "br") true i.2) e ∙ w)
    ∙ ap (λ (i : Inputs). some (i.0 && is_positive q)) e

module _ (server : Server) where
  -- What the on mode answers behind the Vary line.
  abbrev pub answer : Bytes → FileInfo → Bool → Bool × Request → Code × Request
  answer path file accepted (false, r) = (status 500, r)
  answer path file accepted (true, r) =
      if accepted then serve server path file (latch_gzip_off r) else (declined, r)

  serve_accepted-answer :
      (path : Bytes) (file : FileInfo) (r : Request) (q : Option ℕ) (x : Bool × Request)
      → inputs x.1 ≡ inputs r
      → request_coding_weight (codes "br") true r.accept_encoding ≡ some q
      → serve_accepted server path file x ≡ some (answer path file (r.is_main && is_positive q) x)
  serve_accepted-answer path file r q (false, r') e w = refl
  serve_accepted-answer path file r q (true, r') e w = rw (accepts-inputs r r' q e w) refl

  respond-on :
      (r : Request) (path : Bytes) (file : FileInfo) (q : Option ℕ)
      → request_coding_weight (codes "br") true r.accept_encoding ≡ some q
      → respond server on r (usable path file)
        ≡ some (answer path file (r.is_main && is_positive q) (with_vary server.gzip_vary r))
  respond-on r path file q w = rw (vary_accept_encoding-some_line server.gzip_vary r) (
      serve_accepted-answer path file r q (with_vary server.gzip_vary r)
        (with_vary-inputs server.gzip_vary r) w)

  -- How the on mode answers behind the Vary line.
  abbrev pub Answered :
      Bytes → FileInfo → Request → Option ℕ → Bool × Request → Code × Request → Type 0
  Answered path file r q (false, r') x = x ≡ (status 500, r')
  Answered path file r q (true, r') x =
      (Acceptable r q
        × Outcome path file server (record r' { gzip_tested = true; gzip_ok = false }) x)
      ⊎ ((¬ (Acceptable r q)) × (x ≡ (declined, r')))

  answer-Answered :
      Keeps server
      → (path : Bytes) (file : FileInfo) (r : Request) (q : Option ℕ) (varied : Bool × Request)
      → Answered path file r q varied (answer path file (r.is_main && is_positive q) varied)
  answer-Answered keeps path file r q (false, r') = refl
  answer-Answered keeps path file r q (true, r') = elim (Acceptable-cases r q) [
    | inl (a, t) ↦ rw t (
        inl (
          a,
          serve-Outcome path file server keeps (record r' { gzip_tested = true; gzip_ok = false }),
        ))
    | inr (n, t) ↦ rw t (inr (n, refl))
  ]

  -- How each mode answers with a usable file; in the off mode there is none.
  abbrev pub Answers : Mode → Bytes → FileInfo → Request → Code × Request → Type 0
  Answers off path file r x = ⊥
  Answers on path file r x =
      (q : Option ℕ) × (request_coding_weight (codes "br") true r.accept_encoding ≡ some q)
      × Answered path file r q (with_vary server.gzip_vary r) x
  Answers always path file r x = Outcome path file server r x

  abbrev IsStop : Probe → Type 0
  IsStop (stop code) = Unit
  IsStop (usable path file) = ⊥

  probe_off : (r : Request) → IsStop (probe server off r)
  unfolding probe
  probe_off r =
      if_both IsStop (not (get_or_head r.method)) _ _ tt
        (if_both IsStop (ends_in_slash r.uri) _ _ tt tt)

  -- Where a usable file is found the handler ends, if a call of nginx that succeeds changes nothing of
  -- the request but adding headers. In the on mode it settles Vary first, whoever asks: it sets
  -- `gzip_vary`, and pushes the line where core's flag is off and no live line names Accept-Encoding;
  -- if the push fails it answers 500. Then it declines with nothing else changed, unless the request
  -- is a main one whose field gives br a weight above zero; for that gzip is latched as tested and not
  -- acceptable, and it is served. The always mode serves every request. Serving ends with the code of
  -- discarding the request's body, with 500 where one of the two calls for ETag and the type or one of
  -- three allocations fails, or with the response: 200, the file's size and time, and
  -- Content-Encoding: br behind the other headers; the header alone for HEAD, and otherwise the whole
  -- file behind it, unless that stopped with an error or leaves the header alone.
  pub handler-usable :
      Keeps server
      → (mode : Mode) (r : Request) (path : Bytes) (file : FileInfo)
      → probe server mode r ≡ usable path file
      → (x : Code × Request) × (handler server mode r ≡ some x) × Answers mode path file r x
  unfolding handler
  handler-usable keeps off r path file e = absurd (subst IsStop e (probe_off r))
  handler-usable keeps on r path file e =
      let (q, w, _) = request_coding_weight_total (codes "br") true r.accept_encoding in
      let varied = with_vary server.gzip_vary r in
      (
        answer path file (r.is_main && is_positive q) varied,
        ap (respond server on r) e ∙ respond-on r path file q w,
        (q, w, answer-Answered keeps path file r q varied),
      )
  handler-usable keeps always r path file e = (
    serve server path file r,
    ap (respond server always r) e,
    serve-Outcome path file server keeps r,
  )

  respond_total :
      (mode : Mode) (r : Request) (p : Probe)
      → (x : Code × Request) × (respond server mode r p ≡ some x)
  respond_total mode r (stop code) = ((code, r), refl)
  respond_total off r (usable path file) = (serve server path file r, refl)
  respond_total always r (usable path file) = (serve server path file r, refl)
  respond_total on r (usable path file) =
      let (q, w, _) = request_coding_weight_total (codes "br") true r.accept_encoding in
      (
        answer path file (r.is_main && is_positive q) (with_vary server.gzip_vary r),
        respond-on r path file q w,
      )

  -- For every mode and request the handler answers: no loop in it runs out of fuel.
  pub handler_total :
      (mode : Mode) (r : Request) → (x : Code × Request) × (handler server mode r ≡ some x)
  unfolding handler
  handler_total mode r = respond_total mode r (probe server mode r)
