-- ===== src/Request/Accepts.antt =====
-- `ngx_http_brotli_accepts` and `ngx_http_brotli_ok` decided by the field's weight.
use mathlib.Core.Bool.{false≢true}
use ngx_brotli.Base.{
  ◌<◌, ◌⊎◌, inl, inr, ap, ◌∙◌, zero, suc, arith, none, ltb, Bool, ℕ, ◌≡◌, refl, true, false, ◌&&◌,
  not, Option, some, if◌then◌else◌, codes, ◌>>=◌,
}
use ngx_brotli.AcceptEncoding.LinesEnd.{request_coding_weight_total}
use ngx_brotli.AcceptEncoding.ParamsEnd.{IsMilli}
use ngx_brotli.AcceptEncoding.Walk.{request_coding_weight, is_positive}
use ngx_brotli.Request.{Request, accepts, brotli_ok, latch_gzip_off}

pub accepts-is_main :
    (r : Request) (q : Option ℕ)
    → request_coding_weight (codes "br") true r.accept_encoding ≡ some q
    → accepts r ≡ some (r.is_main && is_positive q)
unfolding accepts
accepts-is_main r q e =
    elim r.is_main
      as (λ b.
        (if not b
          then some false
          else (request_coding_weight (codes "br") true r.accept_encoding >>= λ q.
              some (is_positive q)))
        ≡ some (b && is_positive q)) [ true ↦ rw (e) refl | false ↦ refl ]

pub brotli_ok-is_main :
    (r : Request)
    → (q : Option ℕ) × (request_coding_weight (codes "br") true r.accept_encoding ≡ some q)
      × IsMilli q
      × (brotli_ok r
          ≡ some (if r.is_main && is_positive q then (true, latch_gzip_off r) else (false, r)))
unfolding brotli_ok
brotli_ok-is_main r =
    let (q, e, h) = request_coding_weight_total (codes "br") true r.accept_encoding in
    (q, e, h, rw (accepts-is_main r q e) refl)

-- A weight that accepts.
abbrev pub Positive : Option ℕ → Type 0
Positive none = ⊥
Positive (some q) = 0 < q

abbrev pub Acceptable : Request → Option ℕ → Type 0
Acceptable r q = (r.is_main ≡ true) × Positive q

pub Acceptable-cases :
    (r : Request) (q : Option ℕ)
    → (Acceptable r q × ((r.is_main && is_positive q) ≡ true))
      ⊎ ((¬ (Acceptable r q)) × ((r.is_main && is_positive q) ≡ false))
Acceptable-cases r q = by_main r.is_main q
  where
    by_main :
        (main : Bool) (q : Option ℕ)
        → (((main ≡ true) × Positive q) × ((main && is_positive q) ≡ true))
          ⊎ ((¬ ((main ≡ true) × Positive q)) × ((main && is_positive q) ≡ false))
    by_main false q = inr (λ h. false≢true h.0, refl)
    by_main true none = inr (λ h. h.1, refl)
    by_main true (some zero) = inr (λ h. omega (arith, h.1), refl)
    by_main true (some (suc q)) =
        let above : ltb 0 (suc q) ≡ true = ground arith in inl ((refl, omega arith), above)

-- For every request the test ends: a main request whose field gives "br" a weight above zero is
-- accepted, with gzip tested and found not acceptable; any other is declined and left as it was.
pub brotli_ok_total :
    (r : Request)
    → (q : Option ℕ) × (request_coding_weight (codes "br") true r.accept_encoding ≡ some q)
      × IsMilli q
      × ((Acceptable r q
            × (brotli_ok r ≡ some (true, record r { gzip_tested = true; gzip_ok = false })))
          ⊎ ((¬ (Acceptable r q)) × (brotli_ok r ≡ some (false, r))))
brotli_ok_total r =
    let (q, e, h, f) = brotli_ok-is_main r in
    let latched = λ (b : Bool). some (if b then (true, latch_gzip_off r) else (false, r)) in
    (
      q,
      e,
      h,
      elim (Acceptable-cases r q) [
        | inl (a, t) ↦ inl (a, f ∙ ap latched t)
        | inr (n, t) ↦ inr (n, f ∙ ap latched t)
      ],
    )
