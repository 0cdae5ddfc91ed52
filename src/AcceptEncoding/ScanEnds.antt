-- ===== src/AcceptEncoding/ScanEnds.antt =====
-- The scans of the Accept-Encoding walker end on every byte string.
use ngx_brotli.Base.{
  ℕ, zero, suc, ◌≤◌, ◌<◌, ◌≡◌, refl, Bool, true, false, Bytes, [], ◌∷◌, Option, some, arith, length,
  inl, inr, Bool-cases,
}
use ngx_brotli.AcceptEncoding.Scan.{in_quote, step_over, skip_fuel, skip_to, at_end_or}

pub length-in_quote-le : (p : Bytes) → length (in_quote p) ≤ length p
unfolding in_quote
length-in_quote-le [] = omega arith
length-in_quote-le (c ∷ []) = ground arith
length-in_quote-le (c ∷ d ∷ ds) = ground (arith, length-in_quote-le ds, length-in_quote-le (d ∷ ds))

length-step_over-le : (c : ℕ) (cs : Bytes) → length (step_over c cs) ≤ length cs
unfolding step_over
length-step_over-le c cs = ground (arith, length-in_quote-le cs)

-- What a scan to a delimiter promises: it ends at the delimiter or at the end, and never behind.
pub record Reaches (stop : ℕ → Bool) (p : Bytes) (result : Option Bytes) : Type 0 where
  pub rest : Bytes
  pub returns : result ≡ some rest
  pub stops : at_end_or stop rest ≡ true
  pub shorter : length rest ≤ length p

skip_fuel-Reaches :
    (n : ℕ) (stop : ℕ → Bool) (p : Bytes) → length p < n → Reaches stop p (skip_fuel n stop p)
unfolding skip_fuel
skip_fuel-Reaches zero stop p h = absurd (omega arith)
skip_fuel-Reaches (suc n) stop [] h = record {
  rest = [];
  returns = refl;
  stops = refl;
  shorter = omega arith;
}
skip_fuel-Reaches (suc n) stop (c ∷ cs) h = elim (Bool-cases (stop c)) [
  | inl e ↦ record { rest = c ∷ cs; returns = rw e; stops = e; shorter = omega arith }
  | inr e ↦
      let r = skip_fuel-Reaches n stop (step_over c cs) (omega (arith, length-step_over-le c cs)) in
      record {
        rest = r.rest;
        returns = rw e r.returns;
        stops = r.stops;
        shorter = omega (arith, r.shorter, length-step_over-le c cs);
      }
]

pub skip_to-Reaches : (stop : ℕ → Bool) (p : Bytes) → Reaches stop p (skip_to stop p)
unfolding skip_to
skip_to-Reaches stop p = skip_fuel-Reaches (suc (length p)) stop p (omega arith)

-- From a byte that is no delimiter the scan moves on.
pub skip_to-shorter :
    (stop : ℕ → Bool) (p : Bytes)
    → at_end_or stop p ≡ false
    → (r : Reaches stop p (skip_to stop p)) → length r.rest < length p
unfolding skip_to skip_fuel
skip_to-shorter stop [] e r = absurd (cc)
skip_to-shorter stop (c ∷ cs) e r =
    let s =
      skip_fuel-Reaches (suc (length cs)) stop (step_over c cs)
        (omega (arith, length-step_over-le c cs)) in
    let same : r.rest ≡ s.rest = cc (r.returns, s.returns, e) in
    rw same (omega (arith, s.shorter, length-step_over-le c cs))
