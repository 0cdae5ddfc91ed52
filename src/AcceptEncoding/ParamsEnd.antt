-- ===== src/AcceptEncoding/ParamsEnd.antt =====
-- The parameter loop of the Accept-Encoding walker ends on every byte string.
use ngx_brotli.Base.{
  ℕ, zero, suc, ◌+◌, ◌-◌, ◌*◌, ◌≤◌, ◌<◌, ◌≡◌, refl, Bool, true, false, Bytes, [], ◌∷◌, Option, none,
  some, arith, ◌==◌, length, ◌⊎◌, inl, inr, Bool-cases, Option-cases, drop_while, take_while,
  length-drop_while-le,
}
use native.Mathlib.Nat.{mul-le-mul_right}
use ngx_brotli.AcceptEncoding.ScanEnds.{skip_to-Reaches}
use ngx_brotli.AcceptEncoding.Scan.{is_ows}
use ngx_brotli.AcceptEncoding.Qvalue.{
  Params, Verdict, malformed, well_formed, add_digit, fraction, skip_zeros, after_zero, after_one,
  after_digits, with_digits, ends_value, after_param, no_value, past_semicolon, named_param,
  in_param_name, is_q_name, qvalue, param_value, param_rest, param, params_fuel, eval_qvalue,
  initial_params, cursor_after,
}

-- A verdict leaves at most `n` bytes, and a weight in milli-units.
abbrev Fits : ℕ → Verdict → Type 0
Fits n (malformed s) = length s.p ≤ n
Fits n (well_formed s) = (length s.p ≤ n) × (s.q ≤ 1000)

after_param-Fits : (n : ℕ) (s : Params) → length s.p ≤ n → s.q ≤ 1000 → Fits n (after_param s)
unfolding after_param
after_param-Fits n s h b = ground (arith, length-drop_while-le is_ows s.p)

digit_mul-le : (c k : ℕ) → c ≤ b'9' → (c - b'0') * k ≤ 9 * k
digit_mul-le c k h = let d : c - b'0' ≤ 9 = omega arith in mul-le-mul_right k d

add_digit-le :
    (k q : ℕ) (p : Bytes)
    → ((add_digit k (q, p)).0 ≤ q + 9 * k) × (length (add_digit k (q, p)).1 ≤ length p)
add_digit-le k q [] = omega arith
add_digit-le k q (c ∷ cs) = ground (arith, digit_mul-le c k)

fraction-le : (p : Bytes) → ((fraction p).0 ≤ 999) × (length (fraction p).1 ≤ length p)
fraction-le p =
    let a = add_digit 100 (0, p) in
    let b = add_digit 10 a in
    omega (arith, add_digit-le 100 0 p, add_digit-le 10 a.0 a.1, add_digit-le 1 b.0 b.1)

length-skip_zeros-le : (k : ℕ) (p : Bytes) → length (skip_zeros k p) ≤ length p
length-skip_zeros-le zero p = omega arith
length-skip_zeros-le (suc k) [] = omega arith
length-skip_zeros-le (suc k) (c ∷ cs) = ground (arith, length-skip_zeros-le k cs)

after_digits-Fits : (n : ℕ) (s : Params) → length s.p ≤ n → s.q ≤ 1000 → Fits n (after_digits s)
after_digits-Fits n s h b = ground (arith, after_param-Fits n s)

after_zero-le : (p : Bytes) → ((after_zero p).0 ≤ 1000) × (length (after_zero p).1 ≤ length p)
after_zero-le [] = omega arith
after_zero-le (c ∷ cs) = elim (Bool-cases (c == b'.')) [
  | inl e ↦ rw e (omega (arith, fraction-le cs))
  | inr e ↦ rw e (omega arith)
]

after_one-le : (p : Bytes) → ((after_one p).0 ≤ 1000) × (length (after_one p).1 ≤ length p)
after_one-le [] = omega arith
after_one-le (c ∷ cs) = elim (Bool-cases (c == b'.')) [
  | inl e ↦ rw e (omega (arith, length-skip_zeros-le 3 cs))
  | inr e ↦ rw e (omega arith)
]

with_digits-Fits :
    (n : ℕ) (s : Params) (r : ℕ × Bytes) → r.0 ≤ 1000 → length r.1 ≤ n → Fits n (with_digits s r)
with_digits-Fits n s (q, p) b h = after_digits-Fits n (record s { q = q; p = p }) h b

qvalue-Fits : (n : ℕ) (s : Params) (p : Bytes) → length s.p ≤ n → length p ≤ n → Fits n (qvalue s p)
unfolding qvalue
qvalue-Fits n s [] k h = k
qvalue-Fits n s (c ∷ cs) k h =
    let z =
      with_digits-Fits n s (after_zero cs) (after_zero-le cs).0 (omega (arith, after_zero-le cs)) in
    let o =
      with_digits-Fits n s (after_one cs) (after_one-le cs).0 (omega (arith, after_one-le cs)) in
    elim (Bool-cases (c == b'0')) [
      | inl e ↦ rw e z
      | inr e ↦ elim (Bool-cases (c == b'1')) [ inl f ↦ rw (e, f) o | inr f ↦ rw (e, f) k ]
    ]

-- A weight, if there is one, is in milli-units.
abbrev pub IsMilli : Option ℕ → Type 0
IsMilli none = Unit
IsMilli (some q) = q ≤ 1000

-- A step of the parameter loop ends, with a verdict that fits.
abbrev Ends : ℕ → Option Verdict → Type 0
Ends n r = (v : Verdict) × (r ≡ some v) × Fits n v

param_value-Ends :
    (is_q : Bool) (n : ℕ) (s : Params) → length s.p ≤ n → s.q ≤ 1000 → Ends n (param_value is_q s)
unfolding param_value
param_value-Ends true n s h b =
    (_, refl, ground (arith, qvalue-Fits n (record s { q_seen = true }) s.p))
param_value-Ends false n s h b =
    let r = skip_to-Reaches ends_value s.p in
    (
      after_param (record s { p = r.rest }),
      rw r.returns,
      after_param-Fits n _ (omega (arith, r.shorter)) b,
    )

no_value-Fits :
    (is_q : Bool) (n : ℕ) (s : Params) → length s.p ≤ n → s.q ≤ 1000 → Fits n (no_value is_q s)
no_value-Fits true n s h b = h
no_value-Fits false n s h b = after_param-Fits n s h b

param_rest-Ends :
    (is_q : Bool) (n : ℕ) (s : Params) (p : Bytes)
    → length s.p ≤ n
    → length p ≤ n
    → s.q ≤ 1000
    → Ends n (param_rest is_q s p)
unfolding param_rest
param_rest-Ends is_q n s [] h k b = (_, refl, no_value-Fits is_q n s h b)
param_rest-Ends is_q n s (c ∷ cs) h k b = elim (Bool-cases (c == b'=')) [
  | inl e ↦ rw e (
      param_value-Ends is_q n (record s { p = drop_while is_ows cs })
        (omega (arith, length-drop_while-le is_ows cs)) b)
  | inr e ↦ rw e (_, refl, no_value-Fits is_q n s h b)
]

named_param-Ends :
    (name : Bytes) (n : ℕ) (s : Params) → length s.p ≤ n → s.q ≤ 1000 → Ends n (named_param name s)
named_param-Ends [] n s h b = (_, refl, h)
named_param-Ends (c ∷ cs) n s h b =
    let k = length-drop_while-le is_ows s.p in
    param_rest-Ends (is_q_name (c ∷ cs)) n _ _ (omega (arith, k)) (omega (arith, k)) b

param-Ends : (s : Params) → s.q ≤ 1000 → Ends (length s.p) (param s)
unfolding param
param-Ends s b =
    let start = drop_while is_ows s.p in
    named_param-Ends (take_while in_param_name start) (length s.p) _
      (omega (arith, length-drop_while-le is_ows s.p, length-drop_while-le in_param_name start)) b

past_semicolon-shorter : (p r : Bytes) → past_semicolon p ≡ some r → suc (length r) ≡ length p
past_semicolon-shorter [] r e = cc
past_semicolon-shorter (c ∷ cs) r e = ground arith

Fits-mono : {m n : ℕ} (v : Verdict) → m ≤ n → Fits m v → Fits n v
Fits-mono (malformed s) h f = omega arith
Fits-mono (well_formed s) h f = omega arith

-- The loop behind one parameter's verdict.
params_next-Ends :
    (n : ℕ) (s : Params) (p : Bytes)
    → past_semicolon s.p ≡ some p
    → length s.p < suc n
    → (v : Verdict) → param (record s { p = p }) ≡ some v
    → Fits (length p) v
    → ((s' : Params) → length s'.p < n → s'.q ≤ 1000 → Ends (length s'.p) (params_fuel n s'))
    → Ends (length p) (params_fuel (suc n) s)
unfolding params_fuel
params_next-Ends n s p e h (malformed s') f fits ih = (malformed s', rw (e, f, params_fuel), fits)
params_next-Ends n s p e h (well_formed s') f fits ih =
    let shorter = past_semicolon-shorter s.p p e in
    let (v, r, g) = ih s' (omega arith) fits.1 in
    (v, rw (e, f, params_fuel) r, Fits-mono v fits.0 g)

params_fuel-Ends :
    (n : ℕ) (s : Params) → length s.p < n → s.q ≤ 1000 → Ends (length s.p) (params_fuel n s)
params_fuel-Ends zero s h b = absurd (omega arith)
params_fuel-Ends (suc n) s h b = elim (Option-cases (past_semicolon s.p)) [
  | inl e ↦ (well_formed s, unfold params_fuel in rw (e, params_fuel), (omega arith, b))
  | inr (p, e) ↦
      let (v, f, fits) = param-Ends (record s { p = p }) b in
      let (v', r, g) = params_next-Ends n s p e h v f fits (params_fuel-Ends n) in
      (v', r, Fits-mono v' (omega (arith, past_semicolon-shorter s.p p e)) g)
]

-- `eval_qvalue` ends, with a weight in milli-units; at its ';' it leaves its caller's cursor where
-- it was, or behind that byte.
pub eval_qvalue_total :
    (cs : Bytes)
    → (q : Option ℕ) × (p : Bytes) × (eval_qvalue (b';' ∷ cs) ≡ some (q, p))
      × IsMilli q
      × ((p ≡ b';' ∷ cs) ⊎ (length p ≤ length cs))
unfolding eval_qvalue
eval_qvalue_total cs =
    let s = initial_params (b';' ∷ cs) in
    let (v, f, fits) = param-Ends (record s { p = cs }) (omega arith) in
    let n = suc (length cs) in
    let (v', r, g) = params_next-Ends n s cs refl (omega arith) v f fits (params_fuel-Ends n) in
    finish v' r g
  where
    finish :
        (v : Verdict)
        → params_fuel (suc (length (b';' ∷ cs))) (initial_params (b';' ∷ cs)) ≡ some v
        → Fits (length cs) v
        → (q : Option ℕ) × (p : Bytes) × (eval_qvalue (b';' ∷ cs) ≡ some (q, p))
          × IsMilli q
          × ((p ≡ b';' ∷ cs) ⊎ (length p ≤ length cs))
    finish (malformed s) r g = (none, cursor_after (b';' ∷ cs) s, rw r, tt, ground arith)
    finish (well_formed s) r g = (some s.q, cursor_after (b';' ∷ cs) s, rw r, g.1, ground arith)
