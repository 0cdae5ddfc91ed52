-- ===== src/Fuzz/QuietParams.antt =====
-- On bytes with no DQUOTE before the next comma the walker's parameters leave the cursor before that
-- comma, well-formed or not.
use ngx_brotli.Base.{
  ℕ, zero, suc, ◌≡◌, refl, Bool, true, false, Bytes, [], ◌∷◌, Option, none, some, arith, ◌==◌, leb,
  ◌&&◌, length, inl, inr, Bool-cases, Option-cases, drop_while, if_cases, subst, >>=-some,
}
use mathlib.Core.Option.{some-injective}
use ngx_brotli.AcceptEncoding.Scan.{is_ows, at_end_or}
use ngx_brotli.AcceptEncoding.Walk.{element_weight}
use ngx_brotli.AcceptEncoding.Qvalue.{
  Params, Verdict, malformed, well_formed, add_digit, fraction, skip_zeros, after_zero, after_one,
  with_digits, ends_value, ends_qvalue, after_param, no_value, past_semicolon, named_param,
  in_param_name, is_q_name, qvalue, param_value, param_rest, param, params_fuel, eval_qvalue,
  initial_params, weight_of,
}
use ngx_brotli.Fuzz.Quiet.{Rests, Rests-tail, drop_while-Rests, skip_to-Rests}

module _ (r : Bytes) where
  abbrev Stays : Verdict → Type 0
  Stays (malformed s) = Rests r s.p
  Stays (well_formed s) = Rests r s.p

  abbrev StaysIf : Option Verdict → Type 0
  StaysIf none = Unit
  StaysIf (some v) = Stays v

  after_param-Stays : (s : Params) → Rests r s.p → Stays (after_param s)
  unfolding after_param
  after_param-Stays s h =
      let k = drop_while-Rests is_ows refl r s.p h in
      if_cases Stays (at_end_or ends_value (drop_while is_ows s.p)) _ _ (λ e. k) (λ e. k)

  add_digit-Rests : (k q : ℕ) (p : Bytes) → Rests r p → Rests r (add_digit k (q, p)).1
  add_digit-Rests k q [] h = h
  add_digit-Rests k q (c ∷ cs) h =
      if_cases (λ (t : ℕ × Bytes). Rests r t.1) (leb b'0' c && leb c b'9') _ _
        (λ e. Rests-tail r c cs (ground arith) h) (λ e. h)

  fraction-Rests : (p : Bytes) → Rests r p → Rests r (fraction p).1
  fraction-Rests p h =
      let a = add_digit 100 (0, p) in
      let b = add_digit 10 a in
      add_digit-Rests 1 b.0 b.1 (add_digit-Rests 10 a.0 a.1 (add_digit-Rests 100 0 p h))

  skip_zeros-Rests : (k : ℕ) (p : Bytes) → Rests r p → Rests r (skip_zeros k p)
  skip_zeros-Rests zero p h = h
  skip_zeros-Rests (suc k) [] h = h
  skip_zeros-Rests (suc k) (c ∷ cs) h =
      if_cases (Rests r) (c == b'0') _ _
        (λ e. skip_zeros-Rests k cs (Rests-tail r c cs (ground arith) h)) (λ e. h)

  after_zero-Rests : (p : Bytes) → Rests r p → Rests r (after_zero p).1
  after_zero-Rests [] h = h
  after_zero-Rests (c ∷ cs) h =
      if_cases (λ (t : ℕ × Bytes). Rests r t.1) (c == b'.') _ _
        (λ e. fraction-Rests cs (Rests-tail r c cs (ground arith) h)) (λ e. h)

  after_one-Rests : (p : Bytes) → Rests r p → Rests r (after_one p).1
  after_one-Rests [] h = h
  after_one-Rests (c ∷ cs) h =
      if_cases (Rests r) (c == b'.') _ _
        (λ e. skip_zeros-Rests 3 cs (Rests-tail r c cs (ground arith) h)) (λ e. h)

  with_digits-Stays : (s : Params) (t : ℕ × Bytes) → Rests r t.1 → Stays (with_digits s t)
  with_digits-Stays s (q, p) h =
      if_cases Stays (at_end_or ends_qvalue p) (after_param (record s { q = q; p = p }))
        (malformed (record s { q = q; p = p }))
        (λ e. after_param-Stays (record s { q = q; p = p }) h) (λ e. h)

  qvalue-Stays : (s : Params) (p : Bytes) → Rests r s.p → Rests r p → Stays (qvalue s p)
  unfolding qvalue
  qvalue-Stays s [] k h = k
  qvalue-Stays s (c ∷ cs) k h =
      if_cases Stays (c == b'0') _ _
        (λ e. with_digits-Stays s _ (after_zero-Rests cs (Rests-tail r c cs (ground arith) h)))
        (λ e.
          if_cases Stays (c == b'1') _ _
            (λ f. with_digits-Stays s _ (after_one-Rests cs (Rests-tail r c cs (ground arith) h)))
            (λ f. k))

  param_value-Stays : (is_q : Bool) (s : Params) → Rests r s.p → StaysIf (param_value is_q s)
  unfolding param_value
  param_value-Stays true s h =
      if_cases Stays s.q_seen _ _ (λ e. h) (λ e. qvalue-Stays (record s { q_seen = true }) s.p h h)
  param_value-Stays false s h =
      let (p, e, k) = skip_to-Rests ends_value refl r s.p h in
      rw e (after_param-Stays (record s { p = p }) k)

  no_value-Stays : (is_q : Bool) (s : Params) → Rests r s.p → Stays (no_value is_q s)
  no_value-Stays true s h = h
  no_value-Stays false s h = after_param-Stays s h

  param_rest-Stays :
      (is_q : Bool) (s : Params) (p : Bytes)
      → Rests r s.p
      → Rests r p
      → StaysIf (param_rest is_q s p)
  unfolding param_rest
  param_rest-Stays is_q s [] k h = no_value-Stays is_q s k
  param_rest-Stays is_q s (c ∷ cs) k h =
      if_cases StaysIf (c == b'=') _ _
        (λ e.
          param_value-Stays is_q (record s { p = drop_while is_ows cs })
            (drop_while-Rests is_ows refl r cs (Rests-tail r c cs (ground arith) h)))
        (λ e. no_value-Stays is_q s k)

  named_param-Stays : (name : Bytes) (s : Params) → Rests r s.p → StaysIf (named_param name s)
  named_param-Stays [] s h = h
  named_param-Stays (c ∷ cs) s h =
      let k = drop_while-Rests is_ows refl r s.p h in
      param_rest-Stays (is_q_name (c ∷ cs)) (record s { p = drop_while is_ows s.p }) _ k k

  param-Stays : (s : Params) → Rests r s.p → StaysIf (param s)
  unfolding param
  param-Stays s h =
      named_param-Stays _ _
        (drop_while-Rests in_param_name refl r _ (drop_while-Rests is_ows refl r s.p h))

  past_semicolon-Rests : (p p' : Bytes) → past_semicolon p ≡ some p' → Rests r p → Rests r p'
  past_semicolon-Rests [] p' e h = cc
  past_semicolon-Rests (c ∷ cs) p' e h =
      let same : cs ≡ p' = ground arith in rw (← same) (Rests-tail r c cs (ground arith) h)

  params_fuel-Stays : (n : ℕ) (s : Params) → Rests r s.p → StaysIf (params_fuel n s)
  unfolding params_fuel
  params_fuel-Stays zero s h = tt
  params_fuel-Stays (suc n) s h = elim (Option-cases (past_semicolon s.p)) [
    | inl e ↦ rw (e, params_fuel) h
    | inr (p, e) ↦
        rw (e, params_fuel)
          (after-Stays (params_fuel n) (param (record s { p = p }))
            (param-Stays (record s { p = p }) (past_semicolon-Rests s.p p e h))
            (params_fuel-Stays n))
  ]
    where
      after-Stays :
          (rounds : Params → Option Verdict) (o : Option Verdict)
          → StaysIf o
          → ((s' : Params) → Rests r s'.p → StaysIf (rounds s'))
          → StaysIf (elim o [
            | none ↦ none
            | some v ↦ elim v [ malformed s' ↦ some (malformed s') | well_formed s' ↦ rounds s' ]
          ])
      after-Stays rounds none h ih = tt
      after-Stays rounds (some (malformed s')) h ih = h
      after-Stays rounds (some (well_formed s')) h ih = ih s' h

  -- The cursor behind an element's parameters.
  weight_of-Rests : (p : Bytes) (v : Verdict) → Rests r p → Stays v → Rests r (weight_of p v).1
  weight_of-Rests p (malformed s) h k = if_cases (Rests r) s.quoted_name _ _ (λ e. h) (λ e. k)
  weight_of-Rests p (well_formed s) h k = if_cases (Rests r) s.quoted_name _ _ (λ e. h) (λ e. k)

  eval_qvalue-Rests :
      (p : Bytes) (t : Option ℕ × Bytes) → eval_qvalue p ≡ some t → Rests r p → Rests r t.1
  unfolding eval_qvalue
  eval_qvalue-Rests p t e h =
      let (v, f, g) = >>=-some (params_fuel (suc (length p)) (initial_params p)) _ t e in
      let k = subst StaysIf f (params_fuel-Stays (suc (length p)) (initial_params p) h) in
      subst (λ (u : Option ℕ × Bytes). Rests r u.1) (some-injective _ _ g) (weight_of-Rests p v h k)

  pub element_weight-Rests :
      (p : Bytes) (t : Option ℕ × Bytes) → element_weight p ≡ some t → Rests r p → Rests r t.1
  unfolding element_weight
  element_weight-Rests [] t e h =
      subst (λ (u : Option ℕ × Bytes). Rests r u.1) (some-injective _ _ e) h
  element_weight-Rests (c ∷ cs) t e h = elim (Bool-cases (c == b';')) [
    | inl f ↦ eval_qvalue-Rests (c ∷ cs) t (rw f at e) h
    | inr f ↦ subst (λ (u : Option ℕ × Bytes). Rests r u.1) (some-injective _ _ (rw f at e)) h
  ]
