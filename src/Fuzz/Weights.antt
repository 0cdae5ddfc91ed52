-- ===== src/Fuzz/Weights.antt =====
-- The weight of an element: the oracle's parameter loop against `ngx_http_brotli_eval_qvalue` and
-- the walker's way to the next comma.
use ngx_brotli.Base.{
  ℕ, zero, suc, ◌≡◌, refl, ◌∙◌, Bool, true, false, Bytes, [], ◌∷◌, Option, none, some, arith, ◌==◌,
  length, ◌⊎◌, inl, inr, Bool-cases, Option-cases,
}
use ngx_brotli.AcceptEncoding.Scan.{at_end_or, skip_to, skip_fuel}
use ngx_brotli.AcceptEncoding.Qvalue.{
  Verdict, well_formed, ends_value, past_semicolon, param, params_fuel, eval_qvalue, initial_params,
}
use ngx_brotli.AcceptEncoding.Walk.{is_comma, element_weight}
use ngx_brotli.Fuzz.Oracle.{Reading, Turn, goes_on, breaks, parameter, parameters, after_turn}
use ngx_brotli.Fuzz.Quiet.{skip_to_comma-Rests}
use ngx_brotli.Fuzz.Values.{IfSure, IfSure-bind, IfSure-imp}
use ngx_brotli.Fuzz.Parameters.{params_of, SameNames, GivenUp, Agrees, parameter-Agrees}

-- If the element ends behind the oracle's parameters, the walker has read the same, or both give up.
abbrev LoopAgrees : Reading → Option Verdict → Reading → Type 0
LoopAgrees s o s' =
    at_end_or is_comma s'.p ≡ true
    → ((o ≡ some (well_formed (params_of s'))) × SameNames s s') ⊎ GivenUp s' o

at_comma-ends_value : (p : Bytes) → at_end_or is_comma p ≡ true → at_end_or ends_value p ≡ true
at_comma-ends_value [] h = refl
at_comma-ends_value (c ∷ cs) h = ground arith

past_semicolon-ends : (p : Bytes) → at_end_or ends_value p ≡ false → past_semicolon p ≡ none
past_semicolon-ends [] h = refl
past_semicolon-ends (c ∷ cs) h = ground arith

-- Where no parameter may follow, the oracle's loop stops, and the element does not end there.
stopped-LoopAgrees :
    (n : ℕ) (s t : Reading) (o : Option Verdict)
    → at_end_or ends_value t.p ≡ false
    → IfSure (LoopAgrees s o) (parameters n t)
unfolding parameters
stopped-LoopAgrees zero s t o h = tt
stopped-LoopAgrees (suc n) s t o h =
    rw (past_semicolon-ends t.p h, parameters) (λ e. absurd (cc (h, at_comma-ends_value t.p e)))

through :
    (s s' r : Reading) (o : Option Verdict)
    → SameNames s s'
    → ((o ≡ some (well_formed (params_of r))) × SameNames s' r) ⊎ GivenUp r o
    → ((o ≡ some (well_formed (params_of r))) × SameNames s r) ⊎ GivenUp r o
through s s' r o (b, t) (inl (e, (b', t'))) = inl (e, (b' ∙ b, t' ∙ t))
through s s' r o same (inr g) = inr g

after_turn-LoopAgrees :
    (n : ℕ) (s : Reading) (p : Bytes) (turn : Turn)
    → past_semicolon s.p ≡ some p
    → ((t : Reading) → IfSure (LoopAgrees t (params_fuel n (params_of t))) (parameters n t))
    → Agrees (record s { p = p }) (param (params_of (record s { p = p }))) turn
    → IfSure (LoopAgrees s (params_fuel (suc n) (params_of s))) (after_turn (parameters n) turn)
unfolding params_fuel
after_turn-LoopAgrees n s p (breaks s') e ih (m, f, q, g, b, t) =
    λ h. inr (m, rw (e, params_fuel, f) refl, q, g, b, t)
after_turn-LoopAgrees n s p (goes_on s') e ih k = elim (Bool-cases (at_end_or ends_value s'.p)) [
  | inr f ↦ stopped-LoopAgrees n s s' _ f
  | inl f ↦
      let (g, same) = k f in
      let step : params_fuel (suc n) (params_of s) ≡ params_fuel n (params_of s') =
        rw (e, params_fuel, g) in
      IfSure-imp _ _ (parameters n s') (ih s')
        (λ r l h. rw step (through s s' r (params_fuel n (params_of s')) same (l h)))
]

parameters-LoopAgrees :
    (n : ℕ) (s : Reading) → IfSure (LoopAgrees s (params_fuel n (params_of s))) (parameters n s)
unfolding parameters
parameters-LoopAgrees zero s = tt
parameters-LoopAgrees (suc n) s = elim (Option-cases (past_semicolon s.p)) [
  | inl e ↦ rw (e, parameters) (λ h. inl (unfold params_fuel in rw (e, params_fuel), (refl, refl)))
  | inr (p, e) ↦
      let sp = record s { p = p } in
      rw (e, parameters)
        (IfSure-bind (Agrees sp (param (params_of sp))) _ (parameter sp) _ (parameter-Agrees sp)
          (λ turn k. after_turn-LoopAgrees n s p turn e (parameters-LoopAgrees n) k))
]

-- At the comma or the end the walker's scan stays.
skip_to-here : (p : Bytes) → at_end_or is_comma p ≡ true → skip_to is_comma p ≡ some p
unfolding skip_to skip_fuel
skip_to-here [] h = refl
skip_to-here (c ∷ cs) h = rw h

-- What the walker makes of the element where the oracle's parameters end it.
pub record Weighed (s s' : Reading) (o : Option (Option ℕ × Bytes)) : Type 0 where
  pub result : Option ℕ × Bytes
  pub returns : o ≡ some result
  pub lands : skip_to is_comma result.1 ≡ some s'.p
  pub weighs :
      ((result.0 ≡ some s'.q) × SameNames s s')
      ⊎ ((result.0 ≡ none) × (s'.is_br ≡ false) × (s'.is_star ≡ false))

eval_qvalue-Weighed :
    (p : Bytes) (s s' : Reading) (o : Option Verdict)
    → params_fuel (suc (length p)) (initial_params p) ≡ o
    → at_end_or is_comma s'.p ≡ true
    → ((o ≡ some (well_formed (params_of s'))) × SameNames s s') ⊎ GivenUp s' o
    → Weighed s s' (eval_qvalue p)
unfolding eval_qvalue
eval_qvalue-Weighed p s s' o e h (inl (f, same)) = record {
  result = (some s'.q, s'.p);
  returns = rw (e, f);
  lands = skip_to-here s'.p h;
  weighs = inl (refl, same);
}
eval_qvalue-Weighed p s s' o e h (inr (m, f, q, g, b, t)) = record {
  result = (none, m.p);
  returns = rw (e, f, q);
  lands = skip_to_comma-Rests s'.p m.p g;
  weighs = inr (refl, b, t);
}

-- The variables before the first parameter, at `p`.
abbrev pub fresh : Bytes → Bool → Bool → Reading
fresh p br star = record { p = p; q = 1000; q_seen = false; is_br = br; is_star = star }

-- The oracle's parameters of an element, and what the walker makes of them.
pub parameters-Weighed :
    (p : Bytes) (br star : Bool)
    → at_end_or ends_value p ≡ true
    → IfSure
        (λ s'. at_end_or is_comma s'.p ≡ true → Weighed (fresh p br star) s' (element_weight p))
        (parameters (suc (length p)) (fresh p br star))
unfolding element_weight
parameters-Weighed [] br star h =
    unfold parameters in
    λ k. record {
      result = (some 1000, []);
      returns = refl;
      lands = skip_to-here [] refl;
      weighs = inl (refl, (refl, refl));
    }
parameters-Weighed (c ∷ cs) br star h = elim (Bool-cases (c == b';')) [
  | inl e ↦
      let s = fresh (c ∷ cs) br star in
      rw e (
        IfSure-imp _ _ (parameters (suc (length (c ∷ cs))) s)
          (parameters-LoopAgrees (suc (length (c ∷ cs))) s)
          (λ s' l k. eval_qvalue-Weighed (c ∷ cs) s s' _ refl k (l k)))
  | inr e ↦
      unfold parameters in
      rw (e, parameters)
        (λ k. record {
          result = (some 1000, c ∷ cs);
          returns = refl;
          lands = skip_to-here (c ∷ cs) k;
          weighs = inl (refl, (refl, refl));
        })
]
