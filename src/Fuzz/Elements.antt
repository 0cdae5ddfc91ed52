-- ===== src/Fuzz/Elements.antt =====
-- Where the oracle is sure of an element that starts with a token, the walker gives it the same
-- weight and comes to the same next element.
use ngx_brotli.Base.{
  ℕ, suc, ◌≡◌, refl, ap, subst, ◌∙◌, Bool, true, false, Bytes, [], ◌∷◌, Option, none, some, arith,
  ◌==◌, length, ◌⊎◌, inl, inr, Bool-cases, drop_while, take_while, if_cases, All, codes,
}
use ngx_brotli.AcceptEncoding.Scan.{is_ows, at_end_or}
use ngx_brotli.AcceptEncoding.Qvalue.{ends_value, past_semicolon}
use ngx_brotli.AcceptEncoding.Walk.{
  Weights, is_comma, is_star_name, record_weight, element_weight, element,
}
use ngx_brotli.AcceptEncoding.WalkEnds.{}
use ngx_brotli.Fuzz.Oracle.{
  Reading, parameters, behind_token, assign, consumed, started, disowned, token_named,
  token_element,
}
use ngx_brotli.Fuzz.Scans.{sure, ◌>>=◌, is_token_byte, is_br_name, junk_to_comma}
use ngx_brotli.Fuzz.Quiet.{Rests, junk_to_comma-Rests, Rests-at_comma}
use ngx_brotli.Fuzz.QuietParams.{}
use ngx_brotli.Fuzz.Values.{IfSure, IfSure-bind}
use ngx_brotli.Fuzz.Parameters.{SameNames}
use ngx_brotli.Fuzz.Weights.{Weighed, parameters-Weighed, fresh}
use ngx_brotli.Fuzz.Names.{is_br_name-same_name, take_while-token}
use ngx_brotli.Fuzz.Passed.{
  ElementAgrees, drop_while-past_byte, name_goes_on, name_goes_on-dirty, behind, stopped_name,
  junk-passed,
}

-- The weight goes where the oracle puts it.
record_weight-assign :
    (p : Bytes) (br star : Bool) (s' : Reading) (w : Weights)
    → (o : Option (Option ℕ × Bytes)) → (v : Weighed (fresh p br star) s' o)
    → record_weight br star v.result.0 w ≡ assign s' w
record_weight-assign p br star s' w o v = go v.result.0 v.weighs
  where
    go :
        (q : Option ℕ)
        → ((q ≡ some s'.q) × SameNames (fresh p br star) s')
          ⊎ ((q ≡ none) × (s'.is_br ≡ false) × (s'.is_star ≡ false))
        → record_weight br star q w ≡ assign s' w
    go q (inl (e, (b, t))) = rw (e, b, t) refl
    go q (inr (e, b, t)) = rw (e, b, t) refl

past_semicolon-comma : (p : Bytes) → at_end_or is_comma p ≡ true → past_semicolon p ≡ none
past_semicolon-comma [] h = refl
past_semicolon-comma (c ∷ cs) h = ground arith

parameters-here :
    (n : ℕ) (s : Reading) → at_end_or is_comma s.p ≡ true → parameters (suc n) s ≡ sure s
unfolding parameters
parameters-here n s h = rw (past_semicolon-comma s.p h, parameters)

module _ (tok : Bytes) (w : Weights) where
  -- An element behind which the oracle stands at a comma or the end.
  consumed-Agrees :
      (s' : Reading)
      → (at_end_or is_comma s'.p ≡ true → element (codes "br") tok w ≡ some (s'.p, assign s' w))
      → IfSure (ElementAgrees tok w) (consumed s' w)
  consumed-Agrees s' k =
      if_cases (IfSure (ElementAgrees tok w)) (at_end_or (λ c. c == b',') s'.p) _ _
        (λ e. (s'.p, k e, drop_while-past_byte s'.p e)) (λ e. tt)

  clean-Agrees :
      (x : ℕ) (xs : Bytes) (s' : Reading)
      → take_while is_token_byte tok ≡ x ∷ xs
      → at_end_or ends_value (drop_while is_ows (behind tok)) ≡ true
      → Weighed
          (fresh (drop_while is_ows (behind tok)) (is_br_name (x ∷ xs)) (is_star_name (x ∷ xs)))
          s'
          (element_weight (drop_while is_ows (behind tok)))
      → element (codes "br") tok w ≡ some (s'.p, assign s' w)
  unfolding element
  clean-Agrees x xs s' e h v = elim (Bool-cases (name_goes_on (behind tok))) [
    | inl g ↦ let (here, dirty) = name_goes_on-dirty (behind tok) g in absurd (cc (h, here, dirty))
    | inr g ↦
        let (t, p) = stopped_name tok g in
        let name = t ∙ e in
        let br =
          is_br_name-same_name (x ∷ xs)
            (subst (All λ c. is_token_byte c ≡ true) e (take_while-token tok)) in
        rw (name, p, h, ← br, v.returns, v.lands)
          (ap (λ (u : Weights). some (s'.p, u))
            (record_weight-assign _ (is_br_name (x ∷ xs)) (is_star_name (x ∷ xs)) s' w _ v))
  ]

  disowned-Agrees :
      (x : ℕ) (xs r : Bytes)
      → take_while is_token_byte tok ≡ x ∷ xs
      → at_end_or ends_value (drop_while is_ows (behind tok)) ≡ false
      → Rests r (drop_while is_ows (behind tok))
      → (let s = disowned (started (x ∷ xs) (drop_while is_ows (behind tok))) r in
          IfSure (ElementAgrees tok w) (parameters (suc (length r)) s >>= λ s'. consumed s' w))
  disowned-Agrees x xs r e h k =
      let s = disowned (started (x ∷ xs) (drop_while is_ows (behind tok))) r in
      rw (parameters-here (length r) s (Rests-at_comma r _ k))
        (consumed-Agrees s (λ _. junk-passed tok x xs r w e h k))

  token_named-Agrees :
      (name : Bytes)
      → take_while is_token_byte tok ≡ name
      → IfSure (ElementAgrees tok w) (token_named name (behind tok) w)
  unfolding behind_token
  token_named-Agrees [] e = tt
  token_named-Agrees (x ∷ xs) e =
      let p = drop_while is_ows (behind tok) in
      elim (Bool-cases (at_end_or ends_value p)) [
        | inl h ↦ rw h (
            IfSure-bind _ _ (parameters (suc (length p)) (started (x ∷ xs) p)) _
              (parameters-Weighed p (is_br_name (x ∷ xs)) (is_star_name (x ∷ xs)) h)
              (λ s' v. consumed-Agrees s' (λ k. clean-Agrees x xs s' e h (v k))))
        | inr h ↦ rw h (
            IfSure-bind (λ s. (r : Bytes) × (s ≡ disowned (started (x ∷ xs) p) r) × Rests r p) _
              (junk_to_comma p >>= λ r. sure (disowned (started (x ∷ xs) p) r)) _
              (IfSure-bind _ _ (junk_to_comma p) _ (junk_to_comma-Rests p) (λ r k. (r, refl, k)))
              (λ s (r, f, k). rw f (disowned-Agrees x xs r e h k)))
      ]

pub token_element-Agrees :
    (tok : Bytes) (w : Weights) → IfSure (ElementAgrees tok w) (token_element tok w)
unfolding token_element
token_element-Agrees tok w = token_named-Agrees tok w (take_while is_token_byte tok) refl
