-- ===== src/Fuzz/Ends.antt =====
-- The reference oracle of the fuzz harness answers for every byte string: its fuel is enough.
use ngx_brotli.Base.{
  ℕ, zero, suc, ◌≤◌, ◌<◌, ◌≡◌, refl, true, false, Bytes, [], ◌∷◌, arith, ◌==◌, length, inl, inr,
  Bool-cases, if_cases, drop_while, take_while, length-drop_while-le,
}
use ngx_brotli.AcceptEncoding.Scan.{is_ows, at_end_or}
use ngx_brotli.AcceptEncoding.Qvalue.{ends_value}
use ngx_brotli.AcceptEncoding.Walk.{Weights, absent, separates}
use ngx_brotli.Fuzz.Oracle.{
  Reading, parameters, behind_token, token_named, token_element, list_element, elements,
  ref_accepts, consumed, started,
}
use ngx_brotli.Fuzz.Scans.{close_quote, junk_to_comma, quoted_element, is_token_byte, past_byte}
use ngx_brotli.Fuzz.ParametersEnd.{
  Ends, Ends-bind, Within, close_quote-Ends, junk_to_comma-Ends, parameters-Ends,
}

behind_token-Ends :
    (n : ℕ) (s : Reading) → length s.p ≤ n → Ends (λ r. Within n r.p) (behind_token s)
unfolding behind_token
behind_token-Ends n s h = elim (Bool-cases (at_end_or ends_value s.p)) [
  | inl e ↦ rw e h
  | inr e ↦ rw e (
      Ends-bind (Within n) (λ r. Within n r.p) (junk_to_comma s.p) _ (junk_to_comma-Ends n s.p h)
        (λ p k. k))
]

abbrev Left : ℕ → Bytes × Weights → Type 0
Left n r = length r.0 ≤ n

length-past_byte-le : (p : Bytes) → length (past_byte p) ≤ length p
length-past_byte-le [] = omega arith
length-past_byte-le (c ∷ cs) = omega arith

consumed-Ends : (n : ℕ) (s : Reading) (w : Weights) → length s.p ≤ n → Ends (Left n) (consumed s w)
consumed-Ends n s w h = elim (Bool-cases (at_end_or (λ c. c == b',') s.p)) [
  | inl e ↦ rw e (omega (arith, length-past_byte-le s.p))
  | inr e ↦ rw e tt
]

token_named-Ends :
    (name : Bytes) (n : ℕ) (p : Bytes) (w : Weights)
    → length p ≤ n
    → Ends (Left n) (token_named name p w)
token_named-Ends [] n p w h = tt
token_named-Ends (c ∷ cs) n p w h =
    let s = started (c ∷ cs) (drop_while is_ows p) in
    Ends-bind (λ r. Within n r.p) (Left n) (behind_token s) _
      (behind_token-Ends n s (omega (arith, length-drop_while-le is_ows p)))
      (λ s' l.
        Ends-bind (λ r. Within n r.p) (Left n) (parameters (suc (length s'.p)) s') _
          (parameters-Ends (suc (length s'.p)) n s' (omega arith) l) (λ r k. consumed-Ends n r w k))

-- A token is not empty, so its element consumes a byte.
token_element-Ends :
    (c : ℕ) (cs : Bytes) (w : Weights) → Ends (Left (length cs)) (token_element (c ∷ cs) w)
unfolding token_element
token_element-Ends c cs w = elim (Bool-cases (is_token_byte c)) [
  | inl e ↦
      unfold take_while drop_while in
      rw e (
        token_named-Ends (c ∷ take_while is_token_byte cs) (length cs) _ w
          (length-drop_while-le is_token_byte cs))
  | inr e ↦ unfold take_while drop_while in rw e tt
]

quoted_element-Ends :
    (n m : ℕ) (p : Bytes) → length p < n → length p ≤ m → Ends (Within m) (quoted_element n p)
unfolding quoted_element
quoted_element-Ends zero m p h k = absurd (omega arith)
quoted_element-Ends (suc n) m [] h k = k
quoted_element-Ends (suc n) m (c ∷ cs) h k =
    let quoted =
      Ends-bind (Within (length cs)) (Within m) (close_quote cs) (quoted_element n)
        (close_quote-Ends (length cs) cs (omega arith))
        (λ p l. quoted_element-Ends n m p (omega arith) (omega arith)) in
    let next = quoted_element-Ends n m cs (omega arith) (omega arith) in
    elim (Bool-cases (c == b',')) [
      | inl e ↦ rw e k
      | inr e ↦ elim (Bool-cases (c == b'"')) [ inl f ↦ rw (e, f) quoted | inr f ↦ rw (e, f) next ]
    ]

-- Behind an opening DQUOTE.
quoted_rest-Ends :
    (c : ℕ) (cs : Bytes)
    → (c == b'"') ≡ true
    → Ends (Within (length cs)) (quoted_element (suc (length (c ∷ cs))) (c ∷ cs))
unfolding quoted_element
quoted_rest-Ends c cs e =
    let not_comma : (c == b',') ≡ false = ground arith in
    rw (not_comma, e)
      (Ends-bind (Within (length cs)) (Within (length cs)) (close_quote cs) _
        (close_quote-Ends (length cs) cs (omega arith))
        (λ p l. quoted_element-Ends (suc (length cs)) (length cs) p (omega arith) l))

list_element-Ends :
    (c : ℕ) (cs : Bytes) (w : Weights) → Ends (Left (length cs)) (list_element c cs w)
unfolding list_element
list_element-Ends c cs w =
    if_cases (λ r. Ends (Left (length cs)) r) (c == b'"') _ _
      (λ e.
        Ends-bind (Within (length cs)) (Left (length cs))
          (quoted_element (suc (length (c ∷ cs))) (c ∷ cs)) _ (quoted_rest-Ends c cs e)
          (λ p l. omega (arith, length-past_byte-le p)))
      (λ e. token_element-Ends c cs w)

-- The round behind the separators.
elements_rest-Ends :
    (n : ℕ) (p rest : Bytes) (w : Weights)
    → drop_while separates p ≡ rest
    → length rest < suc n
    → ((p' : Bytes) (w' : Weights) → length p' < n → Ends (λ _. Unit) (elements n p' w'))
    → Ends (λ _. Unit) (elements (suc n) p w)
unfolding elements
elements_rest-Ends n p [] w e h ih = rw (e, elements) tt
elements_rest-Ends n p (c ∷ cs) w e h ih =
    rw (e, elements)
      (Ends-bind (Left (length cs)) (λ _. Unit) (list_element c cs w) _ (list_element-Ends c cs w)
        (λ r l. ih r.0 r.1 (omega arith)))

elements-Ends : (n : ℕ) (p : Bytes) (w : Weights) → length p < n → Ends (λ _. Unit) (elements n p w)
elements-Ends zero p w h = absurd (omega arith)
elements-Ends (suc n) p w h =
    elements_rest-Ends n p (drop_while separates p) w refl
      (omega (arith, length-drop_while-le separates p)) (elements-Ends n)

-- The oracle answers, or is unsure, on every byte string.
pub ref_accepts-Ends : (d : Bytes) → Ends (λ _. Unit) (ref_accepts d)
unfolding ref_accepts
ref_accepts-Ends d =
    Ends-bind (λ _. Unit) (λ _. Unit) (elements (suc (length d)) d absent) _
      (elements-Ends (suc (length d)) d absent (omega arith)) (λ w _. tt)
