-- ===== src/Fuzz/ParametersEnd.antt =====
-- The loop of the fuzz harness's oracle over an element's parameters ends.
use ngx_brotli.Base.{
  ℕ, zero, suc, ◌+◌, ◌-◌, ◌*◌, ◌/◌, ◌≤◌, ◌<◌, ◌≡◌, Bool, true, false, Bytes, [], ◌∷◌, some, arith,
  ◌==◌, length, inl, inr, Bool-cases, Option-cases, drop_while, take_while, length-drop_while-le,
}
use ngx_brotli.AcceptEncoding.Scan.{is_ows}
use ngx_brotli.AcceptEncoding.Qvalue.{past_semicolon, is_q_name}
use ngx_brotli.AcceptEncoding.Walk.{}
use ngx_brotli.Fuzz.Oracle.{
  Reading, Turn, goes_on, breaks, behind_value, value, valueless, behind_name, named, parameter,
  parameters, after_turn,
}
use ngx_brotli.Fuzz.Scans.{
  Answer, sure, unsure, spent, ◌>>=◌, close_quote, junk_to_comma, scaled_digits, counted_zeros,
  weight_digits, plain_value, in_name, in_value,
}

-- An answer, and if it is sure, what holds of its value.
abbrev pub Ends {ℓ} : {A : Type ℓ} → (A → Type 0) → Answer A → Type 0
Ends P (sure a) = P a
Ends P unsure = Unit
Ends P spent = ⊥

pub Ends-bind {ℓ κ} :
    {A : Type ℓ} {B : Type κ} (P : A → Type 0) (Q : B → Type 0) (r : Answer A) (f : A → Answer B)
    → Ends P r
    → ((a : A) → P a → Ends Q (f a))
    → Ends Q (r >>= f)
Ends-bind P Q (sure a) f h k = k a h
Ends-bind P Q unsure f h k = tt
Ends-bind P Q spent f h k = h

abbrev pub Within : ℕ → Bytes → Type 0
Within n p = length p ≤ n

abbrev TurnWithin : ℕ → Turn → Type 0
TurnWithin n (goes_on s) = length s.p ≤ n
TurnWithin n (breaks s) = length s.p ≤ n

pub close_quote-Ends : (n : ℕ) (p : Bytes) → length p ≤ n → Ends (Within n) (close_quote p)
unfolding close_quote
close_quote-Ends n [] h = tt
close_quote-Ends n (c ∷ cs) h = ground (arith, close_quote-Ends n cs)

pub junk_to_comma-Ends : (n : ℕ) (p : Bytes) → length p ≤ n → Ends (Within n) (junk_to_comma p)
unfolding junk_to_comma
junk_to_comma-Ends n [] h = h
junk_to_comma-Ends n (c ∷ cs) h = ground (arith, junk_to_comma-Ends n cs)

length-scaled_digits-le : (scale q : ℕ) (p : Bytes) → length (scaled_digits scale q p).1 ≤ length p
unfolding scaled_digits
length-scaled_digits-le scale q [] = omega arith
length-scaled_digits-le scale q (c ∷ cs) =
    ground (arith, length-scaled_digits-le (scale / 10) (q + (c - b'0') * scale) cs)

length-counted_zeros-le : (k : ℕ) (p : Bytes) → length (counted_zeros k p) ≤ length p
unfolding counted_zeros
length-counted_zeros-le k [] = omega arith
length-counted_zeros-le k (c ∷ cs) = ground (arith, length-counted_zeros-le (suc k) cs)

weight_digits-Ends : (n : ℕ) (p : Bytes) → length p ≤ n → Ends (λ r. Within n r.1) (weight_digits p)
unfolding weight_digits
weight_digits-Ends n [] h = tt
weight_digits-Ends n (c ∷ []) h = ground arith
weight_digits-Ends n (c ∷ d ∷ ds) h =
    ground (arith, length-scaled_digits-le 100 0 ds, length-counted_zeros-le 0 ds)

behind_value-Ends : (n : ℕ) (s : Reading) → length s.p ≤ n → Ends (TurnWithin n) (behind_value s)
unfolding behind_value
behind_value-Ends n s h = ground (arith, length-drop_while-le is_ows s.p)

plain_value-Ends : (n : ℕ) (p : Bytes) → length p ≤ n → Ends (Within n) (plain_value p)
plain_value-Ends n [] h = h
plain_value-Ends n (c ∷ cs) h =
    ground (arith, close_quote-Ends n cs, length-drop_while-le in_value (c ∷ cs))

value-Ends :
    (is_qp : Bool) (n : ℕ) (s : Reading) → length s.p ≤ n → Ends (TurnWithin n) (value is_qp s)
unfolding value
value-Ends true n s h = elim (Bool-cases s.q_seen) [
  | inl e ↦ rw e tt
  | inr e ↦ rw e (
      Ends-bind (λ r. Within n r.1) (TurnWithin n) (weight_digits s.p) _
        (weight_digits-Ends n s.p h) (λ r k. behind_value-Ends n _ k))
]
value-Ends false n s h =
    Ends-bind (Within n) (TurnWithin n) (plain_value s.p) _ (plain_value-Ends n s.p h)
      (λ p k. behind_value-Ends n _ k)

valueless-Ends :
    (is_qp : Bool) (n : ℕ) (s : Reading) → length s.p ≤ n → Ends (TurnWithin n) (valueless is_qp s)
valueless-Ends true n s h = tt
valueless-Ends false n s h = h

behind_name-Ends :
    (is_qp : Bool) (n : ℕ) (s : Reading) (p : Bytes)
    → length s.p ≤ n
    → length p ≤ n
    → Ends (TurnWithin n) (behind_name is_qp s p)
unfolding behind_name
behind_name-Ends is_qp n s [] h k = valueless-Ends is_qp n s h
behind_name-Ends is_qp n s (c ∷ cs) h k = elim (Bool-cases (c == b'=')) [
  | inl e ↦ rw e (
      value-Ends is_qp n (record s { p = drop_while is_ows cs })
        (omega (arith, length-drop_while-le is_ows cs)))
  | inr e ↦ rw e (valueless-Ends is_qp n s h)
]

named-Ends :
    (name : Bytes) (n : ℕ) (s : Reading) → length s.p ≤ n → Ends (TurnWithin n) (named name s)
named-Ends [] n s h =
    Ends-bind (Within n) (TurnWithin n) (junk_to_comma s.p) _ (junk_to_comma-Ends n s.p h)
      (λ p k. k)
named-Ends (c ∷ cs) n s h =
    let k = length-drop_while-le is_ows s.p in
    behind_name-Ends (is_q_name (c ∷ cs)) n _ _ (omega (arith, k)) (omega (arith, k))

parameter-Ends : (s : Reading) → Ends (TurnWithin (length s.p)) (parameter s)
unfolding parameter
parameter-Ends s =
    let start = drop_while is_ows s.p in
    named-Ends (take_while in_name start) (length s.p) _
      (omega (arith, length-drop_while-le is_ows s.p, length-drop_while-le in_name start))

past_semicolon-le : (p r : Bytes) → past_semicolon p ≡ some r → suc (length r) ≡ length p
past_semicolon-le [] r e = cc
past_semicolon-le (c ∷ cs) r e = ground arith

after_turn-Ends :
    (k m : ℕ) (rounds : Reading → Answer Reading) (turn : Turn)
    → k ≤ m
    → ((s : Reading) → length s.p ≤ k → Ends (λ r. Within m r.p) (rounds s))
    → TurnWithin k turn
    → Ends (λ r. Within m r.p) (after_turn rounds turn)
after_turn-Ends k m rounds (breaks s) h f l = omega arith
after_turn-Ends k m rounds (goes_on s) h f l = f s l

pub parameters-Ends :
    (n m : ℕ) (s : Reading)
    → length s.p < n
    → length s.p ≤ m
    → Ends (λ r. Within m r.p) (parameters n s)
unfolding parameters
parameters-Ends zero m s h k = absurd (omega arith)
parameters-Ends (suc n) m s h k = elim (Option-cases (past_semicolon s.p)) [
  | inl e ↦ rw (e, parameters) k
  | inr (p, e) ↦
      let shorter = past_semicolon-le s.p p e in
      rw (e, parameters)
        (Ends-bind (TurnWithin (length p)) (λ r. Within m r.p) (parameter (record s { p = p })) _
          (parameter-Ends (record s { p = p }))
          (λ turn l.
            after_turn-Ends (length p) m (parameters n) turn (omega arith)
              (λ s' l'. parameters-Ends n m s' (omega arith) (omega arith)) l))
]
