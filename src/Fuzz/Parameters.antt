-- ===== src/Fuzz/Parameters.antt =====
-- Where the oracle is sure of an element's parameters, the walker's parameter loop comes to the same
-- weight and the same end of the element, or both give the element up.
use ngx_brotli.Base.{
  ℕ, ◌≡◌, refl, Bool, true, false, Bytes, [], ◌∷◌, some, arith, ◌==◌, inl, inr, Bool-cases,
  drop_while, take_while, if_cases, ap, ◌∙◌, Option, drop_while_stop, Stops,
}
use ngx_brotli.AcceptEncoding.Scan.{is_ows, at_end_or}
use ngx_brotli.AcceptEncoding.Qvalue.{
  Params, Verdict, well_formed, malformed, with_digits, ends_value, ends_qvalue, after_param,
  param_value, no_value, param_rest, named_param, param, in_param_name, has_quote, is_q_name,
}
use ngx_brotli.Fuzz.Oracle.{
  Reading, Turn, goes_on, breaks, behind_value, value, valueless, behind_name, named, parameter,
}
use ngx_brotli.Fuzz.Scans.{weight_digits, plain_value, in_name, junk_to_comma}
use ngx_brotli.Fuzz.Quiet.{Rests, junk_to_comma-Rests}
use ngx_brotli.Fuzz.Values.{IfSure, IfSure-bind, Skipped, plain_value-Skipped, weight_digits-qvalue}

-- The walker's variables where the oracle has these.
abbrev pub params_of : Reading → Params
params_of s = record { p = s.p; q = s.q; q_seen = s.q_seen; quoted_name = false }

-- The element is still the coding's, or that of "*", as it was.
abbrev pub SameNames : Reading → Reading → Type 0
SameNames s s' = (s'.is_br ≡ s.is_br) × (s'.is_star ≡ s.is_star)

-- Both give the element up, the walker at a place before the comma that the oracle has reached.
abbrev pub GivenUp : Reading → Option Verdict → Type 0
GivenUp s' o =
    (m : Params) × (o ≡ some (malformed m))
    × (m.quoted_name ≡ false)
    × Rests s'.p m.p
    × (s'.is_br ≡ false)
    × (s'.is_star ≡ false)

abbrev pub Agrees : Reading → Option Verdict → Turn → Type 0
Agrees s o (goes_on s') =
    at_end_or ends_value s'.p ≡ true → (o ≡ some (well_formed (params_of s'))) × SameNames s s'
Agrees s o (breaks s') = GivenUp s' o

at_end_or-is_ows : (p : Bytes) → at_end_or ends_value p ≡ true → Stops is_ows p
at_end_or-is_ows [] h = tt
at_end_or-is_ows (c ∷ cs) h = ground arith

after_param-here : (s : Params) → at_end_or ends_value s.p ≡ true → after_param s ≡ well_formed s
unfolding after_param
after_param-here s h = rw (drop_while_stop is_ows s.p (at_end_or-is_ows s.p h), h)

-- The walker need agree only where the value ends as the oracle wants it.
behind_value-Agrees :
    (s t : Reading) (o : Option Verdict)
    → (let p = drop_while is_ows t.p in
        at_end_or ends_value p ≡ true
        → (o ≡ some (well_formed (params_of (record t { p = p })))) × SameNames s t)
    → IfSure (Agrees s o) (behind_value t)
unfolding behind_value
behind_value-Agrees s t o k = elim (Bool-cases (at_end_or ends_value (drop_while is_ows t.p))) [
  | inl e ↦ rw e (λ h. k e)
  | inr e ↦ rw e tt
]

ends_qvalue-drop :
    (p : Bytes) → at_end_or ends_value (drop_while is_ows p) ≡ true → at_end_or ends_qvalue p ≡ true
unfolding drop_while
ends_qvalue-drop [] h = refl
ends_qvalue-drop (c ∷ cs) h = ground arith

with_digits-ends :
    (m : Params) (q : ℕ) (p : Bytes)
    → at_end_or ends_value (drop_while is_ows p) ≡ true
    → with_digits m (q, p) ≡ well_formed (record m { q = q; p = drop_while is_ows p })
unfolding after_param
with_digits-ends m q p h = rw (ends_qvalue-drop p h, h)

value-Agrees :
    (is_qp : Bool) (s : Reading)
    → IfSure (Agrees s (param_value is_qp (params_of s))) (value is_qp s)
unfolding value param_value
value-Agrees true s = elim (Bool-cases s.q_seen) [
  | inl e ↦ rw e tt
  | inr e ↦
      let m = record (params_of s) { q_seen = true } in
      rw e (
        IfSure-bind _ _ (weight_digits s.p) _ (weight_digits-qvalue m s.p) (λ r k.
          behind_value-Agrees s (record s { p = r.1; q = r.0; q_seen = true }) _
            (λ h. (ap some (k ∙ with_digits-ends m r.0 r.1 h), (refl, refl)))))
]
value-Agrees false s =
    IfSure-bind (Skipped s.p) _ (plain_value s.p) _ (plain_value-Skipped s.p) (λ p k.
      behind_value-Agrees s (record s { p = p }) _
        (λ h. (
          rw (k h)
              (ap some (after_param-here (params_of (record s { p = drop_while is_ows p })) h)),
          (refl, refl),
        )))

valueless-Agrees :
    (is_qp : Bool) (s : Reading)
    → IfSure (Agrees s (some (no_value is_qp (params_of s)))) (valueless is_qp s)
valueless-Agrees true s = tt
valueless-Agrees false s = λ h. (ap some (after_param-here (params_of s) h), (refl, refl))

behind_name-Agrees :
    (is_qp : Bool) (s : Reading) (p : Bytes)
    → IfSure (Agrees s (param_rest is_qp (params_of s) p)) (behind_name is_qp s p)
unfolding behind_name param_rest
behind_name-Agrees is_qp s [] = valueless-Agrees is_qp s
behind_name-Agrees is_qp s (c ∷ cs) = elim (Bool-cases (c == b'=')) [
  | inl e ↦ rw e (value-Agrees is_qp (record s { p = drop_while is_ows cs }))
  | inr e ↦ rw e (valueless-Agrees is_qp s)
]

named-Agrees :
    (name : Bytes) (s : Reading) → IfSure (Agrees s (named_param name (params_of s))) (named name s)
named-Agrees [] s =
    IfSure-bind (λ r. Rests r s.p) _ (junk_to_comma s.p) _ (junk_to_comma-Rests s.p)
      (λ r h. (params_of s, refl, refl, h, refl, refl))
named-Agrees (c ∷ cs) s =
    let s' = record s { p = drop_while is_ows s.p } in
    behind_name-Agrees (is_q_name (c ∷ cs)) s' s'.p

-- A DQUOTE in a parameter's name makes the oracle unsure, or stops it where no element ends.
head_quote : Bytes → Bool
head_quote [] = false
head_quote (c ∷ cs) = c == b'"'

quoted_name-Agrees :
    (s s' : Reading) (o : Option Verdict) (name p : Bytes)
    → head_quote p ≡ true
    → IfSure (Agrees s o) (named name (record s' { p = p }))
unfolding head_quote behind_name junk_to_comma drop_while
quoted_name-Agrees s s' o name [] h = absurd (cc)
quoted_name-Agrees s s' o [] (c ∷ cs) h = let same : c ≡ b'"' = ground arith in rw same tt
quoted_name-Agrees s s' o (x ∷ xs) (c ∷ cs) h =
    let same : c ≡ b'"' = ground arith in
    rw same (if_cases (IfSure (Agrees s o)) (is_q_name (x ∷ xs)) _ _ (λ e. tt) (λ e k. absurd (cc)))

names-eq :
    (p : Bytes)
    → head_quote (drop_while in_name p) ≡ false
    → (take_while in_param_name p ≡ take_while in_name p)
      × (drop_while in_param_name p ≡ drop_while in_name p)
      × (has_quote (take_while in_name p) ≡ false)
unfolding head_quote drop_while take_while has_quote
names-eq [] h = (refl, refl, refl)
names-eq (c ∷ cs) h = elim (Bool-cases (in_name c)) [
  | inl e ↦
      let same : in_param_name c ≡ true = ground arith in
      let plain : (c == b'"') ≡ false = ground arith in
      let (t, d, q) = names-eq cs (rw e at h) in
      (rw (e, same, t), rw (e, same, d), rw (e, plain, q))
  | inr e ↦
      let plain : (c == b'"') ≡ false = rw e at h in
      let same : in_param_name c ≡ false = ground arith in (rw (e, same), rw (e, same), rw e)
]

pub parameter-Agrees : (s : Reading) → IfSure (Agrees s (param (params_of s))) (parameter s)
unfolding parameter param
parameter-Agrees s =
    let start = drop_while is_ows s.p in
    elim (Bool-cases (head_quote (drop_while in_name start))) [
      | inl e ↦ quoted_name-Agrees s s _ _ _ e
      | inr e ↦
          let (t, d, q) = names-eq start e in
          rw (t, d, q)
            (named-Agrees (take_while in_name start) (record s { p = drop_while in_name start }))
    ]
