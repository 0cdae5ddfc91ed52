-- ===== src/AcceptEncoding/ReadsElement.antt =====
-- The walker reads back every well-formed list element.
use ngx_brotli.Base.{
  ℕ, suc, ◌≤◌, ◌≡◌, refl, true, false, Bytes, List, [], ◌∷◌, ◌++◌, some, arith, ◌==◌, length,
  length-append, All, Stops, drop_while-append, take_while-append, replicate,
}
use ngx_brotli.AcceptEncoding.Scan.{is_ows, same_name, skip_fuel, skip_to, at_end_or}
use ngx_brotli.AcceptEncoding.Qvalue.{Params, ends_value, eval_qvalue, initial_params}
use ngx_brotli.AcceptEncoding.Grammar.{
  Qvalue, bare_zero, bare_one, zero_point, one_point, Value, flag, token, quoted, weight, Param,
  Element, digits_text, qvalue_text, value_text, blanks, params_text, element_text, AreBlank,
  IsToken, IsParam, IsElement, OneWeight, params_weight, element_milli,
}
use ngx_brotli.AcceptEncoding.ReadsValue.{AreBlank-Stops, length-items_text}
use ngx_brotli.AcceptEncoding.ReadsParams.{
  behind_all, at_comma, params_fuel-params_text, params_text-ends_value, blanks-AreBlank,
}
use ngx_brotli.AcceptEncoding.ReadsParam.{behind}
use ngx_brotli.AcceptEncoding.Walk.{
  Weights, in_coding_name, is_comma, is_star_name, record_weight, element_weight, element,
}

behind_all_lem :
    (s : Params) (ps : List Param) (rest : Bytes)
    → ((behind_all s ps rest).p ≡ rest)
      × ((behind_all s ps rest).q ≡ params_weight s.q ps)
      × ((behind_all s ps rest).quoted_name ≡ s.quoted_name)
behind_all_lem s [] rest = (refl, refl, refl)
behind_all_lem s (p ∷ ps) rest = behind_all_lem (behind s p.value []) ps rest

length-digits_text : (ds : List ℕ) (rest : Bytes) → length rest ≤ length (digits_text ds rest)
length-digits_text [] rest = omega arith
length-digits_text (d ∷ ds) rest = omega (arith, length-digits_text ds rest)

length-qvalue_text : (q : Qvalue) (rest : Bytes) → length rest ≤ length (qvalue_text q rest)
length-qvalue_text bare_zero rest = omega arith
length-qvalue_text bare_one rest = omega arith
length-qvalue_text (zero_point ds) rest = omega (arith, length-digits_text ds rest)
length-qvalue_text (one_point k) rest = omega (arith, length-append (replicate k b'0') rest)

pub length-value_text : (v : Value) (rest : Bytes) → length rest ≤ length (value_text v rest)
length-value_text flag rest = omega arith
length-value_text (token v) rest = omega (arith, length-append v rest)
length-value_text (quoted is) rest = omega (arith, length-items_text is (b'"' ∷ rest))
length-value_text (weight q) rest = omega (arith, length-qvalue_text q rest)

length-params_text :
    (trail : Bytes) (ps : List Param) (rest : Bytes)
    → length ps ≤ length (params_text trail ps rest)
length-params_text trail [] rest = omega arith
length-params_text trail (p ∷ ps) rest =
    let text = params_text trail ps rest in
    let more = blanks ps trail ++ text in
    omega (
      arith,
      length-params_text trail ps rest,
      length-append (blanks ps trail) text,
      length-value_text p.value more,
      length-append p.name (value_text p.value more),
      length-append p.after (p.name ++ value_text p.value more),
    )

-- The parameters of an element give its weight, and leave the comma or the end.
element_weight-params_text :
    (ps : List Param) (trail rest : Bytes)
    → All IsParam ps
    → OneWeight false ps
    → AreBlank trail
    → at_comma rest ≡ true
    → element_weight (params_text trail ps rest) ≡ some (some (params_weight 1000 ps), rest)
unfolding element_weight eval_qvalue
element_weight-params_text [] trail [] h o a e = refl
element_weight-params_text [] trail (c ∷ cs) h o a e =
    let other : (c == b';') ≡ false = ground arith in rw other
element_weight-params_text (p ∷ ps) trail rest h o a e =
    let text = params_text trail (p ∷ ps) rest in
    let (at, q, clean) = behind_all_lem (initial_params text) (p ∷ ps) rest in
    rw
      (params_fuel-params_text (suc (length text)) (initial_params text) (p ∷ ps) trail rest
        (omega (arith, length-params_text trail (p ∷ ps) rest)) h o a e)
      (rw (clean, q, at))

-- One element's contribution.
abbrev pub note : Bytes → Weights → Element → Weights
note coding w e =
    record_weight (same_name e.name coding) (is_star_name e.name) (some (element_milli e)) w

IsToken-in_coding_name : (xs : Bytes) → IsToken xs → All (λ c. in_coding_name c ≡ true) xs
IsToken-in_coding_name [] a = tt
IsToken-in_coding_name (x ∷ xs) a = (ground (arith, a.0), IsToken-in_coding_name xs a.1)

params_Stops :
    (ows rest : Bytes)
    → AreBlank ows
    → at_end_or ends_value rest ≡ true
    → Stops in_coding_name (ows ++ rest)
params_Stops [] [] a e = tt
params_Stops [] (c ∷ cs) a e = ground arith
params_Stops (x ∷ xs) rest a e = ground (arith, a.0)

skip_to_here : (rest : Bytes) → at_comma rest ≡ true → skip_to is_comma rest ≡ some rest
unfolding skip_to skip_fuel
skip_to_here [] e = refl
skip_to_here (c ∷ cs) e = rw e

pub element-element_text :
    (coding : Bytes) (e : Element) (rest : Bytes) (w : Weights)
    → IsElement e
    → at_comma rest ≡ true
    → element coding (element_text e rest) w ≡ some (rest, note coding w e)
unfolding element
element-element_text coding e rest w h c =
    let text = params_text e.trail e.params rest in
    let ows = blanks e.params e.trail in
    let blank = blanks-AreBlank e.params e.trail h.params_fit h.trail_blank in
    let ends = params_text-ends_value e.params e.trail rest c in
    let token = IsToken-in_coding_name e.name h.name_token in
    rw
      (
        take_while-append in_coding_name e.name (ows ++ text) token
            (params_Stops ows text blank ends),
        drop_while-append in_coding_name e.name (ows ++ text) token
            (params_Stops ows text blank ends),
        drop_while-append is_ows ows text blank (AreBlank-Stops text ends),
        element_weight-params_text e.params e.trail rest h.params_fit h.one_weight h.trail_blank c,
        ends,
      )
      (rw (skip_to_here rest c))
