-- ===== src/AcceptEncoding/ReadsParam.antt =====
-- The walker reads back every well-formed parameter.
use ngx_brotli.Base.{
  ◌≡◌, ◌≢◌, refl, ap, ◌∙◌, true, false, ◌&&◌, ◌||◌, Bytes, [], ◌∷◌, ◌++◌, some, arith, ◌==◌, All,
  drop_while, Stops, drop_while-append, take_while-append, drop_while_stop,
}
use ngx_brotli.AcceptEncoding.Scan.{skip_to, is_ows, at_end_or}
use ngx_brotli.AcceptEncoding.Qvalue.{
  Params, well_formed, in_param_name, ends_value, is_q_name, has_quote, param_value, named_param,
  param_rest, param,
}
use ngx_brotli.AcceptEncoding.Grammar.{
  Qvalue, bare_zero, bare_one, zero_point, one_point, Value, flag, token, quoted, weight, Param,
  qvalue_text, items_text, value_text, AreBlank, IsToken, IsQvalue, is_q, IsValue, IsParam,
  is_weight, milli, value_weight,
}
use ngx_brotli.AcceptEncoding.ReadsValue.{
  qvalue-qvalue_text, skip_to-token, skip_to-quoted, after_param_lem, AreBlank-Stops,
}

-- Names.
IsToken-in_param_name : (xs : Bytes) → IsToken xs → All (λ c. in_param_name c ≡ true) xs
IsToken-in_param_name [] a = tt
IsToken-in_param_name (x ∷ xs) a = (ground (arith, a.0), IsToken-in_param_name xs a.1)

has_quote-IsToken : (xs : Bytes) → IsToken xs → has_quote xs ≡ false
unfolding has_quote
has_quote-IsToken [] a = refl
has_quote-IsToken (x ∷ xs) a = ground (arith, a.0, has_quote-IsToken xs a.1)

is_q-eq : (name : Bytes) → is_q_name name ≡ is_q name
is_q-eq [] = refl
is_q-eq (c ∷ []) = refl
is_q-eq (c ∷ d ∷ ds) = refl

-- What the loop's variables are behind a value.
abbrev pub behind : Params → Value → Bytes → Params
behind s v rest = record s { p = rest; q = value_weight s.q v; q_seen = is_weight v || s.q_seen }

-- The three stages behind a parameter's name, value by value.
param_rest-flag :
    (s : Params) (rest : Bytes)
    → at_end_or ends_value rest ≡ true
    → param_rest false (record s { p = rest }) rest ≡ some (well_formed (record s { p = rest }))
unfolding param_rest
param_rest-flag s [] e = ap some (after_param_lem s [] [] tt e)
param_rest-flag s (c ∷ cs) e =
    let not_eq : (c == b'=') ≡ false = ground arith in
    rw not_eq (ap some (after_param_lem s [] (c ∷ cs) tt e))

drop_while-token :
    (v ows rest : Bytes)
    → IsToken v
    → AreBlank ows
    → at_end_or ends_value rest ≡ true
    → skip_to ends_value (drop_while is_ows (v ++ (ows ++ rest))) ≡ some rest
drop_while-token [] ows rest a b e =
    rw (drop_while-append is_ows ows rest b (AreBlank-Stops rest e))
      (skip_to-token [] [] rest tt tt e)
drop_while-token (x ∷ xs) ows rest a b e =
    rw (drop_while_stop is_ows ((x ∷ xs) ++ (ows ++ rest)) (ground (arith, a.0)))
      (skip_to-token (x ∷ xs) ows rest a b e)

drop_while-qvalue_text :
    (q : Qvalue) (rest : Bytes) → drop_while is_ows (qvalue_text q rest) ≡ qvalue_text q rest
unfolding drop_while
drop_while-qvalue_text bare_zero rest = refl
drop_while-qvalue_text bare_one rest = refl
drop_while-qvalue_text (zero_point ds) rest = refl
drop_while-qvalue_text (one_point k) rest = refl

-- Behind '=' a plain value, found by the scan, leads to what follows its blanks.
param_value-skip :
    (s : Params) (rest : Bytes)
    → at_end_or ends_value rest ≡ true
    → skip_to ends_value s.p ≡ some rest
    → param_value false s ≡ some (well_formed (record s { p = rest }))
unfolding param_value
param_value-skip s rest e h = rw h (ap some (after_param_lem s [] rest tt e))

param_value-weight :
    (s : Params) (q : Qvalue) (ows rest : Bytes)
    → s.q_seen ≡ false
    → IsQvalue q
    → AreBlank ows
    → at_end_or ends_value rest ≡ true
    → param_value true (record s { p = drop_while is_ows (qvalue_text q (ows ++ rest)) })
      ≡ some (well_formed (record s { p = rest; q = milli q; q_seen = true }))
unfolding param_value
param_value-weight s q ows rest o h a e =
    rw (drop_while-qvalue_text q (ows ++ rest), o)
      (ap some (
        qvalue-qvalue_text (record s { p = qvalue_text q (ows ++ rest); q_seen = true }) q ows rest
          h a e))

-- The value of a parameter is read up to what follows its blanks.
param_rest-value_text :
    (name : Bytes) (v : Value) (s : Params) (ows rest : Bytes)
    → IsValue name v
    → (is_weight v && s.q_seen) ≡ false
    → AreBlank ows
    → at_end_or ends_value rest ≡ true
    → let p = drop_while is_ows (value_text v (ows ++ rest)) in
      param_rest (is_q name) (record s { p = p }) p ≡ some (well_formed (behind s v rest))
unfolding param_rest
param_rest-value_text name flag s ows rest h o a e =
    rw (h, drop_while-append is_ows ows rest a (AreBlank-Stops rest e)) (param_rest-flag s rest e)
param_rest-value_text name (token v) s ows rest h o a e =
    rw (h.0, drop_while_stop is_ows (b'=' ∷ (v ++ (ows ++ rest))) refl)
      (param_value-skip (record s { p = drop_while is_ows (v ++ (ows ++ rest)) }) rest e
        (drop_while-token v ows rest h.1 a e))
param_rest-value_text name (quoted is) s ows rest h o a e =
    let body = b'"' ∷ items_text is (b'"' ∷ (ows ++ rest)) in
    rw (h.0, drop_while_stop is_ows (b'=' ∷ body) refl, drop_while_stop is_ows body refl)
      (param_value-skip (record s { p = body }) rest e (skip_to-quoted is ows rest h.1 a e))
param_rest-value_text name (weight q) s ows rest h o a e =
    rw (h.0, drop_while_stop is_ows (b'=' ∷ qvalue_text q (ows ++ rest)) refl)
      (param_value-weight s q ows rest o h.1 a e)

-- Nothing of a value's text is part of the name before it.
value_text-Stops :
    (v : Value) (ows rest : Bytes)
    → AreBlank ows
    → at_end_or ends_value rest ≡ true
    → Stops in_param_name (value_text v (ows ++ rest))
value_text-Stops flag [] [] a e = tt
value_text-Stops flag [] (c ∷ cs) a e = ground arith
value_text-Stops flag (x ∷ xs) rest a e = ground (arith, a.0)
value_text-Stops _ ows rest a e = refl

named_param_ne :
    (name : Bytes) (s : Params)
    → name ≢ []
    → let p = drop_while is_ows s.p in
      named_param name s ≡ param_rest (is_q name) (record s { p = p }) p
named_param_ne [] s ne = absurd (ne refl)
named_param_ne (c ∷ cs) s ne = rw is_q-eq

token-Stops : (name rest : Bytes) → IsToken name → name ≢ [] → Stops is_ows (name ++ rest)
token-Stops [] rest a ne = absurd (ne refl)
token-Stops (c ∷ cs) rest a ne = ground (arith, a.0)

-- One parameter is read, from behind its ';'.
pub param_lem :
    (p : Param) (s : Params) (ows rest : Bytes)
    → IsParam p
    → (is_weight p.value && s.q_seen) ≡ false
    → AreBlank ows
    → at_end_or ends_value rest ≡ true
    → param (record s { p = p.after ++ (p.name ++ value_text p.value (ows ++ rest)) })
      ≡ some (well_formed (behind s p.value rest))
unfolding param
param_lem p s ows rest h o a e =
    let text = value_text p.value (ows ++ rest) in
    let names = IsToken-in_param_name p.name h.name_token in
    let ends = value_text-Stops p.value ows rest a e in
    rw
      (
        drop_while-append is_ows p.after (p.name ++ text) h.after_blank
            (token-Stops p.name text h.name_token h.name_ne_nil),
        take_while-append in_param_name p.name text names ends,
        drop_while-append in_param_name p.name text names ends,
        has_quote-IsToken p.name h.name_token,
      )
      (named_param_ne p.name (record s { p = text }) h.name_ne_nil
        ∙ param_rest-value_text p.name p.value s ows rest h.value_fits o a e)
