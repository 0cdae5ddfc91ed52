-- ===== src/Fuzz/Oracle.antt =====
-- fuzz/fuzz_accept_encoding.c: `ref_accepts`, the reference oracle that the fuzz harness compares the
-- walker with, one list element after the other.
use ngx_brotli.Base.{
  ℕ, zero, suc, Bool, true, false, Bytes, [], ◌∷◌, none, some, ◌==◌, ltb, length, if◌then◌else◌,
  drop_while, take_while,
}
use ngx_brotli.AcceptEncoding.Scan.{is_ows, at_end_or}
use ngx_brotli.AcceptEncoding.Qvalue.{ends_value, is_q_name, past_semicolon}
use ngx_brotli.AcceptEncoding.Walk.{Weights, absent, separates, is_star_name}
use ngx_brotli.Fuzz.Scans.{
  Answer, ◌>>=◌, is_token_byte, is_br_name, in_name, close_quote, junk_to_comma, past_byte,
  quoted_element, weight_digits, plain_value, sure, unsure, spent,
}

-- The variables of one round: the cursor, `q`, `q_seen`, `is_br` and `is_star`.
pub record Reading : Type 0 where
  pub p : Bytes
  pub q : ℕ
  pub q_seen : Bool
  pub is_br : Bool
  pub is_star : Bool

-- How a parameter leaves its loop: `break`, or the next round.
pub data Turn : Type 0 where
  goes_on breaks : Reading → Turn

-- After a value only OWS, then ';', ',' or the end.
unfoldable pub behind_value : Reading → Answer Turn
behind_value s =
    let p = drop_while is_ows s.p in
    if at_end_or ends_value p then sure (goes_on (record s { p = p })) else unsure

-- Behind '=' and its OWS.
unfoldable pub value : Bool → Reading → Answer Turn
unfolding weight_digits close_quote behind_value
value true s =
    if s.q_seen
    then unsure
    else weight_digits s.p >>= λ (q, p). behind_value (record s { p = p; q = q; q_seen = true })
value false s = plain_value s.p >>= λ p. behind_value (record s { p = p })

abbrev pub valueless : Bool → Reading → Answer Turn
valueless is_qp s = if is_qp then unsure else sure (goes_on s)

-- Behind the name and its OWS.
unfoldable pub behind_name : Bool → Reading → Bytes → Answer Turn
unfolding value
behind_name is_qp s [] = valueless is_qp s
behind_name is_qp s (c ∷ cs) =
    if c == b'=' then value is_qp (record s { p = drop_while is_ows cs }) else valueless is_qp s

-- An element that can match nothing any more.
abbrev pub disowned : Reading → Bytes → Reading
disowned s p = record s { p = p; is_br = false; is_star = false }

abbrev pub named : Bytes → Reading → Answer Turn
named [] s = junk_to_comma s.p >>= λ p. sure (breaks (disowned s p))
named (c ∷ cs) s =
    let s' = record s { p = drop_while is_ows s.p } in behind_name (is_q_name (c ∷ cs)) s' s'.p

-- One parameter, from behind its ';'.
unfoldable pub parameter : Reading → Answer Turn
unfolding behind_name junk_to_comma
parameter s =
    let start = drop_while is_ows s.p in
    named (take_while in_name start) (record s { p = drop_while in_name start })

abbrev pub after_turn : (Reading → Answer Reading) → Turn → Answer Reading
after_turn rounds (breaks s) = sure s
after_turn rounds (goes_on s) = rounds s

-- `while (i < n && d[i] == ';')`, on fuel.
unfoldable pub parameters : ℕ → Reading → Answer Reading
unfolding parameter
parameters zero s = spent
parameters (suc n) s = elim (past_semicolon s.p) [
  | none ↦ sure s
  | some p ↦ parameter (record s { p = p }) >>= after_turn (parameters n)
]

-- The name's OWS is passed: junk before the next ';' or ',' disowns the element.
unfoldable pub behind_token : Reading → Answer Reading
unfolding junk_to_comma
behind_token s =
    if at_end_or ends_value s.p then sure s else junk_to_comma s.p >>= λ p. sure (disowned s p)

-- The weight goes to the name it belongs to: `br_q` is `coding_q`.
abbrev pub assign : Reading → Weights → Weights
assign s w =
    if s.is_br
    then record w { coding_q = some s.q }
    else if s.is_star
    then record w { star_q = some s.q }
    else w

-- Only a ',' may remain of the element.
abbrev pub consumed : Reading → Weights → Answer (Bytes × Weights)
consumed s w = if at_end_or (λ c. c == b',') s.p then sure (past_byte s.p, assign s w) else unsure

abbrev pub started : Bytes → Bytes → Reading
started name p = record {
  p = p;
  q = 1000;
  q_seen = false;
  is_br = is_br_name name;
  is_star = is_star_name name;
}

abbrev pub token_named : Bytes → Bytes → Weights → Answer (Bytes × Weights)
token_named [] p w = unsure
token_named (c ∷ cs) p w = behind_token (started (c ∷ cs) (drop_while is_ows p)) >>= λ s.
    parameters (suc (length s.p)) s >>= λ s'. consumed s' w

-- An element that starts with a token.
unfoldable pub token_element : Bytes → Weights → Answer (Bytes × Weights)
unfolding behind_token parameters is_br_name
token_element p w = token_named (take_while is_token_byte p) (drop_while is_token_byte p) w

-- One list element, from its first byte.
unfoldable pub list_element : ℕ → Bytes → Weights → Answer (Bytes × Weights)
unfolding token_element quoted_element
list_element c cs w =
    if c == b'"'
    then (quoted_element (suc (length (c ∷ cs))) (c ∷ cs) >>= λ p. sure (past_byte p, w))
    else token_element (c ∷ cs) w

-- `while (i < n)`, on fuel.
unfoldable pub elements : ℕ → Bytes → Weights → Answer Weights
unfolding list_element
elements zero p w = spent
elements (suc n) p w = elim (drop_while separates p) [
  | [] ↦ sure w
  | c ∷ cs ↦ list_element c cs w >>= λ r. elements n r.0 r.1
]

-- The explicit weight decides, else that of "*".
unfoldable pub ref_verdict : Weights → Bool
ref_verdict w = elim w.coding_q [
  | some q ↦ ltb 0 q
  | none ↦ elim w.star_q [ some q ↦ ltb 0 q | none ↦ false ]
]

unfoldable pub ref_accepts : Bytes → Answer Bool
unfolding elements ref_verdict
ref_accepts d = elements (suc (length d)) d absent >>= λ w. sure (ref_verdict w)
