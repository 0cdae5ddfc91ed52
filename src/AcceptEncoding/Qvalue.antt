-- ===== src/AcceptEncoding/Qvalue.antt =====
-- ngx_http_brotli_common.h: `ngx_http_brotli_eval_qvalue`. A weight of -1 is `none`.
use ngx_brotli.Base.{
  ℕ, zero, suc, ◌+◌, ◌-◌, ◌*◌, Bool, true, false, not, ◌&&◌, ◌||◌, Bytes, [], ◌∷◌, Option, none,
  some, ◌==◌, leb, length, if◌then◌else◌, drop_while, take_while, ◌>>=◌,
}
use ngx_brotli.AcceptEncoding.Scan.{is_ows, skip_to, at_end_or}

-- The loop's variables: the cursor `p`, `q`, `q_seen` and `quoted_name`.
pub record Params : Type 0 where
  pub p : Bytes
  pub q : ℕ
  pub q_seen : Bool
  pub quoted_name : Bool

-- `goto malformed`, or the loop goes on.
pub data Verdict : Type 0 where
  malformed well_formed : Params → Verdict

abbrev pub in_param_name : ℕ → Bool
in_param_name c = not (c == b'=' || c == b';' || c == b',' || c == b' ' || c == b'\t')

abbrev pub ends_value : ℕ → Bool
ends_value c = c == b';' || c == b','

abbrev pub ends_qvalue : ℕ → Bool
ends_qvalue c = c == b' ' || c == b'\t' || c == b';' || c == b','

unfoldable pub has_quote : Bytes → Bool
has_quote [] = false
has_quote (c ∷ cs) = c == b'"' || has_quote cs

-- `nend - nstart == 1` and the byte is q or Q.
abbrev pub is_q_name : Bytes → Bool
is_q_name [] = false
is_q_name (c ∷ []) = c == b'q' || c == b'Q'
is_q_name (c ∷ d ∷ ds) = false

-- `if (p < end && *p >= '0' && *p <= '9') q += (*p++ - '0') * scale`.
abbrev pub add_digit : ℕ → ℕ × Bytes → ℕ × Bytes
add_digit scale (q, []) = (q, [])
add_digit scale (q, c ∷ cs) =
    if leb b'0' c && leb c b'9' then (q + (c - b'0') * scale, cs) else (q, c ∷ cs)

abbrev pub fraction : Bytes → ℕ × Bytes
fraction p = add_digit 1 (add_digit 10 (add_digit 100 (0, p)))

-- The loop that passes over up to `left` zeros.
abbrev pub skip_zeros : ℕ → Bytes → Bytes
skip_zeros zero p = p
skip_zeros (suc left) [] = []
skip_zeros (suc left) (c ∷ cs) = if c == b'0' then skip_zeros left cs else c ∷ cs

abbrev pub after_zero : Bytes → ℕ × Bytes
after_zero [] = (0, [])
after_zero (c ∷ cs) = if c == b'.' then fraction cs else (0, c ∷ cs)

abbrev pub after_one : Bytes → ℕ × Bytes
after_one [] = (1000, [])
after_one (c ∷ cs) = (1000, if c == b'.' then skip_zeros 3 cs else c ∷ cs)

-- The OWS behind a parameter, and what may follow it.
unfoldable pub after_param : Params → Verdict
after_param s =
    let s' = record s { p = drop_while is_ows s.p } in
    if at_end_or ends_value s'.p then well_formed s' else malformed s'

-- The test for trailing junk behind a qvalue.
abbrev pub after_digits : Params → Verdict
after_digits s = if at_end_or ends_qvalue s.p then after_param s else malformed s

abbrev pub with_digits : Params → ℕ × Bytes → Verdict
with_digits s (q, p) = after_digits (record s { q = q; p = p })

-- The qvalue itself, at `p`.
unfoldable pub qvalue : Params → Bytes → Verdict
qvalue s [] = malformed s
qvalue s (c ∷ cs) =
    if c == b'0'
    then with_digits s (after_zero cs)
    else if c == b'1'
    then with_digits s (after_one cs)
    else malformed s

-- Behind '=' and its OWS.
unfoldable pub param_value : Bool → Params → Option Verdict
unfolding qvalue after_param
param_value true s =
    some (if s.q_seen then malformed s else qvalue (record s { q_seen = true }) s.p)
param_value false s = do p ← skip_to ends_value s.p; some (after_param (record s { p = p }))

abbrev pub no_value : Bool → Params → Verdict
no_value is_q s = if is_q then malformed s else after_param s

-- Behind the name and its OWS.
unfoldable pub param_rest : Bool → Params → Bytes → Option Verdict
unfolding param_value after_param
param_rest is_q s [] = some (no_value is_q s)
param_rest is_q s (c ∷ cs) =
    if c == b'='
    then param_value is_q (record s { p = drop_while is_ows cs })
    else some (no_value is_q s)

abbrev pub named_param : Bytes → Params → Option Verdict
named_param [] s = some (malformed s)
named_param (c ∷ cs) s =
    let s' = record s { p = drop_while is_ows s.p } in param_rest (is_q_name (c ∷ cs)) s' s'.p

-- One parameter, from behind its ';'.
unfoldable pub param : Params → Option Verdict
unfolding param_rest has_quote
param s =
    let nstart = drop_while is_ows s.p in
    let name = take_while in_param_name nstart in
    named_param name (record s {
      p = drop_while in_param_name nstart;
      quoted_name = has_quote name || s.quoted_name;
    })

abbrev pub past_semicolon : Bytes → Option Bytes
past_semicolon [] = none
past_semicolon (c ∷ cs) = if c == b';' then some cs else none

-- `while (p < end && *p == ';')`, on fuel.
unfoldable pub params_fuel : ℕ → Params → Option Verdict
unfolding param
params_fuel zero s = none
params_fuel (suc n) s = elim (past_semicolon s.p) [
  | none ↦ some (well_formed s)
  | some p ↦ elim (param (record s { p = p })) [
    | none ↦ none
    | some v ↦ elim v [ malformed s' ↦ some (malformed s') | well_formed s' ↦ params_fuel n s' ]
  ]
]

abbrev pub initial_params : Bytes → Params
initial_params p = record { p = p; q = 1000; q_seen = false; quoted_name = false }

abbrev pub cursor_after : Bytes → Params → Bytes
cursor_after p s = if s.quoted_name then p else s.p

-- What the caller sees: the weight, and its cursor.
abbrev pub weight_of : Bytes → Verdict → Option ℕ × Bytes
weight_of p (malformed s) = (none, cursor_after p s)
weight_of p (well_formed s) = (some s.q, cursor_after p s)

unfoldable pub eval_qvalue : Bytes → Option (Option ℕ × Bytes)
unfolding params_fuel
eval_qvalue p = do v ← params_fuel (suc (length p)) (initial_params p); some (weight_of p v)
