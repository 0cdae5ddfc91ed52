-- ===== src/AcceptEncoding/Walk.antt =====
-- ngx_http_brotli_common.h: `ngx_http_brotli_coding_weight_ex`, `ngx_http_brotli_coding_weight`, and
-- the folding of several field lines. A weight of -1 is `none`.
use ngx_brotli.Base.{
  ℕ, zero, suc, Bool, false, not, ◌&&◌, ◌||◌, Bytes, List, [], ◌∷◌, Option, none, some, ◌==◌, ltb,
  length, if◌then◌else◌, drop_while, take_while, ◌>>=◌, codes, true,
}
use ngx_brotli.AcceptEncoding.Scan.{is_ows, same_name, skip_to, at_end_or}
use ngx_brotli.AcceptEncoding.Qvalue.{ends_value, eval_qvalue}

-- `coding_q` and `star_q`.
pub record Weights : Type 0 where
  pub coding_q : Option ℕ
  pub star_q : Option ℕ

abbrev pub absent : Weights
absent = record { coding_q = none; star_q = none }

abbrev pub separates : ℕ → Bool
separates c = c == b' ' || c == b'\t' || c == b','

abbrev pub in_coding_name : ℕ → Bool
in_coding_name c = not (c == b' ' || c == b'\t' || c == b';' || c == b',' || c == b'"')

abbrev pub is_comma : ℕ → Bool
is_comma c = c == b','

abbrev pub is_star_name : Bytes → Bool
is_star_name [] = false
is_star_name (c ∷ []) = c == b'*'
is_star_name (c ∷ d ∷ ds) = false

-- `if (q >= 0)`: which accumulator takes the weight.
abbrev pub record_weight : Bool → Bool → Option ℕ → Weights → Weights
record_weight is_coding is_star none w = w
record_weight is_coding is_star (some q) w =
    if is_coding
    then record w { coding_q = some q }
    else if is_star
    then record w { star_q = some q }
    else w

-- The parameters, if `*p` is ';'.
unfoldable pub element_weight : Bytes → Option (Option ℕ × Bytes)
unfolding eval_qvalue
element_weight [] = some (some 1000, [])
element_weight (c ∷ cs) = if c == b';' then eval_qvalue (c ∷ cs) else some (some 1000, c ∷ cs)

module _ (coding : Bytes) where
  -- One list element, from its first byte up to the next top-level comma.
  unfoldable pub element : Bytes → Weights → Option (Bytes × Weights)
  unfolding element_weight same_name skip_to
  element tok w =
      let name = take_while in_coding_name tok in
      let p = drop_while is_ows (drop_while in_coding_name tok) in
      let clean = at_end_or ends_value p in
      element_weight p >>= λ qp. skip_to is_comma qp.1 >>= λ rest.
      some
        (rest, record_weight (clean && same_name name coding) (clean && is_star_name name) qp.0 w)

  -- `while (p < end)`, on fuel.
  unfoldable pub walk_fuel : ℕ → Bytes → Weights → Option Weights
  unfolding element
  walk_fuel zero p w = none
  walk_fuel (suc n) p w = elim (drop_while separates p) [
    | [] ↦ some w
    | c ∷ cs ↦ elim (element (c ∷ cs) w) [ none ↦ none | some (p', w') ↦ walk_fuel n p' w' ]
  ]

  -- `coding_weight_ex`: the two weights of one field value.
  unfoldable pub coding_weight_ex : Bytes → Option Weights
  unfolding walk_fuel
  coding_weight_ex ae = walk_fuel (suc (length ae)) ae absent

-- `field_weight`, which also ends `coding_weight_ex`: an explicit token decides, else "*" where it
-- is allowed.
unfoldable pub field_weight : Bool → Weights → Option ℕ
field_weight allow_wildcard w = elim w.coding_q [
  | some q ↦ some q
  | none ↦ if allow_wildcard then w.star_q else none
]

-- `coding_weight`; the outer `none` is the end of the fuel.
unfoldable pub coding_weight : Bytes → Bool → Bytes → Option (Option ℕ)
unfolding coding_weight_ex field_weight
coding_weight coding allow_wildcard ae = do
  w ← coding_weight_ex coding ae
  some (field_weight allow_wildcard w)

-- `fold_line_weight`: one line's weights into the accumulators of the field.
unfoldable pub fold_line_weight : Bool → Weights → Weights → Weights
fold_line_weight allow_wildcard line w = elim line.coding_q [
  | some q ↦ record w { coding_q = some q }
  | none ↦ elim line.star_q [
    | some q ↦ if allow_wildcard then record w { star_q = some q } else w
    | none ↦ w
  ]
]

-- The loop of `request_coding_weight` over the field lines, in received order.
unfoldable pub fold_lines : Bytes → Bool → List Bytes → Weights → Option Weights
unfolding coding_weight_ex fold_line_weight
fold_lines coding allow_wildcard [] w = some w
fold_lines coding allow_wildcard (value ∷ values) w = do
  line ← coding_weight_ex coding value
  fold_lines coding allow_wildcard values (fold_line_weight allow_wildcard line w)

unfoldable pub request_coding_weight : Bytes → Bool → List Bytes → Option (Option ℕ)
unfolding fold_lines field_weight
request_coding_weight coding allow_wildcard lines = do
  w ← fold_lines coding allow_wildcard lines absent
  some (field_weight allow_wildcard w)

abbrev pub is_positive : Option ℕ → Bool
is_positive none = false
is_positive (some q) = ltb 0 q

-- `accept_encoding`, over one field value: true is NGX_OK, false is NGX_DECLINED.
unfoldable pub accept_encoding : Bytes → Option Bool
unfolding coding_weight
accept_encoding ae = do q ← coding_weight (codes "br") true ae; some (is_positive q)
