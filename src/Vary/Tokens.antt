-- ===== src/Vary/Tokens.antt =====
-- The token loop against a description of the field value: the pieces between commas, trimmed.
use ngx_brotli.Base.{
  ℕ, zero, suc, ◌≤◌, ◌<◌, ◌≡◌, refl, ap, sym, ◌∙◌, Bool, true, false, ◌||◌, Bytes, List, [], ◌∷◌,
  Option, some, arith, ◌==◌, length, if◌then◌else◌, drop_while, take_while, length-drop_while-le,
}
use ngx_brotli.AcceptEncoding.Scan.{is_ows, same_name}
use ngx_brotli.Vary.{trim_end, not_comma, past_comma, token_fuel, has_token}

-- The pieces between commas.
abbrev pub push_first : ℕ → List Bytes → List Bytes
push_first c [] = (c ∷ []) ∷ []
push_first c (p ∷ ps) = (c ∷ p) ∷ ps

unfoldable pub pieces : Bytes → List Bytes
pieces [] = [] ∷ []
pieces (c ∷ cs) = if c == b',' then [] ∷ pieces cs else push_first c (pieces cs)

abbrev pub trim : Bytes → Bytes
trim p = trim_end (drop_while is_ows p)

abbrev pub any : (Bytes → Bool) → List Bytes → Bool
any test [] = false
any test (p ∷ ps) = test p || any test ps

abbrev rest_pieces : Bytes → List Bytes
rest_pieces [] = []
rest_pieces (c ∷ cs) = pieces cs

pieces_lem : (p : Bytes) → pieces p ≡ take_while not_comma p ∷ rest_pieces (drop_while not_comma p)
unfolding pieces take_while drop_while
pieces_lem [] = refl
pieces_lem (c ∷ cs) = ground (arith, pieces_lem cs)

take_while-drop_while :
    (p : Bytes)
    → take_while not_comma (drop_while is_ows p) ≡ drop_while is_ows (take_while not_comma p)
unfolding take_while drop_while
take_while-drop_while [] = refl
take_while-drop_while (c ∷ cs) = ground (arith, take_while-drop_while cs)

drop_while-drop_while :
    (p : Bytes) → drop_while not_comma (drop_while is_ows p) ≡ drop_while not_comma p
unfolding drop_while
drop_while-drop_while [] = refl
drop_while-drop_while (c ∷ cs) = ground (arith, drop_while-drop_while cs)

pub length-past_comma : (q : Bytes) (n : ℕ) → length q ≤ suc n → length (past_comma q) ≤ n
length-past_comma [] n h = omega arith
length-past_comma (c ∷ cs) n h = omega (arith, h)

-- A search that stops at the first hit.
pub or_else_any :
    (b c : Bool) (rest : Option Bool)
    → rest ≡ some c
    → (if b then some true else rest) ≡ some (b || c)
or_else_any true c rest e = refl
or_else_any false c rest e = e

module _ (name : Bytes) (named : 0 < length name) where
  abbrev is_named : Bytes → Bool
  is_named p = same_name (trim p) name

  nil-is_named : is_named [] ≡ false
  unfolding same_name trim_end drop_while
  nil-is_named = ground arith

  any-past_comma : (q : Bytes) → any is_named (pieces (past_comma q)) ≡ any is_named (rest_pieces q)
  unfolding pieces
  any-past_comma [] = rw (nil-is_named) refl
  any-past_comma (c ∷ cs) = refl

  abbrev starts_named : Bytes → Bool
  starts_named q = same_name (trim_end (take_while not_comma q)) name

  pieces_behind :
      (p q : Bytes)
      → drop_while is_ows p ≡ q
      → any is_named (pieces p)
        ≡ (starts_named q || any is_named (pieces (past_comma (drop_while not_comma q))))
  pieces_behind p q e =
      let head = ap (λ q. take_while not_comma q) (sym e) ∙ take_while-drop_while p in
      let tail = ap (λ q. drop_while not_comma q) (sym e) ∙ drop_while-drop_while p in
      ap (any is_named) (pieces_lem p)
      ∙ rw (head, tail, any-past_comma (drop_while not_comma p)) refl

  -- One round, at the bytes behind the blanks.
  abbrev round_at : ℕ → Bytes → Option Bool
  round_at n [] = some false
  round_at n (c ∷ cs) =
      if starts_named (c ∷ cs)
      then some true
      else token_fuel n name (past_comma (drop_while not_comma (c ∷ cs)))

  token_fuel-suc :
      (n : ℕ) (p q : Bytes) → drop_while is_ows p ≡ q → token_fuel (suc n) name p ≡ round_at n q
  unfolding token_fuel
  token_fuel-suc n p [] e = rw (e, token_fuel) refl
  token_fuel-suc n p (c ∷ cs) e = rw (e, token_fuel) refl

  round_lem :
      (n : ℕ) (p q : Bytes)
      → drop_while is_ows p ≡ q
      → length q ≤ suc n
      → ((p' : Bytes)
          → length p' ≤ n
          → token_fuel (suc n) name p' ≡ some (any is_named (pieces p')))
      → round_at (suc n) q ≡ some (any is_named (pieces p))
  unfolding pieces same_name trim_end take_while drop_while
  round_lem n p [] e h rest = rw (pieces_behind p [] e, nil-is_named) refl
  round_lem n p (c ∷ cs) e h rest =
      let q = drop_while not_comma (c ∷ cs) in
      let fits =
        length-past_comma q n (omega (arith, h, length-drop_while-le not_comma (c ∷ cs))) in
      rw (pieces_behind p (c ∷ cs) e) (
        or_else_any (starts_named (c ∷ cs)) (any is_named (pieces (past_comma q)))
          (token_fuel (suc n) name (past_comma q)) (rest (past_comma q) fits))

  token_fuel_lem :
      (n : ℕ) (p : Bytes)
      → length p ≤ n
      → token_fuel (suc n) name p ≡ some (any is_named (pieces p))
  unfolding drop_while pieces
  token_fuel_lem zero [] h = token_fuel-suc 0 [] [] refl ∙ rw (nil-is_named) refl
  token_fuel_lem zero (c ∷ cs) h = ground (arith, h)
  token_fuel_lem (suc n) p h =
      let q = drop_while is_ows p in
      token_fuel-suc (suc n) p q refl
      ∙ round_lem n p q refl (omega (arith, h, length-drop_while-le is_ows p)) (token_fuel_lem n)

  -- For a name that is not empty, the loop over a header value answers for every value, and the
  -- answer is whether some piece between commas, without the blanks around it, is the name in any
  -- case.
  pub has_token-pieces :
      (value : Bytes)
      → has_token name value ≡ some (any (λ p. same_name (trim p) name) (pieces value))
  unfolding has_token
  has_token-pieces value = token_fuel_lem (length value) value (omega arith)
