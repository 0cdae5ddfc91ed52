-- ===== src/AcceptEncoding/ReadsValue.antt =====
-- The walker's scans read back every well-formed value of a parameter.
use ngx_brotli.Base.{
  ℕ, zero, suc, ◌+◌, ◌*◌, ◌≤◌, ◌<◌, ◌≡◌, refl, ap, ◌∙◌, Bool, true, false, ◌||◌, Bytes, List, [],
  ◌∷◌, ◌++◌, some, arith, ◌==◌, length, All, All-append, append_assoc, Stops, drop_while-append,
  replicate,
}
use ngx_brotli.AcceptEncoding.Scan.{
  in_quote, skip_quoted, step_over, skip_fuel, skip_to, is_ows, at_end_or,
}
use ngx_brotli.AcceptEncoding.Qvalue.{
  Params, well_formed, ends_value, ends_qvalue, add_digit, fraction, skip_zeros, after_zero,
  after_one, after_digits, after_param, qvalue,
}
use ngx_brotli.AcceptEncoding.Grammar.{
  Qvalue, bare_zero, bare_one, zero_point, one_point, Item, octet, pair, digits_text, qvalue_text,
  items_text, AreBlank, IsToken, IsQvalue, IsItem, digits_milli, milli,
}

-- Bytes that a scan to `stop` passes over one at a time.
abbrev Plain : (ℕ → Bool) → Bytes → Type 0
Plain stop = All λ c. (stop c || c == b'"') ≡ false

skip_fuel-Plain :
    (n : ℕ) (stop : ℕ → Bool) (xs rest : Bytes)
    → length (xs ++ rest) < n
    → Plain stop xs
    → at_end_or stop rest ≡ true
    → skip_fuel n stop (xs ++ rest) ≡ some rest
unfolding skip_fuel step_over
skip_fuel-Plain zero stop xs rest h a e = absurd (omega arith)
skip_fuel-Plain (suc n) stop [] [] h a e = refl
skip_fuel-Plain (suc n) stop [] (c ∷ cs) h a e = rw e
skip_fuel-Plain (suc n) stop (x ∷ xs) rest h a e =
    ground (arith, skip_fuel-Plain n stop xs rest (omega arith) a.1 e)

in_quote_octet :
    (c : ℕ) (xs : Bytes) → (c == b'"' || c == b'\\') ≡ false → in_quote (c ∷ xs) ≡ in_quote xs
unfolding in_quote
in_quote_octet c [] h = ground arith
in_quote_octet c (d ∷ ds) h = ground arith

-- The quoted-string ends at the DQUOTE behind its items.
in_quote-items_text :
    (is : List Item) (rest : Bytes)
    → All IsItem is
    → in_quote (items_text is (b'"' ∷ rest)) ≡ b'"' ∷ rest
unfolding in_quote
in_quote-items_text [] [] a = refl
in_quote-items_text [] (c ∷ cs) a = refl
in_quote-items_text (octet c ∷ is) rest a = in_quote_octet c _ a.0 ∙ in_quote-items_text is rest a.1
in_quote-items_text (pair c ∷ is) rest a = in_quote-items_text is rest a.1

skip_fuel_quoted :
    (n : ℕ) (stop : ℕ → Bool) (is : List Item) (rest tail : Bytes)
    → All IsItem is
    → stop b'"' ≡ false
    → skip_fuel n stop rest ≡ some tail
    → skip_fuel (suc n) stop (b'"' ∷ items_text is (b'"' ∷ rest)) ≡ some tail
unfolding skip_fuel step_over skip_quoted
skip_fuel_quoted n stop is rest tail a e h = rw (e, in_quote-items_text is rest a) h

pub length-items_text : (is : List Item) (rest : Bytes) → length rest ≤ length (items_text is rest)
length-items_text [] rest = omega arith
length-items_text (octet c ∷ is) rest = omega (arith, length-items_text is rest)
length-items_text (pair c ∷ is) rest = omega (arith, length-items_text is rest)

AreBlank-Plain : (xs : Bytes) → AreBlank xs → Plain ends_value xs
AreBlank-Plain [] a = tt
AreBlank-Plain (x ∷ xs) a = (ground (arith, a.0), AreBlank-Plain xs a.1)

IsToken-Plain : (xs : Bytes) → IsToken xs → Plain ends_value xs
IsToken-Plain [] a = tt
IsToken-Plain (x ∷ xs) a = (ground (arith, a.0), IsToken-Plain xs a.1)

pub AreBlank-Stops : (rest : Bytes) → at_end_or ends_value rest ≡ true → Stops is_ows rest
AreBlank-Stops [] e = tt
AreBlank-Stops (c ∷ cs) e = ground arith

-- The blanks behind a parameter are passed over, up to ';', ',' or the end.
pub after_param_lem :
    (s : Params) (ows rest : Bytes)
    → AreBlank ows
    → at_end_or ends_value rest ≡ true
    → after_param (record s { p = ows ++ rest }) ≡ well_formed (record s { p = rest })
unfolding after_param
after_param_lem s ows rest a e =
    rw (drop_while-append is_ows ows rest a (AreBlank-Stops rest e)) (rw e)

-- A value that is no weight is passed over with the blanks behind it.
pub skip_to-token :
    (v ows rest : Bytes)
    → IsToken v
    → AreBlank ows
    → at_end_or ends_value rest ≡ true
    → skip_to ends_value (v ++ (ows ++ rest)) ≡ some rest
unfolding skip_to
skip_to-token v ows rest a b e = rw (← append_assoc v ows rest) (
    skip_fuel-Plain (suc (length ((v ++ ows) ++ rest))) ends_value (v ++ ows) rest (omega arith)
      (All-append _ v ows (IsToken-Plain v a) (AreBlank-Plain ows b)) e)

pub skip_to-quoted :
    (is : List Item) (ows rest : Bytes)
    → All IsItem is
    → AreBlank ows
    → at_end_or ends_value rest ≡ true
    → skip_to ends_value (b'"' ∷ items_text is (b'"' ∷ (ows ++ rest))) ≡ some rest
unfolding skip_to
skip_to-quoted is ows rest a b e =
    let fuel = length (b'"' ∷ items_text is (b'"' ∷ (ows ++ rest))) in
    skip_fuel_quoted fuel ends_value is (ows ++ rest) rest a refl (
      skip_fuel-Plain fuel ends_value ows rest
        (omega (arith, length-items_text is (b'"' ∷ (ows ++ rest)))) (AreBlank-Plain ows b) e)

AreBlank-ends_qvalue :
    (ows rest : Bytes)
    → AreBlank ows
    → at_end_or ends_value rest ≡ true
    → at_end_or ends_qvalue (ows ++ rest) ≡ true
AreBlank-ends_qvalue [] [] a e = refl
AreBlank-ends_qvalue [] (c ∷ cs) a e = ground arith
AreBlank-ends_qvalue (x ∷ xs) rest a e = ground (arith, a.0)

add_digit_digit :
    (k q d : ℕ) (rest : Bytes) → d < 10 → add_digit k (q, (b'0' + d) ∷ rest) ≡ (q + d * k, rest)
add_digit_digit k q d rest h = ground arith

add_digit_stop :
    (k q : ℕ) (rest : Bytes) → at_end_or ends_qvalue rest ≡ true → add_digit k (q, rest) ≡ (q, rest)
add_digit_stop k q [] e = refl
add_digit_stop k q (c ∷ cs) e = ground arith

skip_zeros-replicate :
    (left k : ℕ) (rest : Bytes)
    → k ≤ left
    → at_end_or ends_qvalue rest ≡ true
    → skip_zeros left (replicate k b'0' ++ rest) ≡ rest
skip_zeros-replicate zero zero rest h e = refl
skip_zeros-replicate zero (suc k) rest h e = absurd (omega arith)
skip_zeros-replicate (suc left) zero [] h e = refl
skip_zeros-replicate (suc left) zero (c ∷ cs) h e = ground arith
skip_zeros-replicate (suc left) (suc k) rest h e = skip_zeros-replicate left k rest (omega arith) e

fraction-digits_text :
    (ds : List ℕ) (rest : Bytes)
    → length ds ≤ 3
    → All (λ d. d < 10) ds
    → at_end_or ends_qvalue rest ≡ true
    → fraction (digits_text ds rest) ≡ (digits_milli 100 ds, rest)
fraction-digits_text [] rest h a e =
    rw (add_digit_stop 100 0 rest e, add_digit_stop 10 0 rest e, add_digit_stop 1 0 rest e)
fraction-digits_text (x ∷ []) rest h a e =
    rw (add_digit_digit 100 0 x rest a.0, add_digit_stop 10 _ rest e, add_digit_stop 1 _ rest e)
      (ap (λ (q : ℕ). (q, rest)) (omega arith))
fraction-digits_text (x ∷ y ∷ []) rest h a e =
    rw (add_digit_digit 100 0 x _ a.0, add_digit_digit 10 _ y rest a.1.0, add_digit_stop 1 _ rest e)
      (ap (λ (q : ℕ). (q, rest)) (omega arith))
fraction-digits_text (x ∷ y ∷ z ∷ []) rest h a e =
    rw
      (
        add_digit_digit 100 0 x _ a.0,
        add_digit_digit 10 _ y _ a.1.0,
        add_digit_digit 1 _ z rest a.1.1.0,
      )
      (ap (λ (q : ℕ). (q, rest)) (omega arith))
fraction-digits_text (x ∷ y ∷ z ∷ w ∷ ds) rest h a e = absurd (omega arith)

after_digits_lem :
    (s : Params) (ows rest : Bytes)
    → AreBlank ows
    → at_end_or ends_value rest ≡ true
    → after_digits (record s { p = ows ++ rest }) ≡ well_formed (record s { p = rest })
after_digits_lem s ows rest a e =
    rw (AreBlank-ends_qvalue ows rest a e) (after_param_lem s ows rest a e)

after_zero_stop : (rest : Bytes) → at_end_or ends_qvalue rest ≡ true → after_zero rest ≡ (0, rest)
after_zero_stop [] e = refl
after_zero_stop (c ∷ cs) e = ground arith

after_one_stop : (rest : Bytes) → at_end_or ends_qvalue rest ≡ true → after_one rest ≡ (1000, rest)
after_one_stop [] e = refl
after_one_stop (c ∷ cs) e = ground arith

-- A qvalue is read back, with the blanks behind it.
pub qvalue-qvalue_text :
    (s : Params) (q : Qvalue) (ows rest : Bytes)
    → IsQvalue q
    → AreBlank ows
    → at_end_or ends_value rest ≡ true
    → qvalue s (qvalue_text q (ows ++ rest)) ≡ well_formed (record s { q = milli q; p = rest })
unfolding qvalue
qvalue-qvalue_text s bare_zero ows rest h a e =
    rw (after_zero_stop (ows ++ rest) (AreBlank-ends_qvalue ows rest a e))
      (after_digits_lem (record s { q = 0 }) ows rest a e)
qvalue-qvalue_text s bare_one ows rest h a e =
    rw (after_one_stop (ows ++ rest) (AreBlank-ends_qvalue ows rest a e))
      (after_digits_lem (record s { q = 1000 }) ows rest a e)
qvalue-qvalue_text s (zero_point ds) ows rest h a e =
    rw (fraction-digits_text ds (ows ++ rest) h.0 h.1 (AreBlank-ends_qvalue ows rest a e))
      (after_digits_lem (record s { q = milli (zero_point ds) }) ows rest a e)
qvalue-qvalue_text s (one_point k) ows rest h a e =
    rw (skip_zeros-replicate 3 k (ows ++ rest) h (AreBlank-ends_qvalue ows rest a e))
      (after_digits_lem (record s { q = 1000 }) ows rest a e)
