-- ===== src/Fuzz/Values.antt =====
-- Where the oracle is sure of a parameter's value, the walker reads the same weight and stops at the
-- same byte.
use ngx_brotli.Base.{
  ℕ, zero, suc, ◌<◌, ◌≡◌, refl, true, false, Bytes, [], ◌∷◌, some, arith, ◌==◌, length, inl, inr,
  Bool-cases, drop_while, if_cases, ap,
}
use ngx_brotli.AcceptEncoding.Scan.{
  is_ows, at_end_or, in_quote, skip_quoted, step_over, skip_fuel, skip_to,
}
use ngx_brotli.AcceptEncoding.ScanEnds.{length-in_quote-le}
use ngx_brotli.AcceptEncoding.Qvalue.{
  Params, fraction, skip_zeros, after_zero, after_one, with_digits, ends_value, qvalue,
}
use ngx_brotli.Fuzz.Scans.{
  Answer, sure, unsure, spent, ◌>>=◌, close_quote, scaled_digits, counted_zeros, zero_fraction,
  one_fraction, weight_digits, plain_value, in_value,
}

-- What holds if the oracle is sure.
abbrev pub IfSure {ℓ} : {A : Type ℓ} → (A → Type 0) → Answer A → Type 0
IfSure P (sure a) = P a
IfSure P unsure = Unit
IfSure P spent = Unit

pub IfSure-bind {ℓ κ} :
    {A : Type ℓ} {B : Type κ} (P : A → Type 0) (Q : B → Type 0) (r : Answer A) (f : A → Answer B)
    → IfSure P r
    → ((a : A) → P a → IfSure Q (f a))
    → IfSure Q (r >>= f)
IfSure-bind P Q (sure a) f h k = k a h
IfSure-bind P Q unsure f h k = tt
IfSure-bind P Q spent f h k = tt

pub IfSure-imp {ℓ} :
    {A : Type ℓ} (P Q : A → Type 0) (r : Answer A) → IfSure P r → ((a : A) → P a → Q a) → IfSure Q r
IfSure-imp P Q (sure a) h k = k a h
IfSure-imp P Q unsure h k = tt
IfSure-imp P Q spent h k = tt

scaled_digits-fraction : (p : Bytes) → scaled_digits 100 0 p ≡ fraction p
unfolding scaled_digits
scaled_digits-fraction [] = refl
scaled_digits-fraction (a ∷ []) = ground arith
scaled_digits-fraction (a ∷ b ∷ []) = ground arith
scaled_digits-fraction (a ∷ b ∷ c ∷ []) = ground arith
scaled_digits-fraction (a ∷ b ∷ c ∷ d ∷ ds) = ground arith

counted_zeros-skip_zeros : (p : Bytes) → counted_zeros 0 p ≡ skip_zeros 3 p
unfolding counted_zeros
counted_zeros-skip_zeros [] = refl
counted_zeros-skip_zeros (a ∷ []) = ground arith
counted_zeros-skip_zeros (a ∷ b ∷ []) = ground arith
counted_zeros-skip_zeros (a ∷ b ∷ c ∷ []) = ground arith
counted_zeros-skip_zeros (a ∷ b ∷ c ∷ d ∷ ds) = ground arith

zero_fraction-after_zero : (p : Bytes) → zero_fraction p ≡ after_zero p
zero_fraction-after_zero [] = refl
zero_fraction-after_zero (c ∷ cs) = rw (scaled_digits-fraction cs)

one_fraction-after_one : (p : Bytes) → one_fraction p ≡ after_one p
one_fraction-after_one [] = refl
one_fraction-after_one (c ∷ cs) = rw (counted_zeros-skip_zeros cs)

pub weight_digits-qvalue :
    (s : Params) (p : Bytes) → IfSure (λ r. qvalue s p ≡ with_digits s r) (weight_digits p)
unfolding weight_digits qvalue
weight_digits-qvalue s [] = tt
weight_digits-qvalue s (c ∷ cs) = elim (Bool-cases (c == b'0')) [
  | inl e ↦ rw (e, zero_fraction-after_zero cs) refl
  | inr e ↦ elim (Bool-cases (c == b'1')) [
    | inl f ↦ rw (e, f, one_fraction-after_one cs) refl
    | inr f ↦ rw (e, f) tt
  ]
]

-- Scans of the walker over OWS, over a plain value, and over a quoted-string.
skip_fuel-ows :
    (n : ℕ) (p : Bytes)
    → length p < n
    → at_end_or ends_value (drop_while is_ows p) ≡ true
    → skip_fuel n ends_value p ≡ some (drop_while is_ows p)
unfolding skip_fuel step_over drop_while
skip_fuel-ows zero p l h = absurd (omega arith)
skip_fuel-ows (suc n) [] l h = refl
skip_fuel-ows (suc n) (c ∷ cs) l h = elim (Bool-cases (is_ows c)) [
  | inl e ↦
      let goes : ends_value c ≡ false = ground arith in
      let plain : (c == b'"') ≡ false = ground arith in
      rw (e, goes, plain) (skip_fuel-ows n cs (omega arith) (rw e at h))
  | inr e ↦ let stops : ends_value c ≡ true = rw e at h in rw (stops, e)
]

skip_fuel-in_value :
    (n : ℕ) (p : Bytes)
    → length p < n
    → at_end_or ends_value (drop_while is_ows (drop_while in_value p)) ≡ true
    → skip_fuel n ends_value p ≡ some (drop_while is_ows (drop_while in_value p))
unfolding skip_fuel step_over
skip_fuel-in_value zero p l h = absurd (omega arith)
skip_fuel-in_value (suc n) [] l h = unfold drop_while in refl
skip_fuel-in_value (suc n) (c ∷ cs) l h = elim (Bool-cases (in_value c)) [
  | inl e ↦
      let goes : ends_value c ≡ false = ground arith in
      let plain : (c == b'"') ≡ false = ground arith in
      let tail : drop_while in_value (c ∷ cs) ≡ drop_while in_value cs =
        unfold drop_while in rw e in
      rw (goes, plain, tail) (skip_fuel-in_value n cs (omega arith) (rw tail at h))
  | inr e ↦
      let whole : drop_while in_value (c ∷ cs) ≡ c ∷ cs = unfold drop_while in rw e in
      rw whole (skip_fuel-ows (suc n) (c ∷ cs) l (rw whole at h))
]

pub close_quote-in_quote : (cs : Bytes) → IfSure (λ p. in_quote cs ≡ b'"' ∷ p) (close_quote cs)
unfolding close_quote in_quote
close_quote-in_quote [] = tt
close_quote-in_quote (c ∷ []) = elim (Bool-cases (c == b'"')) [
  | inl e ↦ let same : c ≡ b'"' = ground arith in rw (e, same) refl
  | inr e ↦ elim (Bool-cases (c == b'\\')) [ inl f ↦ rw (e, f) tt | inr f ↦ rw (e, f) tt ]
]
close_quote-in_quote (c ∷ d ∷ ds) = elim (Bool-cases (c == b'"')) [
  | inl e ↦ let same : c ≡ b'"' = ground arith in rw (e, same) refl
  | inr e ↦ elim (Bool-cases (c == b'\\')) [
    | inl f ↦ rw (e, f) tt
    | inr f ↦ rw (e, f) (close_quote-in_quote (d ∷ ds))
  ]
]

-- A value that the oracle passes over, with its OWS, is passed over by the walker's scan.
abbrev pub Skipped : Bytes → Bytes → Type 0
Skipped p rest =
    at_end_or ends_value (drop_while is_ows rest) ≡ true
    → skip_to ends_value p ≡ some (drop_while is_ows rest)

skip_fuel-closed :
    (n : ℕ) (cs rest : Bytes)
    → length rest < n
    → in_quote cs ≡ b'"' ∷ rest
    → at_end_or ends_value (drop_while is_ows rest) ≡ true
    → skip_fuel (suc n) ends_value (b'"' ∷ cs) ≡ some (drop_while is_ows rest)
unfolding skip_fuel step_over skip_quoted
skip_fuel-closed n cs rest l e h = rw e (skip_fuel-ows n rest l h)

pub plain_value-Skipped : (p : Bytes) → IfSure (Skipped p) (plain_value p)
unfolding skip_to
plain_value-Skipped [] = λ h. skip_fuel-ows 1 [] (omega arith) h
plain_value-Skipped (c ∷ cs) =
    if_cases (IfSure (Skipped (c ∷ cs))) (c == b'"') _ _
      (λ e.
        let same : c ≡ b'"' = ground arith in
        rw same (
          IfSure-imp _ (Skipped (b'"' ∷ cs)) (close_quote cs) (close_quote-in_quote cs) (λ rest k h.
            skip_fuel-closed (suc (length cs)) cs rest
              (omega (arith, ap length k, length-in_quote-le cs)) k h)))
      (λ e h. skip_fuel-in_value (suc (length (c ∷ cs))) (c ∷ cs) (omega arith) h)
