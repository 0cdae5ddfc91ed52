-- ===== src/Fuzz/Quiet.antt =====
-- Bytes with no DQUOTE before the next comma: from each place among them the walker's scan for the
-- element's end comes to that comma, whatever it made of the parameters.
use ngx_brotli.Base.{
  ℕ, zero, suc, ◌<◌, ◌≡◌, refl, subst, Bool, true, false, not, ◌&&◌, ◌||◌, Bytes, [], ◌∷◌, some,
  arith, ◌==◌, length, inl, inr, Bool-cases, drop_while, if_cases,
}
use ngx_brotli.AcceptEncoding.Scan.{at_end_or, skip_fuel, skip_to, step_over}
use ngx_brotli.AcceptEncoding.Walk.{is_comma}
use ngx_brotli.Fuzz.Scans.{junk_to_comma}
use ngx_brotli.Fuzz.Values.{IfSure, IfSure-imp}
use ngx_brotli.AcceptEncoding.Qvalue.{}

quiet : Bytes → Bool
quiet [] = true
quiet (c ∷ cs) = c == b',' || (not (c == b'"') && quiet cs)

to_comma : Bytes → Bytes
unfolding drop_while
to_comma p = drop_while (λ c. not (c == b',')) p

-- From `p` no DQUOTE comes before the next comma, where `r` begins.
pub record Rests (r p : Bytes) : Type 0 where
  calm : quiet p ≡ true
  lands : to_comma p ≡ r

pub Rests-tail :
    (r : Bytes) (c : ℕ) (cs : Bytes) → (c == b',') ≡ false → Rests r (c ∷ cs) → Rests r cs
unfolding quiet to_comma
Rests-tail r c cs e h = record { calm = ground (arith, h.calm); lands = ground (arith, h.lands) }

Rests-not_quote :
    (r : Bytes) (c : ℕ) (cs : Bytes) → (c == b',') ≡ false → Rests r (c ∷ cs) → (c == b'"') ≡ false
unfolding quiet
Rests-not_quote r c cs e h = ground (arith, h.calm)

-- A test that a comma fails holds of no comma.
module _ (test : ℕ → Bool) (fails : test b',' ≡ false) where
  not_comma : (c : ℕ) → test c ≡ true → (c == b',') ≡ false
  not_comma c e = elim (Bool-cases (c == b',')) [
    | inl f ↦ let same : c ≡ b',' = ground arith in absurd (cc (e, fails, same))
    | inr f ↦ f
  ]

  pub drop_while-Rests : (r p : Bytes) → Rests r p → Rests r (drop_while test p)
  unfolding drop_while
  drop_while-Rests r [] h = h
  drop_while-Rests r (c ∷ cs) h =
      if_cases (Rests r) (test c) _ _
        (λ e. drop_while-Rests r cs (Rests-tail r c cs (not_comma c e) h)) (λ e. h)

module _ (stop : ℕ → Bool) (stops : stop b',' ≡ true) where
  passes_comma : (c : ℕ) → stop c ≡ false → (c == b',') ≡ false
  passes_comma c e = elim (Bool-cases (c == b',')) [
    | inl f ↦ let same : c ≡ b',' = ground arith in absurd (cc (e, stops, same))
    | inr f ↦ f
  ]

  skip_fuel-Rests :
      (n : ℕ) (r p : Bytes)
      → length p < n
      → Rests r p
      → (p' : Bytes) × (skip_fuel n stop p ≡ some p') × Rests r p'
  unfolding skip_fuel step_over
  skip_fuel-Rests zero r p l h = absurd (omega arith)
  skip_fuel-Rests (suc n) r [] l h = ([], refl, h)
  skip_fuel-Rests (suc n) r (c ∷ cs) l h = elim (Bool-cases (stop c)) [
    | inl e ↦ (c ∷ cs, rw e, h)
    | inr e ↦
        let plain = passes_comma c e in
        let (p', f, k) = skip_fuel-Rests n r cs (omega arith) (Rests-tail r c cs plain h) in
        (p', rw (e, Rests-not_quote r c cs plain h) f, k)
  ]

  pub skip_to-Rests :
      (r p : Bytes) → Rests r p → (p' : Bytes) × (skip_to stop p ≡ some p') × Rests r p'
  unfolding skip_to
  skip_to-Rests r p h = skip_fuel-Rests (suc (length p)) r p (omega arith) h

skip_fuel-comma : (n : ℕ) (r p : Bytes) → length p < n → Rests r p → skip_fuel n is_comma p ≡ some r
unfolding skip_fuel step_over
skip_fuel-comma zero r p l h = absurd (omega arith)
skip_fuel-comma (suc n) r [] l h = unfold to_comma in ground (arith, h.lands)
skip_fuel-comma (suc n) r (c ∷ cs) l h = elim (Bool-cases (c == b',')) [
  | inl e ↦ unfold to_comma in rw e (ground (arith, h.lands))
  | inr e ↦
      rw (e, Rests-not_quote r c cs e h)
        (skip_fuel-comma n r cs (omega arith) (Rests-tail r c cs e h))
]

pub skip_to_comma-Rests : (r p : Bytes) → Rests r p → skip_to is_comma p ≡ some r
unfolding skip_to
skip_to_comma-Rests r p h = skip_fuel-comma (suc (length p)) r p (omega arith) h

-- The oracle's skip over junk checks just this.
pub junk_to_comma-Rests : (p : Bytes) → IfSure (λ r. Rests r p) (junk_to_comma p)
unfolding junk_to_comma quiet to_comma
junk_to_comma-Rests [] = record { calm = refl; lands = refl }
junk_to_comma-Rests (c ∷ cs) = elim (Bool-cases (c == b',')) [
  | inl e ↦ rw e (record { calm = rw e refl; lands = rw e refl })
  | inr e ↦ elim (Bool-cases (c == b'"')) [
    | inl f ↦ rw (e, f) tt
    | inr f ↦
        rw (e, f)
          (IfSure-imp _ _ (junk_to_comma cs) (junk_to_comma-Rests cs)
            (λ r h. record { calm = rw (e, f) h.calm; lands = rw e h.lands }))
  ]
]

to_comma-stops : (p : Bytes) → at_end_or is_comma (to_comma p) ≡ true
unfolding to_comma drop_while
to_comma-stops [] = refl
to_comma-stops (c ∷ cs) = ground (arith, to_comma-stops cs)

pub Rests-at_comma : (r p : Bytes) → Rests r p → at_end_or is_comma r ≡ true
Rests-at_comma r p h = subst (λ (t : Bytes). at_end_or is_comma t ≡ true) h.lands (to_comma-stops p)
