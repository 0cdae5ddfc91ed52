-- ===== src/Fuzz/Passed.antt =====
-- Elements of a field that name neither the coding nor "*", and junk behind a name.
use ngx_brotli.Base.{
  ℕ, ◌≡◌, refl, ap, subst, sym, ◌∙◌, Bool, true, false, ◌&&◌, Bytes, [], ◌∷◌, ◌++◌, Option, none,
  some, arith, inl, inr, Bool-cases, drop_while, take_while, codes, Stops, take_while_stop,
  drop_while_stop, append-nil, drop_while-Stops, and-false,
}
use ngx_brotli.AcceptEncoding.Scan.{is_ows, same_name, at_end_or}
use ngx_brotli.AcceptEncoding.Qvalue.{ends_value}
use ngx_brotli.AcceptEncoding.Walk.{
  Weights, in_coding_name, is_comma, separates, is_star_name, record_weight, element,
}
use ngx_brotli.AcceptEncoding.WalkEnds.{past_name, element_weight_total}
use ngx_brotli.Fuzz.Oracle.{}
use ngx_brotli.Fuzz.Scans.{is_token_byte, past_byte}
use ngx_brotli.Fuzz.Quiet.{Rests, drop_while-Rests, skip_to_comma-Rests}
use ngx_brotli.Fuzz.QuietParams.{element_weight-Rests}
use ngx_brotli.Fuzz.Values.{}
use ngx_brotli.Fuzz.Parameters.{}
use ngx_brotli.Fuzz.Weights.{}
use ngx_brotli.Fuzz.Names.{other_name-not_br, other_name-not_star, coding_name-token}

-- The walker reads the element to the same weights, and to a place with the same next element.
abbrev pub ElementAgrees : Bytes → Weights → Bytes × Weights → Type 0
ElementAgrees tok w r =
    (p : Bytes) × (element (codes "br") tok w ≡ some (p, r.1))
    × (drop_while separates p ≡ drop_while separates r.0)

record_weight-neither : (q : Option ℕ) (w : Weights) → record_weight false false q w ≡ w
record_weight-neither none w = refl
record_weight-neither (some q) w = refl

-- An element that is neither the coding's nor that of "*" is passed over.
pub element-passed :
    (tok r : Bytes) (w : Weights)
    → Rests r (past_name tok)
    → (at_end_or ends_value (past_name tok)
        && same_name (take_while in_coding_name tok) (codes "br"))
      ≡ false
    → (at_end_or ends_value (past_name tok) && is_star_name (take_while in_coding_name tok)) ≡ false
    → element (codes "br") tok w ≡ some (r, w)
unfolding element
element-passed tok r w h b s =
    let (t, e) = element_weight_total (past_name tok) in
    rw (e, b, s, skip_to_comma-Rests r t.1 (element_weight-Rests r (past_name tok) t e h))
      (ap (λ (v : Weights). some (r, v)) (record_weight-neither t.0 w))

pub drop_while-past_byte :
    (p : Bytes)
    → at_end_or is_comma p ≡ true
    → drop_while separates p ≡ drop_while separates (past_byte p)
unfolding drop_while
drop_while-past_byte [] h = refl
drop_while-past_byte (c ∷ cs) h = ground arith

-- The byte at which the token stops belongs to the walker's name.
pub name_goes_on : Bytes → Bool
name_goes_on [] = false
name_goes_on (c ∷ cs) = in_coding_name c

name_goes_on-Stops : (p : Bytes) → name_goes_on p ≡ false → Stops in_coding_name p
unfolding name_goes_on
name_goes_on-Stops [] h = tt
name_goes_on-Stops (c ∷ cs) h = h

-- Then no OWS is behind the token, and the element is not clean.
pub name_goes_on-dirty :
    (p : Bytes)
    → name_goes_on p ≡ true
    → (drop_while is_ows p ≡ p) × (at_end_or ends_value p ≡ false)
unfolding name_goes_on drop_while
name_goes_on-dirty [] h = absurd (cc)
name_goes_on-dirty (c ∷ cs) h = (ground arith, ground arith)

module _ (tok : Bytes) where
  abbrev pub behind : Bytes
  behind = drop_while is_token_byte tok

  pub stopped_name :
      name_goes_on behind ≡ false
      → (take_while in_coding_name tok ≡ take_while is_token_byte tok)
        × (past_name tok ≡ drop_while is_ows behind)
  stopped_name h =
      let (t, d) = coding_name-token tok in
      let stops = name_goes_on-Stops behind h in
      (
        t
            ∙ ap (λ (xs : Bytes). take_while is_token_byte tok ++ xs)
                (take_while_stop in_coding_name behind stops)
            ∙ append-nil (take_while is_token_byte tok),
        ap (λ (xs : Bytes). drop_while is_ows xs) (d ∙ drop_while_stop in_coding_name behind stops),
      )

  longer_name :
      (x : ℕ) (xs b : Bytes)
      → take_while is_token_byte tok ≡ x ∷ xs
      → behind ≡ b
      → name_goes_on b ≡ true
      → (same_name (take_while in_coding_name tok) (codes "br") ≡ false)
        × (is_star_name (take_while in_coding_name tok) ≡ false)
  unfolding name_goes_on
  longer_name x xs [] e f g = absurd (cc)
  longer_name x xs (c ∷ cs) e f g =
      let no_token = subst (Stops is_token_byte) f (drop_while-Stops is_token_byte tok) in
      let rest = take_while in_coding_name cs in
      let first : take_while in_coding_name (c ∷ cs) ≡ c ∷ rest = unfold take_while in rw g in
      let name : take_while in_coding_name tok ≡ (x ∷ xs) ++ (c ∷ rest) =
        (coding_name-token tok).0 ∙ rw (e, f, first) in
      rw name (other_name-not_br (x ∷ xs) c rest no_token, other_name-not_star x xs c rest)

  -- Junk behind the token and its OWS.
  pub junk-passed :
      (x : ℕ) (xs r : Bytes) (w : Weights)
      → take_while is_token_byte tok ≡ x ∷ xs
      → at_end_or ends_value (drop_while is_ows behind) ≡ false
      → Rests r (drop_while is_ows behind)
      → element (codes "br") tok w ≡ some (r, w)
  junk-passed x xs r w e d h = elim (Bool-cases (name_goes_on behind)) [
    | inl g ↦
        let (b, s) = longer_name x xs behind e refl g in
        let (here, _) = name_goes_on-dirty behind g in
        let k =
          drop_while-Rests is_ows refl r _
            (drop_while-Rests in_coding_name refl r behind (subst (Rests r) here h)) in
        let same = ap (λ (p : Bytes). drop_while is_ows p) (coding_name-token tok).1 in
        element-passed tok r w (subst (Rests r) (sym same) k) (rw (b, and-false) refl)
          (rw (s, and-false) refl)
    | inr g ↦
        let (t, p) = stopped_name g in
        let dirty = ap (at_end_or ends_value) p ∙ d in
        element-passed tok r w (rw p h) (rw dirty refl) (rw dirty refl)
  ]
