-- ===== src/AcceptEncoding/WalkEnds.antt =====
-- The walker of Accept-Encoding ends on every byte string.
use ngx_brotli.Base.{
  ℕ, zero, suc, ◌≤◌, ◌<◌, ◌≡◌, refl, ap, Bool, true, false, ◌&&◌, Bytes, [], ◌∷◌, Option, none,
  some, arith, ◌==◌, length, ◌⊎◌, inl, inr, Bool-cases, drop_while, take_while,
  length-drop_while-le, Stops, drop_while-Stops,
}
use ngx_brotli.AcceptEncoding.Scan.{is_ows, same_name, skip_to, at_end_or}
use ngx_brotli.AcceptEncoding.ScanEnds.{Reaches, skip_to-Reaches, skip_to-shorter}
use ngx_brotli.AcceptEncoding.Qvalue.{ends_value}
use ngx_brotli.AcceptEncoding.ParamsEnd.{IsMilli, eval_qvalue_total}
use ngx_brotli.AcceptEncoding.Walk.{
  Weights, absent, separates, in_coding_name, is_comma, record_weight, is_star_name, element_weight,
  element, walk_fuel, coding_weight_ex,
}

abbrev pub AreMilli : Weights → Type 0
AreMilli w = IsMilli w.coding_q × IsMilli w.star_q

record_weight-AreMilli :
    (is_coding is_star : Bool) (q : Option ℕ) (w : Weights)
    → IsMilli q
    → AreMilli w
    → AreMilli (record_weight is_coding is_star q w)
record_weight-AreMilli is_coding is_star none w h k = k
record_weight-AreMilli true is_star (some q) w h k = (h, k.1)
record_weight-AreMilli false true (some q) w h k = (k.0, h)
record_weight-AreMilli false false (some q) w h k = k

-- The parameters leave a cursor that is no further back, and that moves off a byte other than a comma.
record Weighed (p : Bytes) : Type 0 where
  q : Option ℕ
  rest : Bytes
  returns : element_weight p ≡ some (q, rest)
  milli : IsMilli q
  moves : (rest ≡ p) ⊎ (length rest < length p)

element_weight-Weighed : (p : Bytes) → Weighed p
unfolding element_weight
element_weight-Weighed [] = record {
  q = some 1000;
  rest = [];
  returns = refl;
  milli = omega arith;
  moves = inl refl;
}
element_weight-Weighed (c ∷ cs) = elim (Bool-cases (c == b';')) [
  | inl e ↦
      let (q, p, r, m, d) = eval_qvalue_total cs in
      let same : c ≡ b';' = ground arith in
      record {
        q = q;
        rest = p;
        returns = rw (e, same) r;
        milli = m;
        moves = rw same (ground arith);
      }
  | inr e ↦ record {
    q = some 1000;
    rest = c ∷ cs;
    returns = rw e;
    milli = omega arith;
    moves = inl refl;
  }
]

pub element_weight_total : (p : Bytes) → (t : Option ℕ × Bytes) × (element_weight p ≡ some t)
element_weight_total p = let v = element_weight-Weighed p in ((v.q, v.rest), v.returns)

abbrev pub past_name : Bytes → Bytes
past_name tok = drop_while is_ows (drop_while in_coding_name tok)

past_name-moves :
    (c : ℕ) (cs : Bytes)
    → separates c ≡ false
    → (length (past_name (c ∷ cs)) ≤ length cs)
      ⊎ ((past_name (c ∷ cs) ≡ c ∷ cs) × (is_comma c ≡ false))
unfolding drop_while
past_name-moves c cs e = elim (Bool-cases (in_coding_name c)) [
  | inl h ↦
      let p = drop_while in_coding_name cs in
      inl (
        rw h (omega (arith, length-drop_while-le in_coding_name cs, length-drop_while-le is_ows p)))
  | inr h ↦ inr (rw h (ground arith), ground arith)
]

consumed :
    (p : Bytes) (c : ℕ) (cs : Bytes)
    → (length p ≤ length cs) ⊎ ((p ≡ c ∷ cs) × (is_comma c ≡ false))
    → (v : Weighed p) → (r : Reaches is_comma v.rest (skip_to is_comma v.rest))
    → (v.rest ≡ p) ⊎ (length v.rest < length p)
    → length r.rest ≤ length cs
consumed p c cs (inl h) v r (inl e) = omega (arith, r.shorter, ap length e)
consumed p c cs (inl h) v r (inr k) = omega (arith, r.shorter)
consumed p c cs (inr (e, h)) v r (inl f) =
    let at_byte : at_end_or is_comma v.rest ≡ false = rw (f, e) h in
    omega (arith, skip_to-shorter is_comma v.rest at_byte r, ap length f, ap length e)
consumed p c cs (inr (e, h)) v r (inr k) = omega (arith, r.shorter, ap length e)

-- One element consumes at least one byte.
element_total :
    (coding : Bytes) (c : ℕ) (cs : Bytes) (w : Weights)
    → separates c ≡ false
    → AreMilli w
    → (p : Bytes) × (w' : Weights) × (element coding (c ∷ cs) w ≡ some (p, w'))
      × (length p ≤ length cs)
      × AreMilli w'
unfolding element
element_total coding c cs w e k =
    let p = past_name (c ∷ cs) in
    let clean = at_end_or ends_value p in
    let name = take_while in_coding_name (c ∷ cs) in
    let v = element_weight-Weighed p in
    let r = skip_to-Reaches is_comma v.rest in
    (
      r.rest,
      _,
      rw (v.returns, r.returns),
      consumed p c cs (past_name-moves c cs e) v r v.moves,
      record_weight-AreMilli (clean && same_name name coding) (clean && is_star_name name) v.q w
          v.milli k,
    )

-- The walk behind the separators.
walk_rest_total :
    (coding : Bytes) (n : ℕ) (p rest : Bytes) (w : Weights)
    → drop_while separates p ≡ rest
    → Stops separates rest
    → length rest < suc n
    → AreMilli w
    → ((p' : Bytes) (w' : Weights)
        → length p' < n
        → AreMilli w'
        → (w'' : Weights) × (walk_fuel coding n p' w' ≡ some w'') × AreMilli w'')
    → (w' : Weights) × (walk_fuel coding (suc n) p w ≡ some w') × AreMilli w'
unfolding walk_fuel
walk_rest_total coding n p [] w e st h k ih = (w, rw (e, walk_fuel), k)
walk_rest_total coding n p (c ∷ cs) w e st h k ih =
    let (p', w', f, l, k') = element_total coding c cs w st k in
    let (w'', g, k'') = ih p' w' (omega arith) k' in (w'', rw (e, f, walk_fuel) g, k'')

walk_fuel_total :
    (coding : Bytes) (n : ℕ) (p : Bytes) (w : Weights)
    → length p < n
    → AreMilli w
    → (w' : Weights) × (walk_fuel coding n p w ≡ some w') × AreMilli w'
walk_fuel_total coding zero p w h k = absurd (omega arith)
walk_fuel_total coding (suc n) p w h k =
    walk_rest_total coding n p (drop_while separates p) w refl (drop_while-Stops separates p)
      (omega (arith, length-drop_while-le separates p)) k (walk_fuel_total coding n)

-- On every field value, whatever its bytes, the walker ends within its fuel, and both weights that
-- it reports are absent or at most 1000 milli-units.
pub coding_weight_ex_total :
    (coding ae : Bytes) → (w : Weights) × (coding_weight_ex coding ae ≡ some w) × AreMilli w
unfolding coding_weight_ex
coding_weight_ex_total coding ae =
    walk_fuel_total coding (suc (length ae)) ae absent (omega arith) (tt, tt)
