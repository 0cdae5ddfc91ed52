-- ===== src/Fuzz/Agreement.antt =====
-- Where the oracle of the fuzz harness is sure, the walker decides the same, and no input makes the
-- harness trap.
use ngx_brotli.Base.{
  ℕ, zero, suc, ◌≡◌, refl, ap, sym, subst, ◌∙◌, if◌then◌else◌, Bool, true, false, Bytes, [], ◌∷◌,
  Option, none, some, arith, ◌==◌, length, inl, inr, Bool-cases, drop_while, take_while, if_cases,
  codes,
}
use mathlib.Core.Option.{some-injective}
use ngx_brotli.AcceptEncoding.Scan.{at_end_or, skip_fuel, skip_to, step_over, skip_quoted}
use ngx_brotli.AcceptEncoding.ParamsEnd.{IsMilli}
use ngx_brotli.AcceptEncoding.Walk.{
  Weights, absent, separates, is_comma, element_weight, element, walk_fuel, coding_weight_ex,
  field_weight, accept_encoding, is_positive,
}
use ngx_brotli.AcceptEncoding.WalkEnds.{coding_weight_ex_total}
use ngx_brotli.AcceptEncoding.LinesEnd.{field_weight-IsMilli}
use ngx_brotli.Fuzz.Ends.{ref_accepts-Ends}
use ngx_brotli.Fuzz.ParametersEnd.{Ends}
use ngx_brotli.Fuzz.Elements.{token_element-Agrees}
use ngx_brotli.Fuzz.Passed.{ElementAgrees, drop_while-past_byte}
use ngx_brotli.Fuzz.Harness.{
  returns, traps, bool_eq, out_of_range, second_token, differential, fuzz_one_input,
}
use ngx_brotli.Fuzz.Oracle.{list_element, elements, ref_verdict, ref_accepts}
use ngx_brotli.Fuzz.Scans.{Answer, sure, unsure, spent, close_quote, quoted_element, past_byte}
use ngx_brotli.Fuzz.Values.{IfSure, IfSure-bind, IfSure-imp, close_quote-in_quote}

-- An element that starts with a DQUOTE.
abbrev Crossed : ℕ → Bytes → Bytes → Type 0
Crossed n p r = (skip_fuel n is_comma p ≡ some r) × (at_end_or is_comma r ≡ true)

quoted_element-Crossed : (n : ℕ) (p : Bytes) → IfSure (Crossed n p) (quoted_element n p)
unfolding quoted_element skip_fuel step_over skip_quoted
quoted_element-Crossed zero p = tt
quoted_element-Crossed (suc n) [] = (refl, refl)
quoted_element-Crossed (suc n) (c ∷ cs) =
    let goes_on : (p : Bytes)
        → skip_fuel (suc n) is_comma (c ∷ cs) ≡ skip_fuel n is_comma p
        → IfSure (Crossed (suc n) (c ∷ cs)) (quoted_element n p) =
      λ p step.
        IfSure-imp _ _ (quoted_element n p) (quoted_element-Crossed n p)
          (λ r (h, k). (step ∙ h, k)) in
    elim (Bool-cases (c == b',')) [
      | inl e ↦ rw e (rw e refl, e)
      | inr e ↦ elim (Bool-cases (c == b'"')) [
        | inl f ↦
            rw (e, f)
              (IfSure-bind _ _ (close_quote cs) _ (close_quote-in_quote cs)
                (λ p k. goes_on p (rw (e, f, k) refl)))
        | inr f ↦ rw (e, f) (goes_on cs (rw (e, f) refl))
      ]
    ]

quoted-passed :
    (cs r : Bytes) (w : Weights)
    → Crossed (suc (length (b'"' ∷ cs))) (b'"' ∷ cs) r
    → ElementAgrees (b'"' ∷ cs) w (past_byte r, w)
unfolding element element_weight skip_to take_while drop_while
quoted-passed cs r w (h, k) = (r, rw h refl, drop_while-past_byte r k)

list_element-Agrees :
    (c : ℕ) (cs : Bytes) (w : Weights) → IfSure (ElementAgrees (c ∷ cs) w) (list_element c cs w)
unfolding list_element
list_element-Agrees c cs w =
    if_cases (IfSure (ElementAgrees (c ∷ cs) w)) (c == b'"') _ _
      (λ e.
        let same : c ≡ b'"' = ground arith in
        IfSure-bind _ _ (quoted_element (suc (length (c ∷ cs))) (c ∷ cs)) _
          (quoted_element-Crossed (suc (length (c ∷ cs))) (c ∷ cs))
          (rw same (λ r k. quoted-passed cs r w k)))
      (λ e. token_element-Agrees (c ∷ cs) w)

-- The rounds behind the separators.
elements_rest-Agrees :
    (n : ℕ) (p d rest : Bytes) (w : Weights)
    → drop_while separates p ≡ rest
    → drop_while separates d ≡ rest
    → ((p' d' : Bytes) (w' : Weights)
        → drop_while separates p' ≡ drop_while separates d'
        → IfSure (λ u. walk_fuel (codes "br") n p' w' ≡ some u) (elements n d' w'))
    → IfSure (λ u. walk_fuel (codes "br") (suc n) p w ≡ some u) (elements (suc n) d w)
unfolding walk_fuel elements
elements_rest-Agrees n p d [] w e f ih = rw (f, elements) (rw (e, walk_fuel))
elements_rest-Agrees n p d (c ∷ cs) w e f ih =
    rw (f, elements)
      (IfSure-bind _ _ (list_element c cs w) _ (list_element-Agrees c cs w) (λ (d', w') (p', g, k).
        IfSure-imp _ _ (elements n d' w') (ih p' d' w' k) (λ u l. rw (e, walk_fuel, g) l)))

elements-Agrees :
    (n : ℕ) (p d : Bytes) (w : Weights)
    → drop_while separates p ≡ drop_while separates d
    → IfSure (λ u. walk_fuel (codes "br") n p w ≡ some u) (elements n d w)
elements-Agrees zero p d w e = unfold elements in tt
elements-Agrees (suc n) p d w e =
    elements_rest-Agrees n p d (drop_while separates d) w e refl (elements-Agrees n)

ref_verdict-is_positive :
    (q s : Option ℕ)
    → (let w : Weights = record { coding_q = q; star_q = s } in
        ref_verdict w ≡ is_positive (field_weight true w))
unfolding ref_verdict field_weight
ref_verdict-is_positive (some q) s = refl
ref_verdict-is_positive none (some s) = refl
ref_verdict-is_positive none none = refl

accept_encoding-weights :
    (d : Bytes) (w : Weights)
    → coding_weight_ex (codes "br") d ≡ some w
    → accept_encoding d ≡ some (is_positive (field_weight true w))
unfolding accept_encoding
accept_encoding-weights d w e = rw e

elements-accept_encoding : (d : Bytes) → IfSure (λ ok. accept_encoding d ≡ some ok) (ref_accepts d)
unfolding ref_accepts coding_weight_ex
elements-accept_encoding d =
    let n = suc (length d) in
    IfSure-bind _ _ (elements n d absent) _ (elements-Agrees n d d absent refl) (λ w h.
      accept_encoding-weights d w h ∙ ap some (sym (ref_verdict-is_positive w.coding_q w.star_q)))

-- Where the oracle is sure of an answer, `accept_encoding` ends with the same answer.
pub ref_accepts-accept_encoding :
    (d : Bytes) (ok : Bool) → ref_accepts d ≡ sure ok → accept_encoding d ≡ some ok
ref_accepts-accept_encoding d ok e =
    subst (IfSure (λ b. accept_encoding d ≡ some b)) e (elements-accept_encoding d)

second_token-returns : (d : Bytes) → second_token d ≡ some returns
unfolding second_token
second_token-returns d =
    let (w, e, m) = coding_weight_ex_total (codes "dcb") d in
    rw e (in_range (field_weight false w) (field_weight-IsMilli false w.coding_q w.star_q m))
  where
    in_range :
        (q : Option ℕ) → IsMilli q → some (if out_of_range q then traps else returns) ≡ some returns
    in_range none h = refl
    in_range (some q) h = ground arith

bool_eq_refl : (b : Bool) → bool_eq b b ≡ true
bool_eq_refl true = refl
bool_eq_refl false = refl

differential-returns :
    (d : Bytes) (ok : Bool) (a : Answer Bool)
    → Ends (λ _. Unit) a
    → IfSure (λ b. b ≡ ok) a
    → differential ok a d ≡ some returns
unfolding differential
differential-returns d ok (sure b) h e = rw (e, bool_eq_refl ok) (second_token-returns d)
differential-returns d ok unsure h e = second_token-returns d
differential-returns d ok spent h e = absurd h

-- For every input and outcome of the allocation the harness ends and does not trap: the walker
-- agrees with the oracle wherever that is sure, and the weight of its second token is in range.
pub fuzz_one_input-returns :
    (allocated : Bool) (d : Bytes) → fuzz_one_input allocated d ≡ some returns
unfolding fuzz_one_input
fuzz_one_input-returns false d = refl
fuzz_one_input-returns true d =
    let (w, e, _) = coding_weight_ex_total (codes "br") d in
    let f = accept_encoding-weights d w e in
    rw f (
      differential-returns d _ (ref_accepts d) (ref_accepts-Ends d) (
        IfSure-imp _ _ (ref_accepts d) (elements-accept_encoding d)
          (λ b k. some-injective _ _ (sym k ∙ f))))
