-- ===== src/AcceptEncoding/ReadsField.antt =====
-- The walker reads back every well-formed field: its weights are those that the field means.
use ngx_brotli.Base.{
  ℕ, zero, suc, ◌≤◌, ◌<◌, ◌≡◌, ◌≢◌, refl, ap, ◌∙◌, true, Bytes, List, [], ◌∷◌, ◌++◌, some, arith,
  length, length-append, All, drop_while, Stops, drop_while-append, drop_while_stop,
}
use ngx_brotli.AcceptEncoding.Grammar.{
  Param, Element, value_text, blanks, params_text, element_text, comma_before, field_text, IsToken,
  IsElement, is_star, last_weight, names, wildcard, or_else,
}
use ngx_brotli.AcceptEncoding.ReadsParams.{at_comma}
use ngx_brotli.AcceptEncoding.ReadsElement.{note, element-element_text, length-value_text}
use ngx_brotli.AcceptEncoding.Walk.{
  Weights, absent, separates, is_star_name, element, walk_fuel, coding_weight_ex,
}

-- The separators before an element are passed over, up to its name.
element-Stops : (e : Element) (rest : Bytes) → IsElement e → Stops separates (element_text e rest)
element-Stops e rest h = name_first e.name _ h.name_token h.name_ne_nil
  where
    name_first : (name text : Bytes) → IsToken name → name ≢ [] → Stops separates (name ++ text)
    name_first [] text a ne = absurd (ne refl)
    name_first (c ∷ cs) text a ne = ground (arith, a.0)

comma_before-at_comma : (es : List Element) (more : Bytes) → at_comma (comma_before es more) ≡ true
comma_before-at_comma [] more = refl
comma_before-at_comma (e ∷ es) more = refl

-- A comma between elements is one of the separators.
walk_comma :
    (coding : Bytes) (n : ℕ) (es : List Element) (w : Weights)
    → walk_fuel coding n (comma_before es (field_text es)) w ≡ walk_fuel coding n (field_text es) w
unfolding walk_fuel drop_while
walk_comma coding n [] w = refl
walk_comma coding zero (e ∷ es) w = refl
walk_comma coding (suc n) (e ∷ es) w = refl

abbrev note_all : Bytes → Weights → List Element → Weights
note_all coding w [] = w
note_all coding w (e ∷ es) = note_all coding (note coding w e) es

walk_step :
    (coding : Bytes) (n : ℕ) (p text p' : Bytes) (w w' : Weights)
    → drop_while separates p ≡ text
    → text ≢ []
    → element coding text w ≡ some (p', w')
    → walk_fuel coding (suc n) p w ≡ walk_fuel coding n p' w'
unfolding walk_fuel
walk_step coding n p [] p' w w' e ne f = absurd (ne refl)
walk_step coding n p (c ∷ cs) p' w w' e ne f = rw (e, f, walk_fuel)

element_text-ne-nil : (e : Element) (rest : Bytes) → IsElement e → element_text e rest ≢ []
element_text-ne-nil e rest h = name_first e.name _ h.name_ne_nil
  where
    name_first : (name text : Bytes) → name ≢ [] → (name ++ text) ≢ []
    name_first [] text ne = absurd (ne refl)
    name_first (c ∷ cs) text ne = λ x. cc

walk_fuel-field_text :
    (coding : Bytes) (n : ℕ) (es : List Element) (w : Weights)
    → length es < n
    → All IsElement es
    → walk_fuel coding n (field_text es) w ≡ some (note_all coding w es)
walk_fuel-field_text coding zero es w l h = absurd (omega arith)
walk_fuel-field_text coding (suc n) [] w l h =
    unfold walk_fuel in rw (drop_while_stop separates [] tt, walk_fuel)
walk_fuel-field_text coding (suc n) (e ∷ es) w l h =
    let rest = comma_before es (field_text es) in
    walk_step coding n (field_text (e ∷ es)) (element_text e rest) rest w (note coding w e)
      (drop_while-append separates e.lead (element_text e rest) h.0.lead_separates
        (element-Stops e rest h.0))
      (element_text-ne-nil e rest h.0)
      (element-element_text coding e rest w h.0 (comma_before-at_comma es (field_text es)))
    ∙ walk_comma coding n es (note coding w e)
    ∙ walk_fuel-field_text coding n es (note coding w e) (omega arith) h.1

-- The accumulators, as the field's meaning.
is_star-eq : (name : Bytes) → is_star_name name ≡ is_star name
is_star-eq [] = refl
is_star-eq (c ∷ []) = refl
is_star-eq (c ∷ d ∷ ds) = refl

abbrev pub meant : Bytes → List Element → Weights
meant coding es = record {
  coding_q = last_weight (names coding) es;
  star_q = last_weight (wildcard coding) es;
}

note_all-meant :
    (coding : Bytes) (es : List Element) (w : Weights)
    → note_all coding w es ≡ record {
      coding_q = or_else (meant coding es).coding_q w.coding_q;
      star_q = or_else (meant coding es).star_q w.star_q;
    }
note_all-meant coding [] w = refl
note_all-meant coding (e ∷ es) w =
    note_all-meant coding es (note coding w e) ∙ ground (arith, is_star-eq e.name)

params_text_grows :
    (trail : Bytes) (ps : List Param) (rest : Bytes)
    → length rest ≤ length (params_text trail ps rest)
params_text_grows trail [] rest = omega arith
params_text_grows trail (p ∷ ps) rest =
    let text = params_text trail ps rest in
    let more = blanks ps trail ++ text in
    omega (
      arith,
      params_text_grows trail ps rest,
      length-append (blanks ps trail) text,
      length-value_text p.value more,
      length-append p.name (value_text p.value more),
      length-append p.after (p.name ++ value_text p.value more),
    )

length-pos : (xs : Bytes) → xs ≢ [] → 1 ≤ length xs
length-pos [] ne = absurd (ne refl)
length-pos (x ∷ xs) ne = omega arith

length-comma_before :
    (es : List Element)
    → length es ≤ length (field_text es)
    → length es ≤ length (comma_before es (field_text es))
length-comma_before [] l = omega arith
length-comma_before (e ∷ es) l = omega arith

length-field_text : (es : List Element) → All IsElement es → length es ≤ length (field_text es)
length-field_text [] h = omega arith
length-field_text (e ∷ es) h =
    let rest = comma_before es (field_text es) in
    let text = params_text e.trail e.params rest in
    omega (
      arith,
      length-comma_before es (length-field_text es h.1),
      params_text_grows e.trail e.params rest,
      length-pos e.name h.0.name_ne_nil,
      length-append (blanks e.params e.trail) text,
      length-append e.name (blanks e.params e.trail ++ text),
      length-append e.lead (element_text e rest),
    )

-- On the text of a well-formed field the walker reports the weight of the last element that names
-- the coding and that of the last "*", each absent if there is none: the weight of an element is
-- that of its q parameter, or 1000. Quoted strings, other parameters, blanks and empty elements
-- change nothing.
pub coding_weight_ex-field_text :
    (coding : Bytes) (es : List Element)
    → All IsElement es
    → coding_weight_ex coding (field_text es) ≡ some (meant coding es)
unfolding coding_weight_ex
coding_weight_ex-field_text coding es h =
    walk_fuel-field_text coding (suc (length (field_text es))) es absent
      (omega (arith, length-field_text es h)) h
    ∙ ap some (note_all-meant coding es absent)
    ∙ ground arith
