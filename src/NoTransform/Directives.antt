-- ===== src/NoTransform/Directives.antt =====
-- The test for no-transform decides by the segments of the value, and by the lines of the response.
use ngx_brotli.AcceptEncoding.Scan.{is_ows, same_name, skip_to}
use ngx_brotli.AcceptEncoding.Walk.{is_comma}
use ngx_brotli.Base.{
  ℕ, zero, suc, ◌-◌, ◌≤◌, ◌≡◌, refl, ap, sym, ◌∙◌, Bool, true, false, not, ◌&&◌, ◌||◌, Bytes, List,
  [], ◌∷◌, ◌++◌, Option, some, arith, ◌==◌, if◌then◌else◌, length, take, length-append, Bool-cases,
  inl, inr, drop_while, take_while, length-drop_while-le, ◌>>=◌,
}
use ngx_brotli.NoTransform.Segments.{outside, inside, segments, rest_segments, skip_to-Cut}
use ngx_brotli.NoTransform.{
  in_directive_name, is_no_transform, cc_fuel, cc_value_no_transform, no_transform,
  no_transform_name, cache_control_name, is_nil,
}
use ngx_brotli.Request.{Header}
use ngx_brotli.Vary.Tokens.{push_first, any, trim, length-past_comma, or_else_any}
use ngx_brotli.Vary.{trim_end, past_comma}

-- Is the segment, up to its argument and without the blanks around it, the directive?
abbrev pub names_no_transform : Bytes → Bool
names_no_transform s = same_name (trim (take_while in_directive_name s)) no_transform_name

take_while-blanks :
    (p : Bytes)
    → take_while in_directive_name (drop_while is_ows p)
      ≡ drop_while is_ows (take_while in_directive_name p)
unfolding take_while drop_while
take_while-blanks [] = refl
take_while-blanks (c ∷ cs) = ground (arith, take_while-blanks cs)

abbrev trim_first : List Bytes → List Bytes
trim_first [] = []
trim_first (s ∷ ss) = drop_while is_ows s ∷ ss

trim_first-push_first :
    (c : ℕ) (ss : List Bytes) → is_ows c ≡ false → trim_first (push_first c ss) ≡ push_first c ss
unfolding drop_while
trim_first-push_first c [] h = rw (h) refl
trim_first-push_first c (s ∷ ss) h = rw (h) refl

trim_first_blank :
    (c : ℕ) (s : Bytes) (ss : List Bytes)
    → is_ows c ≡ true
    → trim_first (push_first c (s ∷ ss)) ≡ trim_first (s ∷ ss)
unfolding drop_while
trim_first_blank c s ss h = rw (h) refl

blank_apart : (c : ℕ) → is_ows c ≡ true → ((c == b',') ≡ false) × ((c == b'"') ≡ false)
blank_apart c h = (ground (arith, h), ground (arith, h))

trim_first_kept :
    (c : ℕ) (cs : Bytes)
    → is_ows c ≡ false
    → segments outside (c ∷ cs) ≡ trim_first (segments outside (c ∷ cs))
unfolding segments drop_while
trim_first_kept c cs h = elim (Bool-cases (c == b',')) [
  | inl e ↦ rw (e) refl
  | inr e ↦ rw (e) (
      sym
        (trim_first-push_first c (if c == b'"' then segments inside cs else segments outside cs) h))
]

-- Blanks in front of a value stand in its first segment.
segments-blanks :
    (p : Bytes) → segments outside (drop_while is_ows p) ≡ trim_first (segments outside p)
unfolding segments drop_while
segments-blanks [] = refl
segments-blanks (c ∷ cs) = elim (Bool-cases (is_ows c)) [
  | inl h ↦
      let (e, q) = blank_apart c h in
      let k = skip_to-Cut cs in
      let first = ap (push_first c) k.splits in
      rw (h, e, q)
        (segments-blanks cs
          ∙ ap trim_first k.splits
          ∙ sym (trim_first_blank c k.segment (rest_segments k.rest) h)
          ∙ ap trim_first (sym first))
  | inr h ↦ rw (h) (trim_first_kept c cs h)
]

abbrev any_trimmed : List Bytes → Bool
any_trimmed [] = false
any_trimmed (s ∷ ss) = is_no_transform s || any names_no_transform ss

any_trimmed-trim_first : (ss : List Bytes) → any_trimmed (trim_first ss) ≡ any names_no_transform ss
any_trimmed-trim_first [] = refl
any_trimmed-trim_first (s ∷ ss) = rw (take_while-blanks s) refl

any-past_comma :
    (q : Bytes)
    → any names_no_transform (segments outside (past_comma q))
      ≡ any names_no_transform (rest_segments q)
unfolding segments same_name trim_end drop_while take_while
any-past_comma [] = refl
any-past_comma (c ∷ cs) = refl

take-append : (xs ys : Bytes) → take (length xs) (xs ++ ys) ≡ xs
take-append [] ys = refl
take-append (x ∷ xs) ys = ap (◌∷◌ x) (take-append xs ys)

-- What lies between the start of a segment and its end.
cut_between :
    (p segment rest : Bytes) → p ≡ segment ++ rest → take (length p - length rest) p ≡ segment
cut_between p segment rest e =
    let n : length p - length rest ≡ length segment =
      omega (arith, ap length e, length-append segment rest) in
    rw (n) (ap (take (length segment)) e ∙ take-append segment rest)

-- One round, from behind the blanks.
abbrev cc_at : ℕ → Bytes → Option Bool
cc_at n start = skip_to is_comma start >>= λ seg_end.
    let rest = cc_fuel n (past_comma seg_end) in
    if is_no_transform (take (length start - length seg_end) start) then some true else rest

cc_at-segments :
    (n : ℕ) (start : Bytes)
    → length start ≤ suc n
    → ((value : Bytes)
        → length value ≤ n
        → cc_fuel (suc n) value ≡ some (any names_no_transform (segments outside value)))
    → cc_at (suc n) start ≡ some (any_trimmed (segments outside start))
cc_at-segments n start h ih =
    let k = skip_to-Cut start in
    let next = past_comma k.rest in
    let size : length k.rest ≤ suc n =
      omega (arith, h, ap length k.parts, length-append k.segment k.rest) in
    let there = ih next (length-past_comma k.rest n size) ∙ ap some (any-past_comma k.rest) in
    rw (k.returns, cut_between start k.segment k.rest k.parts, k.splits)
      (or_else_any (is_no_transform k.segment) (any names_no_transform (rest_segments k.rest))
        (cc_fuel (suc n) next) there)

nil-forbids : any names_no_transform (segments outside []) ≡ false
unfolding segments same_name trim_end drop_while take_while
nil-forbids = refl

cc_fuel-segments :
    (n : ℕ) (value : Bytes)
    → length value ≤ n
    → cc_fuel (suc n) value ≡ some (any names_no_transform (segments outside value))
unfolding cc_fuel
cc_fuel-segments n [] h = rw (nil-forbids) refl
cc_fuel-segments zero (c ∷ cs) h = ground (arith, h)
cc_fuel-segments (suc n) (c ∷ cs) h =
    let short = length-drop_while-le is_ows (c ∷ cs) in
    cc_at-segments n (drop_while is_ows (c ∷ cs)) (omega (arith, h, short)) (cc_fuel-segments n)
    ∙ ap (λ ss. some (any_trimmed ss)) (segments-blanks (c ∷ cs))
    ∙ ap some (any_trimmed-trim_first (segments outside (c ∷ cs)))

-- For every value the loop ends, and the answer is whether some segment between its commas outside
-- quoted strings, cut at its first ';' or '=' and without the blanks around it, is no-transform in
-- any case.
pub cc_value_no_transform-segments :
    (value : Bytes)
    → cc_value_no_transform value ≡ some (any names_no_transform (segments outside value))
unfolding cc_value_no_transform
cc_value_no_transform-segments value = cc_fuel-segments (length value) value (omega arith)

-- A live Cache-Control line with a no-transform segment.
abbrev pub forbids : Header → Bool
forbids h =
    not (h.hash == 0)
    && (same_name h.key cache_control_name && any names_no_transform (segments outside h.value))

abbrev pub some_forbids : List Header → Bool
some_forbids [] = false
some_forbids (h ∷ hs) = forbids h || some_forbids hs

line_forbids :
    (dead named : Bool) (value : Bytes) (rest : Bool)
    → (if dead || is_nil value
        then some rest
        else if named
        then (some (any names_no_transform (segments outside value)) >>= λ found.
            if found then some true else some rest)
        else some rest)
      ≡ some ((not dead && (named && any names_no_transform (segments outside value))) || rest)
line_forbids true named value rest = refl
line_forbids false true [] rest = rw (nil-forbids) refl
line_forbids false false [] rest = refl
line_forbids false true (c ∷ cs) rest =
    or_else_any (any names_no_transform (segments outside (c ∷ cs))) rest (some rest) refl
line_forbids false false (c ∷ cs) rest = refl

-- For every list of response headers the walk ends, and the answer is whether some live
-- Cache-Control line, whatever the case of its name, has a no-transform segment.
pub no_transform-some_forbids : (hs : List Header) → no_transform hs ≡ some (some_forbids hs)
unfolding no_transform
no_transform-some_forbids [] = refl
no_transform-some_forbids (h ∷ hs) =
    let e = no_transform-some_forbids hs in
    let v = cc_value_no_transform-segments h.value in
    rw (e, v)
      (line_forbids (h.hash == 0) (same_name h.key cache_control_name) h.value (some_forbids hs))
