-- ===== src/NoTransform/Segments.antt =====
-- A header value as the segments between its commas outside quoted strings, and the scan that finds
-- the end of one.
use ngx_brotli.AcceptEncoding.Scan.{in_quote, past_quote, step_over, skip_fuel, skip_to}
use ngx_brotli.AcceptEncoding.Walk.{is_comma}
use ngx_brotli.Base.{
  ℕ, zero, suc, ◌≤◌, ◌<◌, ◌≡◌, refl, ap, sym, ◌∙◌, Bytes, List, [], ◌∷◌, ◌++◌, Option, some, arith,
  ◌==◌, if◌then◌else◌, length, length-append, append_assoc, Bool-cases, inl, inr,
}
use ngx_brotli.Vary.Tokens.{push_first}

pub data Place : Type 0 where
  outside inside escaped : Place

abbrev push_all : Bytes → List Bytes → List Bytes
push_all [] ps = ps
push_all (c ∷ cs) ps = push_first c (push_all cs ps)

-- A comma separates outside quoted strings; a backslash inside one escapes the next byte.
unfoldable pub segments : Place → Bytes → List Bytes
segments place [] = [] ∷ []
segments outside (c ∷ cs) =
    let rest = segments outside cs in
    if c == b',' then [] ∷ rest else push_first c (if c == b'"' then segments inside cs else rest)
segments inside (c ∷ cs) = push_first c (
    if c == b'"'
    then segments outside cs
    else if c == b'\\'
    then segments escaped cs
    else segments inside cs)
segments escaped (c ∷ cs) = push_first c (segments inside cs)

abbrev pub rest_segments : Bytes → List Bytes
rest_segments [] = []
rest_segments (c ∷ cs) = segments outside cs

-- What the scan of a quoted string passes over.
record Quoted (p : Bytes) : Type 0 where
  passed : Bytes
  parts : p ≡ passed ++ past_quote (in_quote p)
  splits : segments inside p ≡ push_all passed (segments outside (past_quote (in_quote p)))

-- One byte, or an escaped pair, in front of what is passed over.
Quoted-byte :
    (c : ℕ) (cs : Bytes)
    → in_quote (c ∷ cs) ≡ in_quote cs
    → segments inside (c ∷ cs) ≡ push_first c (segments inside cs)
    → Quoted cs
    → Quoted (c ∷ cs)
Quoted-byte c cs e f q = record {
  passed = c ∷ q.passed;
  parts = rw (e) (ap (◌∷◌ c) q.parts);
  splits = rw (e) (f ∙ ap (push_first c) q.splits);
}

Quoted-pair :
    (c d : ℕ) (cs : Bytes)
    → in_quote (c ∷ d ∷ cs) ≡ in_quote cs
    → segments inside (c ∷ d ∷ cs) ≡ push_first c (push_first d (segments inside cs))
    → Quoted cs
    → Quoted (c ∷ d ∷ cs)
Quoted-pair c d cs e f q = record {
  passed = c ∷ d ∷ q.passed;
  parts = rw (e) (ap (λ s. c ∷ d ∷ s) q.parts);
  splits = rw (e) (f ∙ ap (λ s. push_first c (push_first d s)) q.splits);
}

Quoted-end :
    (c : ℕ) (cs : Bytes)
    → in_quote (c ∷ cs) ≡ c ∷ cs
    → segments inside (c ∷ cs) ≡ push_first c (segments outside cs)
    → Quoted (c ∷ cs)
Quoted-end c cs e f = record { passed = c ∷ []; parts = rw (e) refl; splits = rw (e) f }

-- A byte alone at the end of an unclosed quoted string.
quoted_lem : (p : Bytes) → Quoted p
unfolding segments in_quote
quoted_lem [] = record { passed = []; parts = refl; splits = refl }
quoted_lem (c ∷ []) = elim (Bool-cases (c == b'"')) [
  | inl h ↦ Quoted-end c [] (rw (h) refl) (rw (h) refl)
  | inr h ↦ Quoted-byte c [] (rw (h) refl) (ground arith) (quoted_lem [])
]
quoted_lem (c ∷ d ∷ ds) = elim (Bool-cases (c == b'"')) [
  | inl h ↦ Quoted-end c (d ∷ ds) (rw (h) refl) (rw (h) refl)
  | inr h ↦ elim (Bool-cases (c == b'\\')) [
    | inl k ↦ Quoted-pair c d ds (rw (h, k) refl) (rw (h, k) refl) (quoted_lem ds)
    | inr k ↦ Quoted-byte c (d ∷ ds) (rw (h, k) refl) (rw (h, k) refl) (quoted_lem (d ∷ ds))
  ]
]

-- The segment that starts at `p`, and the scan that finds its end.
pub record Cut (p : Bytes) (result : Option Bytes) : Type 0 where
  pub segment : Bytes
  pub rest : Bytes
  pub returns : result ≡ some rest
  pub parts : p ≡ segment ++ rest
  pub splits : segments outside p ≡ segment ∷ rest_segments rest

Cut-byte :
    (c : ℕ) (cs : Bytes) (result : Option Bytes)
    → segments outside (c ∷ cs) ≡ push_first c (segments outside cs)
    → Cut cs result
    → Cut (c ∷ cs) result
Cut-byte c cs result f k = record {
  segment = c ∷ k.segment;
  rest = k.rest;
  returns = k.returns;
  parts = ap (◌∷◌ c) k.parts;
  splits = f ∙ ap (push_first c) k.splits;
}

push_all-segment : (cs s : Bytes) (ss : List Bytes) → push_all cs (s ∷ ss) ≡ (cs ++ s) ∷ ss
push_all-segment [] s ss = refl
push_all-segment (c ∷ cs) s ss = ap (push_first c) (push_all-segment cs s ss)

Cut-Quoted :
    (c : ℕ) (cs : Bytes) (result : Option Bytes)
    → segments outside (c ∷ cs) ≡ push_first c (segments inside cs)
    → Quoted cs
    → Cut (past_quote (in_quote cs)) result
    → Cut (c ∷ cs) result
Cut-Quoted c cs result f q k = record {
  segment = c ∷ (q.passed ++ k.segment);
  rest = k.rest;
  returns = k.returns;
  parts =
      ap (◌∷◌ c)
        (q.parts ∙ ap (◌++◌ q.passed) k.parts ∙ sym (append_assoc q.passed k.segment k.rest));
  splits =
      f
      ∙ ap (push_first c) (
          q.splits
          ∙ ap (push_all q.passed) k.splits
          ∙ push_all-segment q.passed k.segment (rest_segments k.rest));
}

length-step : (cs : Bytes) → Quoted cs → length (past_quote (in_quote cs)) ≤ length cs
length-step cs q =
    omega (arith, ap length q.parts, length-append q.passed (past_quote (in_quote cs)))

skip_fuel-Cut : (n : ℕ) (p : Bytes) → length p < n → Cut p (skip_fuel n is_comma p)
unfolding skip_fuel segments step_over
skip_fuel-Cut zero p h = absurd (omega arith)
skip_fuel-Cut (suc n) [] h = record {
  segment = [];
  rest = [];
  returns = refl;
  parts = refl;
  splits = refl;
}
skip_fuel-Cut (suc n) (c ∷ cs) h = elim (Bool-cases (c == b',')) [
  | inl e ↦ record {
    segment = [];
    rest = c ∷ cs;
    returns = rw (e) refl;
    parts = refl;
    splits = rw (e) refl;
  }
  | inr e ↦ elim (Bool-cases (c == b'"')) [
    | inl q ↦
        let r = past_quote (in_quote cs) in
        let k = skip_fuel-Cut n r (omega (arith, h, length-step cs (quoted_lem cs))) in
        rw (e, q) (Cut-Quoted c cs (skip_fuel n is_comma r) (rw (e, q) refl) (quoted_lem cs) k)
    | inr q ↦
        rw (e, q)
          (Cut-byte c cs (skip_fuel n is_comma cs) (rw (e, q) refl)
            (skip_fuel-Cut n cs (omega (arith, h))))
  ]
]

pub skip_to-Cut : (p : Bytes) → Cut p (skip_to is_comma p)
unfolding skip_to
skip_to-Cut p = skip_fuel-Cut (suc (length p)) p (omega arith)
