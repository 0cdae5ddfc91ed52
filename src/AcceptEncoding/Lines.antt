-- ===== src/AcceptEncoding/Lines.antt =====
-- Several Accept-Encoding lines are one field: `ngx_http_brotli_request_coding_weight`.
use ngx_brotli.Base.{
  ℕ, ◌≡◌, refl, ap, sym, ◌∙◌, Bool, false, Bytes, List, [], ◌∷◌, ◌++◌, map, Option, some, arith,
  All, All-append, ◌>>=◌,
}
use ngx_brotli.AcceptEncoding.Grammar.{
  Element, IsElement, field_text, last_weight, names, wildcard, or_else,
}
use ngx_brotli.AcceptEncoding.ReadsField.{meant, coding_weight_ex-field_text}
use ngx_brotli.AcceptEncoding.Walk.{
  Weights, absent, field_weight, coding_weight, fold_line_weight, fold_lines, request_coding_weight,
}

-- The elements of all lines, in received order.
abbrev pub joined : List (List Element) → List Element
joined [] = []
joined (line ∷ lines) = line ++ joined lines

last_weight-append :
    (test : Bytes → Bool) (es fs : List Element)
    → last_weight test (es ++ fs) ≡ or_else (last_weight test fs) (last_weight test es)
last_weight-append test [] fs = ground arith
last_weight-append test (e ∷ es) fs = ground (arith, last_weight-append test es fs)

All-joined :
    (lines : List (List Element)) → All (All IsElement) lines → All IsElement (joined lines)
All-joined [] h = tt
All-joined (line ∷ lines) h = All-append IsElement line (joined lines) h.0 (All-joined lines h.1)

-- The field's weight once more lines are folded into `w`.
abbrev later : Bool → Weights → Option ℕ → Option ℕ → Option ℕ
later allow w coding_q star_q =
    field_weight allow
      (record { coding_q = or_else coding_q w.coding_q; star_q = or_else star_q w.star_q })

-- One line folded in counts like its elements before the later ones. A line with an explicit token
-- drops its "*", which then no longer matters.
later-fold_line_weight :
    (allow : Bool) (line w : Weights) (coding_q star_q : Option ℕ)
    → later allow (fold_line_weight allow line w) coding_q star_q
      ≡ later allow w (or_else coding_q line.coding_q) (or_else star_q line.star_q)
unfolding field_weight fold_line_weight
later-fold_line_weight allow line w coding_q star_q = ground arith

fold_lines-meant :
    (coding : Bytes) (allow : Bool) (lines : List (List Element)) (w : Weights)
    → All (All IsElement) lines
    → (fold_lines coding allow (map field_text lines) w >>= λ v. some (field_weight allow v))
      ≡ some (
          later allow w (meant coding (joined lines)).coding_q (meant coding (joined lines)).star_q)
unfolding fold_lines
fold_lines-meant coding allow [] w h = refl
fold_lines-meant coding allow (line ∷ lines) w h =
    rw (coding_weight_ex-field_text coding line h.0) (
      fold_lines-meant coding allow lines (fold_line_weight allow (meant coding line) w) h.1
      ∙ rw
          (
            last_weight-append (names coding) line (joined lines),
            last_weight-append (wildcard coding) line (joined lines),
          )
          (ap some (
            later-fold_line_weight allow (meant coding line) w
              (last_weight (names coding) (joined lines))
              (last_weight (wildcard coding) (joined lines)))))

-- The weight of one well-formed field value.
pub coding_weight-field_text :
    (coding : Bytes) (allow : Bool) (es : List Element)
    → All IsElement es
    → coding_weight coding allow (field_text es) ≡ some (field_weight allow (meant coding es))
unfolding coding_weight
coding_weight-field_text coding allow es h =
    ap (λ (r : Option Weights). r >>= λ w. some (field_weight allow w))
      (coding_weight_ex-field_text coding es h)

later-absent :
    (allow : Bool) (w : Weights) → later allow absent w.coding_q w.star_q ≡ field_weight allow w
unfolding field_weight
later-absent allow w = ground arith

-- On well-formed lines the request's weight is that of the one field that joins them by commas:
-- a later explicit token wins on whatever line it stands, and "*" stays behind an explicit token on
-- any line.
pub request_coding_weight-joined :
    (coding : Bytes) (allow : Bool) (lines : List (List Element))
    → All (All IsElement) lines
    → request_coding_weight coding allow (map field_text lines)
      ≡ coding_weight coding allow (field_text (joined lines))
unfolding request_coding_weight
request_coding_weight-joined coding allow lines h =
    fold_lines-meant coding allow lines absent h
    ∙ ap some (later-absent allow (meant coding (joined lines)))
    ∙ sym (coding_weight-field_text coding allow (joined lines) (All-joined lines h))

-- On well-formed lines, where the wildcard is not allowed, the weight is that of the last element
-- that names the coding, and absent if there is none.
pub request_coding_weight_explicit :
    (coding : Bytes) (lines : List (List Element))
    → All (All IsElement) lines
    → request_coding_weight coding false (map field_text lines)
      ≡ some (last_weight (names coding) (joined lines))
request_coding_weight_explicit coding lines h =
    request_coding_weight-joined coding false lines h
    ∙ coding_weight-field_text coding false (joined lines) (All-joined lines h)
    ∙ ap some (unfold field_weight in ground arith)
