-- ===== src/AcceptEncoding/LinesEnd.antt =====
-- Several field lines, whatever their bytes: `ngx_http_brotli_request_coding_weight` ends.
use ngx_brotli.Base.{ℕ, ◌≡◌, refl, Bool, Bytes, List, [], ◌∷◌, Option, none, some, true, false}
use ngx_brotli.AcceptEncoding.ParamsEnd.{IsMilli}
use ngx_brotli.AcceptEncoding.Walk.{
  Weights, absent, field_weight, fold_line_weight, fold_lines, request_coding_weight,
}
use ngx_brotli.AcceptEncoding.WalkEnds.{AreMilli, coding_weight_ex_total}

fold_line_weight-AreMilli :
    (allow : Bool) (coding_q star_q : Option ℕ) (w : Weights)
    → IsMilli coding_q × IsMilli star_q
    → AreMilli w
    → AreMilli (fold_line_weight allow (record { coding_q = coding_q; star_q = star_q }) w)
unfolding fold_line_weight
fold_line_weight-AreMilli allow (some q) s w h k = (h.0, k.1)
fold_line_weight-AreMilli allow none none w h k = k
fold_line_weight-AreMilli true none (some s) w h k = (k.0, h.1)
fold_line_weight-AreMilli false none (some s) w h k = k

pub field_weight-IsMilli :
    (allow : Bool) (coding_q star_q : Option ℕ)
    → IsMilli coding_q × IsMilli star_q
    → IsMilli (field_weight allow (record { coding_q = coding_q; star_q = star_q }))
unfolding field_weight
field_weight-IsMilli allow (some q) s h = h.0
field_weight-IsMilli true none s h = h.1
field_weight-IsMilli false none s h = tt

fold_lines_total :
    (coding : Bytes) (allow : Bool) (lines : List Bytes) (w : Weights)
    → AreMilli w
    → (w' : Weights) × (fold_lines coding allow lines w ≡ some w') × AreMilli w'
unfolding fold_lines
fold_lines_total coding allow [] w h = (w, refl, h)
fold_lines_total coding allow (line ∷ lines) w h =
    let (v, e, k) = coding_weight_ex_total coding line in
    let (w', f, l) =
      fold_lines_total coding allow lines (fold_line_weight allow v w)
        (fold_line_weight-AreMilli allow v.coding_q v.star_q w k h) in
    (w', rw (e) f, l)

-- Whatever the bytes of the field lines, the weight is found, and it is absent or at most 1000
-- milli-units.
pub request_coding_weight_total :
    (coding : Bytes) (allow : Bool) (lines : List Bytes)
    → (q : Option ℕ) × (request_coding_weight coding allow lines ≡ some q) × IsMilli q
unfolding request_coding_weight
request_coding_weight_total coding allow lines =
    let (w, e, h) = fold_lines_total coding allow lines absent (tt, tt) in
    (field_weight allow w, rw (e) refl, field_weight-IsMilli allow w.coding_q w.star_q h)
