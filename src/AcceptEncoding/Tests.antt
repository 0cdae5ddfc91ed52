-- ===== src/AcceptEncoding/Tests.antt =====
-- Runs of the walker on concrete fields, and the theorems on it at concrete fields.
use ngx_brotli.Base.{
  drop_while, take_while, ◌≡◌, refl, true, false, none, some, codes, [], ◌∷◌, map, arith,
}
use mathlib.Core.List.{cons≢nil}
use ngx_brotli.AcceptEncoding.Grammar.{
  Element, weight, quoted, octet, zero_point, IsElement, field_text, last_weight, names,
}
use ngx_brotli.AcceptEncoding.Lines.{
  joined, request_coding_weight-joined, request_coding_weight_explicit,
}
use ngx_brotli.AcceptEncoding.LinesEnd.{}
use ngx_brotli.AcceptEncoding.ParamsEnd.{}
use ngx_brotli.AcceptEncoding.ReadsField.{meant, coding_weight_ex-field_text}
use ngx_brotli.AcceptEncoding.Walk.{Weights, coding_weight_ex, coding_weight, request_coding_weight}
use ngx_brotli.AcceptEncoding.WalkEnds.{AreMilli, coding_weight_ex_total}

weights :
    (coding_weight (codes "br") true (codes "gzip;q=0.5, BR ; Q=0.875 , *;q=0") ≡ some (some 875))
    × (coding_weight (codes "br") true (codes "gzip;x=\"a, br\", *") ≡ some (some 1000))
    × (coding_weight (codes "br") true (codes "br;q=0.1234") ≡ some none)
    × (coding_weight (codes "dcb") false (codes "*") ≡ some none)
    × (coding_weight (codes "br") true (codes "br;q=0, br") ≡ some (some 1000))
unfolding coding_weight drop_while take_while
weights = (refl, refl, refl, refl, refl)

lines :
    request_coding_weight (codes "br") true (codes "br" ∷ codes "*, br;q=0" ∷ []) ≡ some (some 0)
unfolding request_coding_weight drop_while take_while
lines = refl

-- br ;q=0.25;x="a,"
abbrev low_br : Element
low_br = record {
  lead = [];
  name = codes "br";
  params =
      record {
        before = codes " ";
        after = [];
        name = codes "q";
        value = weight (zero_point (2 ∷ 5 ∷ []));
      }
      ∷ record {
        before = [];
        after = [];
        name = codes "x";
        value = quoted (octet b'a' ∷ octet b',' ∷ []);
      }
      ∷ [];
  trail = [];
}

-- , *
abbrev any_coding : Element
any_coding = record { lead = codes ", "; name = codes "*"; params = []; trail = [] }

low_br-IsElement : IsElement low_br
low_br-IsElement = record {
  lead_separates = tt;
  name_token = (refl, (refl, tt));
  name_ne_nil = cons≢nil;
  params_fit = (
    record {
      before_blank = (refl, tt);
      after_blank = tt;
      name_token = (refl, tt);
      name_ne_nil = cons≢nil;
      value_fits = (refl, (omega arith, (omega arith, (omega arith, tt))));
    },
    (
      record {
        before_blank = tt;
        after_blank = tt;
        name_token = (refl, tt);
        name_ne_nil = cons≢nil;
        value_fits = (refl, (refl, (refl, tt)));
      },
      tt,
    ),
  );
  one_weight = (refl, (refl, tt));
  trail_blank = tt;
}

any_coding-IsElement : IsElement any_coding
any_coding-IsElement = record {
  lead_separates = (refl, (refl, tt));
  name_token = (refl, tt);
  name_ne_nil = cons≢nil;
  params_fit = tt;
  one_weight = tt;
  trail_blank = tt;
}

coding_weight_ex-field_text_example :
    coding_weight_ex (codes "br") (field_text (low_br ∷ any_coding ∷ []))
    ≡ some (meant (codes "br") (low_br ∷ any_coding ∷ []))
coding_weight_ex-field_text_example =
    coding_weight_ex-field_text (codes "br") (low_br ∷ any_coding ∷ [])
      (low_br-IsElement, (any_coding-IsElement, tt))

request_coding_weight-joined_example :
    request_coding_weight
      (codes "br")
      true
      (map field_text ((low_br ∷ []) ∷ (any_coding ∷ []) ∷ []))
    ≡ coding_weight (codes "br") true (field_text (joined ((low_br ∷ []) ∷ (any_coding ∷ []) ∷ [])))
request_coding_weight-joined_example =
    request_coding_weight-joined (codes "br") true ((low_br ∷ []) ∷ (any_coding ∷ []) ∷ [])
      ((low_br-IsElement, tt), ((any_coding-IsElement, tt), tt))

request_coding_weight_explicit_example :
    request_coding_weight
      (codes "dcb")
      false
      (map field_text ((low_br ∷ []) ∷ (any_coding ∷ []) ∷ []))
    ≡ some (last_weight (names (codes "dcb")) (joined ((low_br ∷ []) ∷ (any_coding ∷ []) ∷ [])))
request_coding_weight_explicit_example =
    request_coding_weight_explicit (codes "dcb") ((low_br ∷ []) ∷ (any_coding ∷ []) ∷ [])
      ((low_br-IsElement, tt), ((any_coding-IsElement, tt), tt))

coding_weight_ex_total_example :
    (w : Weights) × (coding_weight_ex (codes "br") (codes "br;q=\"0, ;") ≡ some w) × AreMilli w
coding_weight_ex_total_example = coding_weight_ex_total (codes "br") (codes "br;q=\"0, ;")
