-- ===== src/NoTransform/Tests.antt =====
-- The test for no-transform on concrete values, and the theorems on it there.
use ngx_brotli.Base.{◌≡◌, refl, true, false, [], ◌∷◌, some, codes, drop_while, take_while}
use ngx_brotli.NoTransform.Directives.{
  names_no_transform, some_forbids, cc_value_no_transform-segments, no_transform-some_forbids,
}
use ngx_brotli.NoTransform.Segments.{outside, segments}
use ngx_brotli.NoTransform.{cc_value_no_transform, no_transform}
use ngx_brotli.Request.{new_header}
use ngx_brotli.Vary.Tokens.{any}

runs :
    (cc_value_no_transform (codes "max-age=3, No-Transform ;x") ≡ some true)
    × (cc_value_no_transform (codes "ext=\"a, no-transform, \\\", no-transform\"") ≡ some false)
    × (cc_value_no_transform (codes "ext=no-transform") ≡ some false)
unfolding cc_value_no_transform drop_while take_while
runs = (refl, refl, refl)

cc_value_no_transform-segments_example :
    cc_value_no_transform (codes "ext=\"a, b\", no-transform")
    ≡ some (any names_no_transform (segments outside (codes "ext=\"a, b\", no-transform")))
cc_value_no_transform-segments_example =
    cc_value_no_transform-segments (codes "ext=\"a, b\", no-transform")

no_transform-some_forbids_example :
    no_transform (new_header (codes "cache-control") (codes "public, no-transform") ∷ [])
    ≡ some (some_forbids (new_header (codes "cache-control") (codes "public, no-transform") ∷ []))
no_transform-some_forbids_example =
    no_transform-some_forbids
      (new_header (codes "cache-control") (codes "public, no-transform") ∷ [])
