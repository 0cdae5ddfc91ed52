-- ===== src/Fuzz/Tests.antt =====
-- Runs of the oracle and the harness, and the theorems on them at concrete inputs.
use ngx_brotli.Base.{◌≡◌, refl, true, false, some, codes, drop_while, take_while}
use ngx_brotli.AcceptEncoding.Walk.{accept_encoding}
use ngx_brotli.Fuzz.Scans.{sure, unsure}
use ngx_brotli.Fuzz.Oracle.{ref_accepts}
use ngx_brotli.Fuzz.Harness.{returns, fuzz_one_input}
use ngx_brotli.Fuzz.Agreement.{ref_accepts-accept_encoding, fuzz_one_input-returns}

answers :
    (ref_accepts (codes "gzip;q=0.5, BR ; Q=0.875 , *;q=0") ≡ sure true)
    × (ref_accepts (codes "\"a,br \", gzip;x=\"a, br\", *;q=0.000") ≡ sure false)
    × (ref_accepts (codes "br x, br;;q=1, br;q=0") ≡ sure false)
    × (ref_accepts (codes "br;q=0.1234") ≡ unsure)
    × (ref_accepts (codes "gzip;x=\"a\\\"\", br") ≡ unsure)
    × (ref_accepts (codes "b!r") ≡ sure false)
unfolding ref_accepts drop_while take_while
answers = (refl, refl, refl, refl, refl, refl)

field-sure : ref_accepts (codes "gzip, br;x=\"a,b\";q=0.4, *") ≡ sure true
unfolding ref_accepts drop_while take_while
field-sure = refl

ref_accepts-accept_encoding_example :
    accept_encoding (codes "gzip, br;x=\"a,b\";q=0.4, *") ≡ some true
ref_accepts-accept_encoding_example =
    ref_accepts-accept_encoding (codes "gzip, br;x=\"a,b\";q=0.4, *") true field-sure

fuzz_one_input-returns_example : fuzz_one_input true (codes "br;q=\"0, ;") ≡ some returns
fuzz_one_input-returns_example = fuzz_one_input-returns true (codes "br;q=\"0, ;")
