-- ===== src/Fuzz/Harness.antt =====
-- fuzz/fuzz_accept_encoding.c: `LLVMFuzzerTestOneInput`.
use ngx_brotli.Base.{
  Bool, true, false, not, Bytes, ℕ, Option, none, some, ltb, if◌then◌else◌, ◌>>=◌, codes,
}
use ngx_brotli.AcceptEncoding.Walk.{accept_encoding, coding_weight}
use ngx_brotli.Fuzz.Oracle.{ref_accepts}
use ngx_brotli.Fuzz.Scans.{Answer, sure, unsure, spent}

-- `return 0`, or `__builtin_trap()`.
pub data Run : Type 0 where
  returns traps : Run

abbrev pub bool_eq : Bool → Bool → Bool
bool_eq true b = b
bool_eq false b = not b

-- `dq < -1 || dq > 1000`; a weight of -1 is `none`, and no other is below 0.
abbrev pub out_of_range : Option ℕ → Bool
out_of_range none = false
out_of_range (some q) = ltb 1000 q

-- The last test: the walker with another coding, which "*" does not stand for.
unfoldable pub second_token : Bytes → Option Run
unfolding coding_weight
second_token ae = do
  dq ← coding_weight (codes "dcb") false ae
  some (if out_of_range dq then traps else returns)

-- The test against the oracle, where it is sure. An oracle out of fuel is no answer.
unfoldable pub differential : Bool → Answer Bool → Bytes → Option Run
unfolding second_token
differential ok (sure ref) ae = if bool_eq ref ok then second_token ae else some traps
differential ok unsure ae = second_token ae
differential ok spent ae = none

-- The input with the outcome of `malloc`. The test that the code is one of the two that
-- `accept_encoding` returns is the type of its model. An outer `none` is the end of the fuel.
unfoldable pub fuzz_one_input : Bool → Bytes → Option Run
unfolding accept_encoding differential ref_accepts
fuzz_one_input allocated ae =
    if allocated
    then (accept_encoding ae >>= λ ok. differential ok (ref_accepts ae) ae)
    else some returns
