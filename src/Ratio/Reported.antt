-- ===== src/Ratio/Reported.antt =====
-- The ratio that is reported of a response that the body filter completed.
use mathlib.Core.Option.{none-ne-some}
use ngx_brotli.Base.{
  ℕ, ◌+◌, ◌*◌, ◌/◌, ◌%◌, ◌^◌, ◌<◌, ◌≡◌, ap, sym, ◌∙◌, true, false, Bytes, List, [], ◌∷◌, Option,
  none, some, arith, ◌==◌, length, length-append,
}
use ngx_brotli.Body.Begin.{Hashed}
use ngx_brotli.Body.Complete.{Reached-Done}
use ngx_brotli.Body.Laws.{EncoderLaws}
use ngx_brotli.Body.Open.{contents, body_bytes, frame, dict_bytes}
use ngx_brotli.Body.Sessions.{Reached}
use ngx_brotli.Body.Stream.{Piece, Encoder, Downstream, Stream}
use ngx_brotli.Dcb.{Dict, Conf}
use ngx_brotli.Ratio.Round.{round_parts-ratio_parts}
use ngx_brotli.Ratio.Variable.{found, print_ratio, ratio_of, ratio_variable}

-- A coding of something has a byte at least.
coded_bytes :
    (decode : Option Bytes → Bytes → Option Bytes) (d : Option Bytes) (coding body : Bytes)
    → ((d : Option Bytes) → decode d [] ≡ none)
    → decode d coding ≡ some body
    → 0 < length coding
coded_bytes decode d [] body empty h = absurd (none-ne-some body (sym (empty d) ∙ h))
coded_bytes decode d (c ∷ cs) body empty h = omega arith

positive : (n : ℕ) → 0 < n → (n == 0) ≡ false
positive n h = ground (arith, h)

ratio_of-found :
    (sprintf : ℕ → ℕ → Bytes) (n out : ℕ)
    → n < 2 ^ 64
    → 0 < out
    → out < 2 ^ 64
    → let hundredths = (n * 1000 / out + 5) / 10 in
      ratio_of sprintf true true n out ≡ found (sprintf (hundredths / 100) (hundredths % 100))
unfolding ratio_of
ratio_of-found sprintf n out small some_out small_out =
    rw (positive out some_out)
      (ap (print_ratio sprintf) (round_parts-ratio_parts n out small some_out small_out))

module _ {E N : Type 0} {enc : Encoder E} {decode : Option Bytes → Bytes → Option Bytes}
    (laws : EncoderLaws enc decode) (conf : Conf) (dict : Option Dict) (down : Downstream N) where
  -- On a response that was completed $brotli_ratio divides by no zero and prints the body's size over
  -- the size of all that was handed over, in hundredths, rounded half up on the exact third decimal,
  -- if both sizes are below 2 ^ 64, the encoder keeps its laws, nothing decodes from no bytes, the hash
  -- of a dictionary is 32 bytes long and there is room for the text.
  pub ratio_variable-Reached :
      (sprintf : ℕ → ℕ → Bytes) {given : List Piece} {s : Stream E N}
      → Hashed dict
      → ((d : Option Bytes) → decode d [] ≡ none)
      → Reached enc conf dict down given s
      → s.success ≡ true
      → length (body_bytes given) < 2 ^ 64
      → length (contents s.handed) < 2 ^ 64
      → let hundredths = (length (body_bytes given) * 1000 / length (contents s.handed) + 5) / 10 in
        ratio_variable sprintf true (some s) ≡ found (sprintf (hundredths / 100) (hundredths % 100))
  unfolding ratio_variable
  ratio_variable-Reached sprintf {given} {s} hashed empty k h small small_out =
      let done = Reached-Done laws conf dict down hashed k h in
      let size = ap length done.handed ∙ length-append (frame true dict) done.coding in
      let some_out : 0 < length (contents s.handed) = omega (
        arith,
        size,
        coded_bytes decode (dict_bytes dict) done.coding (body_bytes given) empty done.decodes,
      ) in
      let counted : s.bytes_in ≡ length (body_bytes given) = omega (arith, done.counts_in, small) in
      let counted_out : s.bytes_out ≡ length (contents s.handed) =
        omega (arith, done.counts_out, small_out) in
      ap (λ b. ratio_of sprintf b true s.bytes_in s.bytes_out) h
      ∙ ap (λ n. ratio_of sprintf true true n s.bytes_out) counted
      ∙ ap (ratio_of sprintf true true (length (body_bytes given))) counted_out
      ∙ ratio_of-found sprintf (length (body_bytes given)) (length (contents s.handed)) small
          some_out small_out
