-- ===== src/Body/Laws.antt =====
-- What the body filter relies on of libbrotli's encoder, as its header documents it.
use ngx_brotli.Base.{
  ℕ, ◌+◌, ◌≤◌, ◌<◌, ◌≡◌, Bool, true, false, ◌&&◌, ◌||◌, Bytes, [], ◌++◌, Option, none, some, ◌==◌,
  length, take,
}
use ngx_brotli.Body.Stream.{Parameter, Operation, process, flushing, finishing, Encoder}

-- What an encoder has seen and given: the input it consumed, the output taken from it, its
-- dictionary, and whether a finishing call has consumed all of its input.
pub record View : Type 0 where
  pub consumed : Bytes
  pub taken : Bytes
  pub dictionary : Option Bytes
  pub closing : Bool

abbrev pub fresh : View
fresh = record { consumed = []; taken = []; dictionary = none; closing = false }

abbrev pub is_finishing : Operation → Bool
is_finishing process = false
is_finishing flushing = false
is_finishing finishing = true

-- Each call's effect on the view. A stream that is finished has had its last bytes taken, so a call
-- that feeds the encoder does not finish it: the end of a stream is a byte at least. Once the encoder
-- is finished and has no more output, the output taken from it decodes to what it consumed.
pub record EncoderLaws {E : Type 0} (enc : Encoder E) (decode : Option Bytes → Bytes → Option Bytes)
    : Type 0 where
  pub view : E → View
  pub created : (e : E) → enc.create ≡ some e → view e ≡ fresh
  pub parameter_set : (p : Parameter) (n : ℕ) (e : E) → view (enc.set_parameter p n e).1 ≡ view e
  pub dictionary_attached :
      (bytes : Bytes) (n : ℕ) (e e' : E)
      → enc.attach_dictionary bytes n e ≡ some e'
      → view e' ≡ record (view e) { dictionary = some bytes }
  pub took :
      (e : E)
      → view (enc.take_output e).1
        ≡ record (view e) { taken = (view e).taken ++ (enc.take_output e).0 }
  pub consumes :
      (op : Operation) (xs : Bytes) (e e' : E) (n : ℕ)
      → enc.compress_stream op xs e ≡ (true, n, e')
      → n ≤ length xs
  pub compressed :
      (op : Operation) (xs : Bytes) (e e' : E) (n : ℕ)
      → enc.compress_stream op xs e ≡ (true, n, e')
      → view e' ≡ record (view e) {
        consumed = (view e).consumed ++ take n xs;
        closing = (view e).closing || (is_finishing op && n == length xs);
      }
  pub unfinished :
      (op : Operation) (xs : Bytes) (e e' : E) (n : ℕ)
      → enc.compress_stream op xs e ≡ (true, n, e')
      → enc.is_finished e ≡ false
      → enc.is_finished e' ≡ false
  pub finished : (e : E) → enc.is_finished e ≡ true → (view e).closing ≡ true
  pub decodes :
      (e : E)
      → enc.is_finished e ≡ true
      → enc.has_more_output e ≡ false
      → decode (view e).dictionary (view e).taken ≡ some (view e).consumed

-- That the encoder comes to its end, which its header asks the client to reach by repeating
-- BROTLI_OPERATION_FINISH: `pending` bounds the work on the input it has, output that is taken is done
-- with, and a repeated call on an encoder that is not finished and has no output does some of it. How
-- often the call is to be repeated is not known.
pub record Progress {E : Type 0} (enc : Encoder E) (closing : E → Bool) : Type 0 where
  pub pending : E → ℕ
  pub drains : (e : E) → pending (enc.take_output e).1 + length (enc.take_output e).0 ≤ pending e
  pub repeats :
      (e e' : E) (n : ℕ)
      → closing e ≡ true
      → enc.has_more_output e ≡ false
      → enc.is_finished e ≡ false
      → enc.compress_stream finishing [] e ≡ (true, n, e')
      → pending e' < pending e
