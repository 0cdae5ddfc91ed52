-- ===== src/Body/StoreRuns.antt =====
-- A concrete encoder, for runs of the body filter.
use mathlib.Core.Option.{}
use mathlib.Core.Bool.{}
use ngx_brotli.Base.{ℕ, Bool, true, false, Bytes, [], ◌∷◌, ◌++◌, Option, none, some, length, ◌>>=◌}
use ngx_brotli.Body.Laws.{View}
use ngx_brotli.Body.Marks.{}
use ngx_brotli.Body.Stream.{Operation, process, flushing, finishing, Encoder}

-- An encoder that gives its input back with one byte behind it, once it was asked to finish twice.
pub data Store : Type 0 where
  feeding waiting giving spent : Option Bytes → Bytes → Store

abbrev pub store_fed : Option Bytes → Bytes → Operation → Store
store_fed d c finishing = waiting d c
store_fed d c process = feeding d c
store_fed d c flushing = feeding d c

abbrev pub store_attach : Bytes → Store → Option Store
store_attach bytes (feeding d c) = some (feeding (some bytes) c)
store_attach bytes (waiting d c) = none
store_attach bytes (giving d c) = none
store_attach bytes (spent d c) = none

abbrev pub store_more : Store → Bool
store_more (feeding d c) = false
store_more (waiting d c) = false
store_more (giving d c) = true
store_more (spent d c) = false

abbrev pub store_finished : Store → Bool
store_finished (feeding d c) = false
store_finished (waiting d c) = false
store_finished (giving d c) = false
store_finished (spent d c) = true

abbrev pub store_take : Store → Bytes × Store
store_take (feeding d c) = ([], feeding d c)
store_take (waiting d c) = ([], waiting d c)
store_take (giving d c) = (c ++ 3 ∷ [], spent d c)
store_take (spent d c) = ([], spent d c)

-- A repeated call on a closing encoder without output.
abbrev pub store_repeated : Option Bytes → Bytes → Operation → Store
store_repeated d c finishing = giving d c
store_repeated d c process = waiting d c
store_repeated d c flushing = waiting d c

abbrev pub store_compress : Operation → Bytes → Store → Bool × ℕ × Store
store_compress op xs (feeding d c) = (true, length xs, store_fed d (c ++ xs) op)
store_compress op [] (waiting d c) = (true, 0, store_repeated d c op)
store_compress op (x ∷ xs) (waiting d c) = (false, 0, waiting d c)
store_compress op [] (giving d c) = (true, 0, giving d c)
store_compress op (x ∷ xs) (giving d c) = (false, 0, giving d c)
store_compress op [] (spent d c) = (true, 0, spent d c)
store_compress op (x ∷ xs) (spent d c) = (false, 0, spent d c)

abbrev pub store : Encoder Store
store = record {
  create = some (feeding none []);
  set_parameter = λ p n e. (true, e);
  attach_dictionary = λ bytes n e. store_attach bytes e;
  has_more_output = store_more;
  is_finished = store_finished;
  take_output = store_take;
  compress_stream = store_compress;
}

abbrev pub all_but_last : Bytes → Option Bytes
all_but_last [] = none
all_but_last (x ∷ []) = some []
all_but_last (x ∷ y ∷ ys) = all_but_last (y ∷ ys) >>= λ zs. some (x ∷ zs)

abbrev pub store_decode : Option Bytes → Bytes → Option Bytes
store_decode d xs = all_but_last xs

abbrev pub store_view : Store → View
store_view (feeding d c) = record { consumed = c; taken = []; dictionary = d; closing = false }
store_view (waiting d c) = record { consumed = c; taken = []; dictionary = d; closing = true }
store_view (giving d c) = record { consumed = c; taken = []; dictionary = d; closing = true }
store_view (spent d c) = record {
  consumed = c;
  taken = c ++ 3 ∷ [];
  dictionary = d;
  closing = true;
}

abbrev pub store_closing : Store → Bool
store_closing e = (store_view e).closing
