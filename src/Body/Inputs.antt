-- ===== src/Body/Inputs.antt =====
-- The body filter takes its input: the links stand behind those that wait, and the loop runs.
use mathlib.Core.Option.{some-injective}
use ngx_brotli.Base.{
  ℕ, ◌≡◌, refl, ap, sym, subst, ◌∙◌, Bool, true, false, ◌||◌, Bytes, List, [], ◌∷◌, ◌++◌, Option,
  some, append-nil, append_assoc,
}
use ngx_brotli.Body.Laws.{EncoderLaws}
use ngx_brotli.Body.Open.{body_bytes, has_last, to_come, core, Running, Ended}
use ngx_brotli.Body.Rounds.{Round, fails, append_input, take_input}
use ngx_brotli.Body.Setup.{allocate_from}
use ngx_brotli.Body.Stream.{Piece, Encoder, Downstream, Stream}
use ngx_brotli.Body.Turns.{loop-Ended}
use ngx_brotli.Dcb.{Dict, Conf}

module _ {E N : Type 0} {enc : Encoder E} {decode : Option Bytes → Bytes → Option Bytes}
    (laws : EncoderLaws enc decode) (conf : Conf) (dict : Option Dict) where
  -- More links are given: they stand behind those that wait.
  grown :
      (given chain : List Piece) (s : Stream E N) (buffered : Bool)
      → Running laws conf dict given (core s)
      → Running laws conf dict
          (given ++ chain)
          (core (record s { input = s.input ++ chain; buffered = buffered }))
  grown given chain s buffered o = record {
    e = o.e;
    has_encoder = o.has_encoder;
    b = o.b;
    has_buf = o.has_buf;
    initialized = o.initialized;
    running = o.running;
    has_body = o.has_body;
    unfinished = o.unfinished;
    header_sent = o.header_sent;
    same_dict = o.same_dict;
    flows_out = o.flows_out;
    flows_in = λ more.
        ap body_bytes (append_assoc given chain more)
        ∙ o.flows_in (chain ++ more)
        ∙ ap (λ ps. (laws.view o.e).consumed ++ to_come s.end_of_input ps)
            (sym (append_assoc s.input chain more));
    last_in = λ more.
        ap has_last (append_assoc given chain more)
        ∙ o.last_in (chain ++ more)
        ∙ ap (λ ps. s.end_of_input || has_last ps) (sym (append_assoc s.input chain more));
    marked = o.marked;
    in_order = o.in_order;
    closes = o.closes;
    counts_in = o.counts_in;
    counts_out = o.counts_out;
    capped = o.capped;
    dictionary = o.dictionary;
  }

  pub failed-Ended :
      (given : List Piece) (s : Stream E N) (r : Round (Stream E N))
      → s.success ≡ false
      → some (fails s) ≡ some r
      → Ended laws conf dict given r
  failed-Ended given s r u h =
      subst (Ended laws conf dict given) (some-injective (fails s) r h) (refl, u)

  append_input-Ended :
      (down : Downstream N) (fuel : ℕ) (given chain : List Piece) (s : Stream E N)
      (pool : List Bool) (r : Round (Stream E N))
      → Running laws conf dict given (core s)
      → append_input enc conf down fuel chain (allocate_from s pool) ≡ some r
      → Ended laws conf dict (given ++ chain) r
  append_input-Ended down fuel given chain s [] r o h =
      failed-Ended (given ++ chain) s r o.unfinished h
  append_input-Ended down fuel given chain s (false ∷ pool) r o h =
      failed-Ended (given ++ chain) (record s { pool = pool }) r o.unfinished h
  append_input-Ended down fuel given chain s (true ∷ pool) r o h =
      let s' = record s { pool = pool; input = s.input ++ chain; buffered = true } in
      loop-Ended laws conf dict down (given ++ chain) fuel s' r (grown given chain s true o) h

  pub take_input-Ended :
      (down : Downstream N) (fuel : ℕ) (given chain : List Piece) (s : Stream E N)
      (r : Round (Stream E N))
      → Running laws conf dict given (core s)
      → take_input enc conf down fuel chain s ≡ some r
      → Ended laws conf dict (given ++ chain) r
  take_input-Ended down fuel given [] s r o h =
      subst (λ given. Ended laws conf dict given r) (sym (append-nil given))
        (loop-Ended laws conf dict down given fuel s r o h)
  take_input-Ended down fuel given (p ∷ ps) s r o h =
      append_input-Ended down fuel given (p ∷ ps) s s.pool r o h
