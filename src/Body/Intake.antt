-- ===== src/Body/Intake.antt =====
-- The invariant across a round of the main loop that gives input to the encoder.
use mathlib.Core.Option.{}
use ngx_brotli.Base.{
  u64, if_cases, ℕ, ◌+◌, ◌≡◌, refl, ap, sym, ◌∙◌, Bool, true, false, not, ◌&&◌, ◌||◌, Bytes, List,
  [], ◌∷◌, ◌++◌, Option, some, length, drop, if◌then◌else◌, inl, ◌==◌, ==_iff,
}
use ngx_brotli.Body.Feeds.{whole-Kept, part-Kept}
use ngx_brotli.Body.Joins.{drop_body, drop_last}
use ngx_brotli.Body.Keeps.{}
use ngx_brotli.Body.Laws.{EncoderLaws}
use ngx_brotli.Body.Open.{over_cap-Capped, body_bytes, has_last, to_come, core, Running, Kept}
use ngx_brotli.Body.Rounds.{continues, operation_of, over_cap, fed, feed, fails}
use ngx_brotli.Body.Setup.{}
use ngx_brotli.Body.Stream.{Piece, Encoder, Stream}
use ngx_brotli.Dcb.{Dict, Conf}

module _ {E N : Type 0} {enc : Encoder E} {decode : Option Bytes → Bytes → Option Bytes}
    (laws : EncoderLaws enc decode) (conf : Conf) (dict : Option Dict) where
  fed-Kept :
      (given : List Piece) (s : Stream E N) (o : Running laws conf dict given (core s)) (p : Piece)
      (rest : List Piece) (x : Bool × ℕ × E)
      → s.input ≡ p ∷ rest
      → s.end_of_input ≡ false
      → enc.compress_stream (operation_of p) p.content o.e ≡ x
      → enc.is_finished o.e ≡ false
      → Kept laws conf dict given (fed enc conf s p rest x)
  fed-Kept given s o p rest (false, n, e') i h call unfinished = (refl, o.unfinished)
  fed-Kept given s o p rest (true, n, e') i h call unfinished =
      let s' = record s {
        encoder = some e';
        buffered = true;
        bytes_in = u64 (s.bytes_in + n);
        input = record p { content = drop n p.content } ∷ rest;
      } in
      let whole = record s' {
        input = rest;
        end_of_input = p.last_buf || s.end_of_input;
        end_of_block = (not p.last_buf && p.flush) || s.end_of_block;
      } in
      if_cases (Kept laws conf dict given) (over_cap conf.max_length s'.bytes_in) (fails s')
        (if n == length p.content
          then continues whole
          else if n == 0
          then fails s'
          else continues s')
        (λ _. (refl, o.unfinished))
        (λ under.
          let cap = over_cap-Capped conf.max_length s'.bytes_in under in
          if_cases (Kept laws conf dict given) (n == length p.content) (continues whole)
            (if n == 0 then fails s' else continues s')
            (λ all.
              whole-Kept laws conf dict given s o p rest n e' i h call cap unfinished
                ((==_iff n (length p.content)).0 all))
            (λ some_left.
              if_cases (Kept laws conf dict given) (n == 0) (fails s') (continues s')
                (λ _. (refl, o.unfinished))
                (λ _.
                  part-Kept laws conf dict given s o p rest n e' i h call cap unfinished
                    some_left)))

  drop-Kept :
      (given : List Piece) (s : Stream E N) (o : Running laws conf dict given (core s)) (p : Piece)
      (rest : List Piece)
      → s.input ≡ p ∷ rest
      → s.end_of_input ≡ false
      → (length p.content == 0 && (not p.last_buf && not p.flush)) ≡ true
      → Running laws conf dict given (core (record s { input = rest }))
  drop-Kept given s o p rest i h nothing = record {
    e = o.e;
    has_encoder = o.has_encoder;
    b = o.b;
    has_buf = o.has_buf;
    initialized = o.initialized;
    running = o.running;
    has_body = o.has_body;
    unfinished = o.unfinished;
    header_sent = o.header_sent;
    same_dict = o.same_dict;
    flows_out = o.flows_out;
    flows_in = λ more.
        o.flows_in more
        ∙ ap (◌++◌ (laws.view o.e).consumed) (
            ap (λ eoi. to_come eoi (s.input ++ more)) h
            ∙ ap (λ ps. body_bytes (ps ++ more)) i
            ∙ drop_body p (rest ++ more) nothing
            ∙ ap (λ eoi. to_come eoi (rest ++ more)) (sym h));
    last_in = λ more.
        o.last_in more
        ∙ ap (◌||◌ s.end_of_input)
            (ap (λ ps. has_last (ps ++ more)) i ∙ drop_last p (rest ++ more) nothing);
    marked = o.marked;
    in_order = o.in_order;
    closes = o.closes;
    counts_in = o.counts_in;
    counts_out = o.counts_out;
    capped = o.capped;
    dictionary = o.dictionary;
  }

  pub feed-Kept :
      (given : List Piece) (s : Stream E N) (o : Running laws conf dict given (core s))
      (ps : List Piece)
      → s.input ≡ ps
      → s.end_of_input ≡ false
      → enc.is_finished o.e ≡ false
      → Kept laws conf dict given (feed enc conf s o.e ps)
  feed-Kept given s o [] i h unfinished = inl (o, i, h)
  feed-Kept given s o (p ∷ rest) i h unfinished =
      if_cases (Kept laws conf dict given)
        (length p.content == 0 && (not p.last_buf && not p.flush))
        (continues (record s { input = rest }))
        (fed enc conf s p rest (enc.compress_stream (operation_of p) p.content o.e))
        (drop-Kept given s o p rest i h)
        (λ _.
          fed-Kept given s o p rest (enc.compress_stream (operation_of p) p.content o.e) i h refl
            unfinished)
