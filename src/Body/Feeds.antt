-- ===== src/Body/Feeds.antt =====
-- The invariant across a round of the main loop: what the encoder is fed.
use mathlib.Core.Bool.{}
use ngx_brotli.Base.{
  u64, ℕ, ◌+◌, ◌≡◌, refl, ap, sym, ◌∙◌, Bool, true, false, not, ◌&&◌, ◌||◌, Bytes, List, [], ◌∷◌,
  ◌++◌, Option, some, arith, length, take, drop, append_assoc, length-append, length-take, ◌==◌,
}
use ngx_brotli.Body.Marks.{take_all}
use ngx_brotli.Body.Laws.{View, EncoderLaws, is_finishing}
use ngx_brotli.Body.Open.{
  Capped, body_bytes, has_last, frame, has_dict, to_come, core, Open, Running, Kept,
}
use ngx_brotli.Body.Rounds.{operation_of, leftover}
use ngx_brotli.Body.Stream.{Piece, Operation, finishing, Encoder, Stream}
use ngx_brotli.Dcb.{Dict, Conf}
use ngx_brotli.Body.Joins.{
  take-nil, is_finishing-operation_of, split_body, pass_body, or_swap, whole_shuts, part_shuts,
}

module _ {E N : Type 0} {enc : Encoder E} {decode : Option Bytes → Bytes → Option Bytes}
    (laws : EncoderLaws enc decode) (conf : Conf) (dict : Option Dict) where
  -- A call of the encoder that moves bytes from what is to come to what is consumed.
  compress-Open :
      (given : List Piece) (sent : Bool) (s : Stream E N)
      (o : Open laws conf dict given sent (core s)) (op : Operation) (xs : Bytes) (n : ℕ) (e' : E)
      (input : List Piece) (eoi : Bool) (bytes_in : ℕ)
      → enc.compress_stream op xs o.e ≡ (true, n, e')
      → bytes_in ≡ u64 (s.bytes_in + length (take n xs))
      → Capped conf.max_length bytes_in
      → enc.is_finished o.e ≡ false
      → ((more : List Piece)
          → to_come s.end_of_input (s.input ++ more) ≡ take n xs ++ to_come eoi (input ++ more))
      → ((more : List Piece)
          → (s.end_of_input || has_last (s.input ++ more)) ≡ (eoi || has_last (input ++ more)))
      → (((laws.view o.e).closing || (is_finishing op && n == length xs)) ≡ true → eoi ≡ true)
      → Open laws conf dict given sent (
          core (record s {
            encoder = some e';
            bytes_in = bytes_in;
            input = input;
            end_of_input = eoi;
          }))
  compress-Open given sent s o op xs n e' input eoi bytes_in call count cap unfinished moves lasts
        shuts =
      let v = laws.view o.e in
      let after = laws.compressed op xs o.e e' n call in
      let f = frame sent s.dcb_dict in
      let consumed : (laws.view e').consumed ≡ v.consumed ++ take n xs =
        ap (λ (v : View). v.consumed) after in
      let size = ap length consumed ∙ length-append v.consumed (take n xs) in
      record {
        e = e';
        has_encoder = refl;
        b = o.b;
        has_buf = o.has_buf;
        initialized = o.initialized;
        running = o.running;
        has_body = o.has_body;
        unfinished = o.unfinished;
        header_sent = o.header_sent;
        same_dict = o.same_dict;
        flows_out = o.flows_out ∙ ap (λ (v : View). f ++ v.taken) (sym after);
        flows_in = λ more.
            o.flows_in more
            ∙ ap (◌++◌ v.consumed) (moves more)
            ∙ sym (append_assoc v.consumed (take n xs) (to_come eoi (input ++ more)))
            ∙ ap (λ c. c ++ to_come eoi (input ++ more)) (sym consumed);
        last_in = λ more. o.last_in more ∙ lasts more;
        marked =
            o.marked
            ∙ ap (λ b. b && not (enc.has_more_output o.e)) unfinished
            ∙ ap (λ b. b && not (enc.has_more_output e'))
                (sym (laws.unfinished op xs o.e e' n call unfinished));
        in_order = o.in_order;
        closes = λ k. shuts (sym (ap (λ (v : View). v.closing) after) ∙ k);
        counts_in = omega (arith, count, o.counts_in, size);
        counts_out = o.counts_out ∙ ap (λ (v : View). u64 (length (f ++ v.taken))) (sym after);
        capped = cap;
        dictionary = ap (λ (v : View). v.dictionary) after ∙ o.dictionary;
      }

  -- The leftover: no input, and nothing is to come.
  pub leftover-Kept :
      (given : List Piece) (s : Stream E N) (o : Running laws conf dict given (core s))
      (x : Bool × ℕ × E)
      → s.end_of_input ≡ true
      → enc.compress_stream finishing [] o.e ≡ x
      → enc.is_finished o.e ≡ false
      → Kept laws conf dict given (leftover enc conf s x)
  leftover-Kept given s o (false, n, e') h call unfinished = (refl, o.unfinished)
  leftover-Kept given s o (true, n, e') h call unfinished =
      let nothing = ap length (take-nil n) in
      compress-Open given (has_dict s.dcb_dict) s o finishing [] n e' s.input s.end_of_input
        s.bytes_in call (omega (arith, nothing, o.counts_in)) o.capped unfinished
        (λ more. ap (λ c. c ++ to_come s.end_of_input (s.input ++ more)) (sym (take-nil n)))
        (λ more. refl) (λ k. h)

  -- A link that is consumed whole, or in part.
  pub whole-Kept :
      (given : List Piece) (s : Stream E N) (o : Running laws conf dict given (core s)) (p : Piece)
      (rest : List Piece) (n : ℕ) (e' : E)
      → s.input ≡ p ∷ rest
      → s.end_of_input ≡ false
      → enc.compress_stream (operation_of p) p.content o.e ≡ (true, n, e')
      → Capped conf.max_length (u64 (s.bytes_in + n))
      → enc.is_finished o.e ≡ false
      → n ≡ length p.content
      → Running laws conf dict given (
          core (record s {
            encoder = some e';
            bytes_in = u64 (s.bytes_in + n);
            input = rest;
            end_of_input = p.last_buf || s.end_of_input;
          }))
  whole-Kept given s o p rest n e' i h call cap unfinished all =
      let taken : take n p.content ≡ p.content =
        ap (λ n. take n p.content) all ∙ take_all p.content in
      compress-Open given (has_dict s.dcb_dict) s o (operation_of p) p.content n e' rest
        (p.last_buf || s.end_of_input) (u64 (s.bytes_in + n)) call
        (omega (arith, ap length taken, all)) cap unfinished
        (λ more.
          ap (λ eoi. to_come eoi (s.input ++ more)) h
          ∙ ap (λ ps. body_bytes (ps ++ more)) i
          ∙ pass_body p s.end_of_input (rest ++ more) h
          ∙ ap (λ c. c ++ to_come (p.last_buf || s.end_of_input) (rest ++ more)) (sym taken))
        (λ more.
          ap (λ ps. s.end_of_input || has_last (ps ++ more)) i
          ∙ or_swap s.end_of_input p.last_buf (has_last (rest ++ more)))
        (whole_shuts (laws.view o.e).closing (is_finishing (operation_of p)) (n == length p.content)
          p.last_buf s.end_of_input o.closes (is_finishing-operation_of p))

  pub part-Kept :
      (given : List Piece) (s : Stream E N) (o : Running laws conf dict given (core s)) (p : Piece)
      (rest : List Piece) (n : ℕ) (e' : E)
      → s.input ≡ p ∷ rest
      → s.end_of_input ≡ false
      → enc.compress_stream (operation_of p) p.content o.e ≡ (true, n, e')
      → Capped conf.max_length (u64 (s.bytes_in + n))
      → enc.is_finished o.e ≡ false
      → (n == length p.content) ≡ false
      → Running laws conf dict given (
          core (record s {
            encoder = some e';
            bytes_in = u64 (s.bytes_in + n);
            input = record p { content = drop n p.content } ∷ rest;
          }))
  part-Kept given s o p rest n e' i h call cap unfinished some_left =
      let p' = record p { content = drop n p.content } in
      let fits = laws.consumes (operation_of p) p.content o.e e' n call in
      compress-Open given (has_dict s.dcb_dict) s o (operation_of p) p.content n e' (p' ∷ rest)
        s.end_of_input (u64 (s.bytes_in + n)) call (omega (arith, length-take n p.content, fits))
        cap unfinished
        (λ more.
          ap (λ eoi. to_come eoi (s.input ++ more)) h
          ∙ ap (λ ps. body_bytes (ps ++ more)) i
          ∙ split_body p n (rest ++ more)
          ∙ ap (λ eoi. take n p.content ++ to_come eoi (p' ∷ (rest ++ more))) (sym h))
        (λ more. ap (λ ps. s.end_of_input || has_last (ps ++ more)) i)
        (part_shuts (laws.view o.e).closing (is_finishing (operation_of p)) (n == length p.content)
          s.end_of_input o.closes some_left)
