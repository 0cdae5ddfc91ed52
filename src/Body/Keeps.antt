-- ===== src/Body/Keeps.antt =====
-- The invariant across a round of the main loop: what is handed over, and what is wrapped.
use mathlib.Core.Option.{some-injective, none-ne-some}
use ngx_brotli.Base.{
  u64, if_cases, and-false, and_left, and_known, ℕ, ◌+◌, ◌≡◌, refl, ap, sym, ◌∙◌, Bool, true, false,
  not, ◌&&◌, ◌||◌, Bytes, List, [], ◌∷◌, ◌++◌, Option, none, some, arith, length, drop, append-nil,
  append_assoc, length-append, if◌then◌else◌, ◌==◌,
}
use ngx_brotli.Body.Laws.{View, EncoderLaws}
use ngx_brotli.Body.Marks.{contents-handed, links-handed, early_last-snoc, has_last-snoc}
use ngx_brotli.Body.Open.{
  contents, has_last, waiting_link, early_last, frame, has_dict, waiting, to_come, core, Open,
  Running, Kept,
}
use ngx_brotli.Body.Rounds.{continues, returns, no_input, answered, handed_over, push_output, wrap}
use ngx_brotli.Body.Stream.{Piece, Encoder, Answer, ok, again, error, Downstream, Stream}
use ngx_brotli.Dcb.{Dict, Conf}

module _ {E N : Type 0} {enc : Encoder E} {decode : Option Bytes → Bytes → Option Bytes}
    (laws : EncoderLaws enc decode) (conf : Conf) (dict : Option Dict) where
  handed_over-Open :
      (given : List Piece) (sent : Bool) (s : Stream E N) (b : Piece) (n : N) (k : ℕ)
      → s.out_buf ≡ some b
      → Open laws conf dict given sent (core s)
      → Open laws conf dict given sent (core (handed_over s s.output_ready b n k))
  handed_over-Open given sent s b n k h o =
      let same : o.b ≡ b = some-injective o.b b (sym o.has_buf ∙ h) in
      let moved =
        links-handed s.output_ready s.handed b
        ∙ ap (λ b. s.handed ++ waiting_link s.output_ready b) (sym same) in
      record {
        e = o.e;
        has_encoder = o.has_encoder;
        b = record b { content = drop k b.content };
        has_buf = refl;
        initialized = o.initialized;
        running = o.running;
        has_body = o.has_body;
        unfinished = o.unfinished;
        header_sent = o.header_sent;
        same_dict = o.same_dict;
        flows_out =
            contents-handed s.output_ready s.handed b
            ∙ ap (λ b. contents s.handed ++ waiting s.output_ready b) (sym same)
            ∙ o.flows_out;
        flows_in = o.flows_in;
        last_in = o.last_in;
        marked = ap has_last moved ∙ o.marked;
        in_order = ap early_last moved ∙ o.in_order;
        closes = o.closes;
        counts_in = o.counts_in;
        counts_out = o.counts_out;
        capped = o.capped;
        dictionary = o.dictionary;
      }

  answered-Kept :
      (given : List Piece) (before left : ℕ) (s : Stream E N) (answer : Answer)
      → Running laws conf dict given (core s)
      → Kept laws conf dict given (answered before left s answer)
  answered-Kept given before left s ok o =
      if_cases (Kept laws conf dict given) (s.output_busy && before == left)
        (returns again (record s { buffered = true })) (continues s)
        (λ h. (o, and_left s.output_busy (before == left) h)) (λ _. o)
  answered-Kept given before left s again o =
      if_cases (Kept laws conf dict given) s.output_busy
        (returns again (record s { buffered = if no_input s.input then s.buffered else true }))
        (continues s) (λ h. (o, h)) (λ _. o)
  answered-Kept given before left s error o = (refl, o.unfinished)

  pub push_output-Kept :
      (down : Downstream N) (given : List Piece) (s : Stream E N) (buf : Option Piece)
      → s.out_buf ≡ buf
      → Running laws conf dict given (core s)
      → Kept laws conf dict given (push_output down s buf)
  push_output-Kept down given s none h o = none-ne-some o.b (sym h ∙ o.has_buf)
  push_output-Kept down given s (some b) h o =
      let call = down.next s.downstream (if s.output_ready then some b else none) in
      let s' = handed_over s s.output_ready b call.0 call.2 in
      answered-Kept given (if s.output_busy then length b.content else 0)
        (length (drop call.2 b.content)) s' call.1
        (handed_over-Open given (has_dict s.dcb_dict) s b call.0 call.2 h o)

  -- What was handed over is all that was taken, where nothing waits.
  pub nothing_waits :
      (given : List Piece) (sent : Bool) (s : Stream E N)
      (o : Open laws conf dict given sent (core s))
      → s.output_ready ≡ false
      → contents s.handed ≡ frame sent s.dcb_dict ++ (laws.view o.e).taken
  nothing_waits given sent s o h =
      sym (append-nil (contents s.handed))
      ∙ ap (λ ready. contents s.handed ++ waiting ready o.b) (sym h)
      ∙ o.flows_out

  wrap-Open :
      (given : List Piece) (sent : Bool) (s : Stream E N) (b : Piece) (x : Bytes × E)
      (buffered : Bool)
      → s.output_ready ≡ false
      → (o : Open laws conf dict given sent (core s)) → enc.take_output o.e ≡ x
      → b.content ≡ x.0
      → enc.has_more_output o.e ≡ true
      → b.last_buf ≡ (s.end_of_input && (enc.is_finished x.1 && not (enc.has_more_output x.1)))
      → Open laws conf dict given sent (
          core (record s {
            encoder = some x.1;
            out_buf = some b;
            bytes_out = u64 (s.bytes_out + length x.0);
            buffered = buffered;
            end_of_block = false;
            output_ready = true;
          }))
  wrap-Open given sent s b x buffered h o t c more flag =
      let took =
        ap (λ (x : Bytes × E). laws.view x.1) (sym t)
        ∙ laws.took o.e
        ∙ ap (λ (x : Bytes × E). record (laws.view o.e) { taken = (laws.view o.e).taken ++ x.0 })
            t in
      let f = frame sent s.dcb_dict in
      let taken = ap (λ (v : View). v.taken) took in
      let none_last : has_last s.handed ≡ false =
        sym (ap has_last (append-nil s.handed))
        ∙ ap (λ ready. has_last (s.handed ++ waiting_link ready o.b)) (sym h)
        ∙ o.marked
        ∙ ap (λ more. enc.is_finished o.e && not more) more
        ∙ and-false (enc.is_finished o.e) in
      let size : length (f ++ (laws.view x.1).taken)
          ≡ length (f ++ (laws.view o.e).taken) + length x.0 =
        ap (λ out. length (f ++ out)) taken
        ∙ ap length (sym (append_assoc f (laws.view o.e).taken x.0))
        ∙ length-append (f ++ (laws.view o.e).taken) x.0 in
      record {
        e = x.1;
        has_encoder = refl;
        b = b;
        has_buf = refl;
        initialized = o.initialized;
        running = o.running;
        has_body = o.has_body;
        unfinished = o.unfinished;
        header_sent = o.header_sent;
        same_dict = o.same_dict;
        flows_out =
            ap (◌++◌ (contents s.handed)) c
            ∙ ap (λ out. out ++ x.0) (nothing_waits given sent s o h)
            ∙ append_assoc f (laws.view o.e).taken x.0
            ∙ ap (◌++◌ f) (sym taken);
        flows_in = λ more.
            o.flows_in more
            ∙ ap (λ (v : View). v.consumed ++ to_come s.end_of_input (s.input ++ more)) (sym took);
        last_in = o.last_in;
        marked =
            has_last-snoc s.handed b none_last
            ∙ flag
            ∙ and_known s.end_of_input (enc.is_finished x.1) (not (enc.has_more_output x.1))
                (λ k. o.closes (sym (ap (λ (v : View). v.closing) took) ∙ laws.finished x.1 k));
        in_order = early_last-snoc s.handed b ∙ none_last;
        closes = λ k. o.closes (sym (ap (λ (v : View). v.closing) took) ∙ k);
        counts_in = o.counts_in ∙ ap (λ (v : View). u64 (length v.consumed)) (sym took);
        counts_out = omega (arith, o.counts_out, size);
        capped = o.capped;
        dictionary = ap (λ (v : View). v.dictionary) took ∙ o.dictionary;
      }

  pub wrap-Kept :
      (given : List Piece) (s : Stream E N) (buf : Option Piece) (x : Bytes × E)
      → s.output_ready ≡ false
      → s.out_buf ≡ buf
      → (o : Running laws conf dict given (core s)) → enc.take_output o.e ≡ x
      → enc.has_more_output o.e ≡ true
      → Kept laws conf dict given (wrap enc conf s buf x)
  wrap-Kept given s buf ([], e) h k o t more = (refl, o.unfinished)
  wrap-Kept given s none (y ∷ ys, e) h k o t more = none-ne-some o.b (sym k ∙ o.has_buf)
  wrap-Kept given s (some b) (y ∷ ys, e) h k o t more =
      let last = s.end_of_input && (enc.is_finished e && not (enc.has_more_output e)) in
      wrap-Open given (has_dict s.dcb_dict) s
        (record { content = y ∷ ys; last_buf = last; flush = not last && s.end_of_block })
        (y ∷ ys, e) (if last || s.end_of_block then false else s.buffered) h o t refl more refl
