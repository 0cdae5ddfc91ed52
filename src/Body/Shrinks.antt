-- ===== src/Body/Shrinks.antt =====
-- The measure of the main loop across a round.
use mathlib.Core.Bool.{}
use ngx_brotli.Base.{
  u64, if_cases, or_false, ℕ, ◌+◌, ◌*◌, ◌<◌, ◌≤◌, ◌≡◌, refl, ap, sym, subst, ◌∙◌, Bool, true, false,
  not, ◌&&◌, ◌||◌, Bytes, List, [], ◌∷◌, Option, none, some, arith, length, length-drop, drop,
  if◌then◌else◌, inl, inr, ◌==◌, ==_iff, Bool-cases,
}
use ngx_brotli.Body.Laws.{View, EncoderLaws, Progress}
use ngx_brotli.Body.Rounds.{
  continues, returns, no_input, answered, handed_over, push_output, wrap, fails, operation_of,
  over_cap, leftover, fed, feed, with_encoder, round,
}
use ngx_brotli.Body.Setup.{close}
use ngx_brotli.Body.Sizes.{
  links_size, open_size, out_size, encoder_open, encoder_pending, to_feed, to_hand, Shrinks,
  out_size-pushed,
}
use ngx_brotli.Body.Stream.{Piece, finishing, Encoder, Answer, ok, again, error, Downstream, Stream}
use ngx_brotli.Dcb.{Conf}
use ngx_brotli.Body.Measures.{open_size-le, feeds_less, hands_less, part_less}

module _ {E N : Type 0} {enc : Encoder E} {decode : Option Bytes → Bytes → Option Bytes}
    (laws : EncoderLaws enc decode) (progress : Progress enc (λ e. (laws.view e).closing)) where
  answered-Shrinks :
      (before left feed hand : ℕ) (s : Stream E N) (answer : Answer)
      → to_feed laws progress s ≡ feed
      → ((s.output_busy && before == left) ≡ false → to_hand laws progress s < hand)
      → Shrinks laws progress feed hand (answered before left s answer)
  answered-Shrinks before left feed hand s ok same less =
      if_cases (Shrinks laws progress feed hand) (s.output_busy && before == left)
        (returns again (record s { buffered = true })) (continues s) (λ _. tt)
        (λ h. inr (same, less h))
  answered-Shrinks before left feed hand s again same less =
      if_cases (Shrinks laws progress feed hand) s.output_busy
        (returns again (record s { buffered = if no_input s.input then s.buffered else true }))
        (continues s) (λ _. tt) (λ h. inr (same, less (ap (λ b. b && before == left) h)))
  answered-Shrinks before left feed hand s error same less = tt

  push_output-Shrinks :
      (down : Downstream N) (s : Stream E N) (buf : Option Piece)
      → s.out_buf ≡ buf
      → (s.output_busy || s.output_ready) ≡ true
      → Shrinks laws progress
          (to_feed laws progress s)
          (to_hand laws progress s)
          (push_output down s buf)
  push_output-Shrinks down s none h out = tt
  push_output-Shrinks down s (some b) h out =
      let call = down.next s.downstream (if s.output_ready then some b else none) in
      let left = drop call.2 b.content in
      let pending = encoder_pending laws progress s.encoder in
      answered-Shrinks (if s.output_busy then length b.content else 0) (length left)
        (to_feed laws progress s) (to_hand laws progress s)
        (handed_over s s.output_ready b call.0 call.2) call.1 refl
        (λ moved.
          let less =
            out_size-pushed s.output_busy s.output_ready b (record b { content = left })
              (omega (arith, length-drop call.2 b.content)) out moved in
          let same = ap (out_size s.output_busy s.output_ready) h in omega (arith, less, same))

  wrap-Shrinks :
      (conf : Conf) (s : Stream E N) (buf : Option Piece) (e : E) (x : Bytes × E)
      → s.encoder ≡ some e
      → s.output_busy ≡ false
      → s.output_ready ≡ false
      → enc.take_output e ≡ x
      → Shrinks laws progress
          (to_feed laws progress s)
          (to_hand laws progress s)
          (wrap enc conf s buf x)
  wrap-Shrinks conf s buf e ([], e') h idle unready took = tt
  wrap-Shrinks conf s none e (y ∷ ys, e') h idle unready took = tt
  wrap-Shrinks conf s (some b) e (y ∷ ys, e') h idle unready took =
      let closing =
        ap (λ (x : Bytes × E). (laws.view x.1).closing) (sym took)
        ∙ ap (λ (v : View). v.closing) (laws.took e) in
      let drains : progress.pending e' + length (y ∷ ys) ≤ progress.pending e =
        subst (λ (x : Bytes × E). progress.pending x.1 + length x.0 ≤ progress.pending e) took
          (progress.drains e) in
      let before : to_hand laws progress s ≡ 4 * progress.pending e + 0 =
        rw (h, idle, unready) refl in
      inr (
        ap (λ n. 2 * links_size s.input + open_size n) closing
            ∙ ap (λ x. 2 * links_size s.input + encoder_open laws progress x) (sym h),
        omega (
          arith,
          before,
          hands_less (progress.pending e) (progress.pending e') (length ys) drains,
        ),
      )

  leftover-Shrinks :
      (conf : Conf) (s : Stream E N) (e : E) (x : Bool × ℕ × E)
      → s.encoder ≡ some e
      → enc.has_more_output e ≡ false
      → enc.is_finished e ≡ false
      → enc.compress_stream finishing [] e ≡ x
      → Shrinks laws progress
          (to_feed laws progress s)
          (to_hand laws progress s)
          (leftover enc conf s x)
  leftover-Shrinks conf s e (false, n, e') h more unfinished call = tt
  leftover-Shrinks conf s e (true, n, e') h more unfinished call =
      let seen = ap (λ (v : View). v.closing) (laws.compressed finishing [] e e' n call) in
      let fed = ap (λ x. 2 * links_size s.input + encoder_open laws progress x) h in
      let size = λ (c : Bool). 2 * links_size s.input + open_size c in
      elim (Bool-cases (laws.view e).closing) [
        | inl closing ↦
            let before =
              ap
                (λ x.
                  4 * encoder_pending laws progress x
                  + out_size s.output_busy s.output_ready s.out_buf)
                h in
            let less = progress.repeats e e' n closing more unfinished call in
            inr (
              ap size (seen ∙ ap (λ c. c || n == 0) closing ∙ sym closing) ∙ sym fed,
              omega (arith, before, less),
            )
        | inr unclosed ↦
            let closed =
              ap (λ c. c || n == 0) unclosed
              ∙ (==_iff n 0).1 (omega (arith, laws.consumes finishing [] e e' n call)) in
            let after = ap size (seen ∙ closed) in
            let before = fed ∙ ap size unclosed in inl (omega (arith, after, before))
      ]

  fed-Shrinks :
      (conf : Conf) (s : Stream E N) (e : E) (p : Piece) (rest : List Piece) (x : Bool × ℕ × E)
      → s.input ≡ p ∷ rest
      → enc.compress_stream (operation_of p) p.content e ≡ x
      → Shrinks laws progress
          (to_feed laws progress s)
          (to_hand laws progress s)
          (fed enc conf s p rest x)
  fed-Shrinks conf s e p rest (false, n, e') i call = tt
  fed-Shrinks conf s e p rest (true, n, e') i call =
      let s' = record s {
        encoder = some e';
        buffered = true;
        bytes_in = u64 (s.bytes_in + n);
        input = record p { content = drop n p.content } ∷ rest;
      } in
      let whole = record s' {
        input = rest;
        end_of_input = p.last_buf || s.end_of_input;
        end_of_block = (not p.last_buf && p.flush) || s.end_of_block;
      } in
      let P = Shrinks laws progress (to_feed laws progress s) (to_hand laws progress s) in
      let size = ap links_size i in
      let small = open_size-le (laws.view e').closing in
      if_cases P (over_cap conf.max_length s'.bytes_in) (fails s')
        (if n == length p.content
          then continues whole
          else if n == 0
          then fails s'
          else continues s')
        (λ _. tt)
        (λ cap.
          if_cases P (n == length p.content) (continues whole)
            (if n == 0 then fails s' else continues s')
            (λ all. inl (
              feeds_less (links_size rest) (links_size s.input) (open_size (laws.view e').closing)
                (encoder_open laws progress s.encoder) (omega (arith, size)) small))
            (λ some_left.
              if_cases P (n == 0) (fails s') (continues s') (λ _. tt)
                (λ some_taken. inl (
                  feeds_less (links_size s'.input) (links_size s.input)
                    (open_size (laws.view e').closing) (encoder_open laws progress s.encoder)
                    (part_less n p rest (laws.consumes (operation_of p) p.content e e' n call)
                      some_taken size)
                    small))))

  feed-Shrinks :
      (conf : Conf) (s : Stream E N) (e : E) (ps : List Piece)
      → s.input ≡ ps
      → Shrinks laws progress
          (to_feed laws progress s)
          (to_hand laws progress s)
          (feed enc conf s e ps)
  feed-Shrinks conf s e [] i = tt
  feed-Shrinks conf s e (p ∷ rest) i =
      let size = ap links_size i in
      if_cases (Shrinks laws progress (to_feed laws progress s) (to_hand laws progress s))
        (length p.content == 0 && (not p.last_buf && not p.flush))
        (continues (record s { input = rest }))
        (fed enc conf s p rest (enc.compress_stream (operation_of p) p.content e))
        (λ _. inl (omega (arith, size)))
        (λ _. fed-Shrinks conf s e p rest (enc.compress_stream (operation_of p) p.content e) i refl)

  with_encoder-Shrinks :
      (conf : Conf) (s : Stream E N) (x : Option E)
      → s.encoder ≡ x
      → s.output_busy ≡ false
      → s.output_ready ≡ false
      → Shrinks laws progress
          (to_feed laws progress s)
          (to_hand laws progress s)
          (with_encoder enc conf s x)
  with_encoder-Shrinks conf s none h idle unready = tt
  with_encoder-Shrinks conf s (some e) h idle unready =
      let P = Shrinks laws progress (to_feed laws progress s) (to_hand laws progress s) in
      let finished = returns ok (close (record s { success = true; buffered = false })) in
      let asked = leftover enc conf s (enc.compress_stream finishing [] e) in
      let input = feed enc conf s e s.input in
      if_cases P (enc.has_more_output e) (wrap enc conf s s.out_buf (enc.take_output e))
        (if enc.is_finished e then finished else if s.end_of_input then asked else input)
        (λ _. wrap-Shrinks conf s s.out_buf e (enc.take_output e) h idle unready refl)
        (λ more.
          if_cases P (enc.is_finished e) finished (if s.end_of_input then asked else input)
            (λ _. tt)
            (λ unfinished.
              if_cases P s.end_of_input asked input
                (λ _.
                  leftover-Shrinks conf s e (enc.compress_stream finishing [] e) h more unfinished
                    refl)
                (λ _. feed-Shrinks conf s e s.input refl)))

  pub round-Shrinks :
      (conf : Conf) (down : Downstream N) (s : Stream E N)
      → Shrinks laws progress
          (to_feed laws progress s)
          (to_hand laws progress s)
          (round enc conf down s)
  unfolding round
  round-Shrinks conf down s =
      if_cases (Shrinks laws progress (to_feed laws progress s) (to_hand laws progress s))
        (s.output_busy || s.output_ready) (push_output down s s.out_buf)
        (with_encoder enc conf s s.encoder) (push_output-Shrinks down s s.out_buf refl)
        (λ idle.
          let h = or_false s.output_busy s.output_ready idle in
          with_encoder-Shrinks conf s s.encoder refl h.0 h.1)
