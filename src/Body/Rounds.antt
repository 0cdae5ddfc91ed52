-- ===== src/Body/Rounds.antt =====
-- The main loop of `ngx_http_brotli_body_filter`, one round at a time, and the filter around it.
use ngx_brotli.Base.{
  u64, ℕ, zero, suc, ◌+◌, Bool, true, false, not, ◌&&◌, ◌||◌, Bytes, List, [], ◌∷◌, ◌++◌, Option,
  none, some, ◌==◌, off_t_less, length, drop, if◌then◌else◌,
}
use ngx_brotli.Body.Setup.{close, allocate_from, ensure_stream_initialized, emit_dcb_header}
use ngx_brotli.Body.Stream.{
  Piece, Operation, process, flushing, finishing, Encoder, Answer, ok, again, error, Downstream,
  Stream,
}
use ngx_brotli.Dcb.{Dict, Conf}

-- A round goes on, or the filter returns; `faults` is a NULL pointer that is read.
pub data Round (S : Type 0) : Type 0 where
  continues : S → Round S
  returns : Answer → S → Round S
  faults : Round S

abbrev pub no_input : List Piece → Bool
no_input [] = true
no_input (p ∷ ps) = false

abbrev pub operation_of : Piece → Operation
operation_of p = if p.last_buf then finishing else if p.flush then flushing else process

-- The comparison is between two `off_t`.
abbrev pub over_cap : Option ℕ → ℕ → Bool
over_cap none bytes_in = false
over_cap (some max_length) bytes_in = off_t_less max_length bytes_in

-- `continue` and `return`.
abbrev pub behind_round : {S : Type 0} → (S → Option (Round S)) → Round S → Option (Round S)
behind_round next (continues s) = next s
behind_round next (returns answer s) = some (returns answer s)
behind_round next faults = some faults

module _ {E N : Type 0} where
  abbrev pub fails : Stream E N → Round (Stream E N)
  fails s = returns error (close s)

  -- What the next filter's code leads to; `busy_before` is the size of the busy output before the
  -- call and `left` that of the output behind it.
  abbrev pub answered : ℕ → ℕ → Stream E N → Answer → Round (Stream E N)
  answered busy_before left s ok =
      if s.output_busy && busy_before == left
      then returns again (record s { buffered = true })
      else continues s
  answered busy_before left s again =
      if s.output_busy
      then returns again (record s { buffered = if no_input s.input then s.buffered else true })
      else continues s
  answered busy_before left s error = fails s

  -- The state behind the call: `ready` says that the link was handed over.
  abbrev pub handed_over : Stream E N → Bool → Piece → N → ℕ → Stream E N
  handed_over s ready b n consumed =
      let left = drop consumed b.content in
      record s {
        downstream = n;
        handed = if ready then s.handed ++ b ∷ [] else s.handed;
        out_buf = some (record b { content = left });
        output_ready = false;
        output_busy = not (length left == 0);
      }

  abbrev pub push_output : Downstream N → Stream E N → Option Piece → Round (Stream E N)
  push_output down s none = faults
  push_output down s (some b) =
      let busy_before = if s.output_busy then length b.content else 0 in
      let (n, answer, consumed) =
        down.next s.downstream (if s.output_ready then some b else none) in
      answered busy_before (length (drop consumed b.content))
        (handed_over s s.output_ready b n consumed) answer

  module _ (enc : Encoder E) (conf : Conf) where
    -- The output that is wrapped for the next round.
    abbrev pub wrap : Stream E N → Option Piece → Bytes × E → Round (Stream E N)
    wrap s b ([], e) = fails s
    wrap s none (o ∷ os, e) = faults
    wrap s (some b) (o ∷ os, e) =
        let last = s.end_of_input && (enc.is_finished e && not (enc.has_more_output e)) in
        continues (record s {
          encoder = some e;
          out_buf =
              some
                (record { content = o ∷ os; last_buf = last; flush = not last && s.end_of_block });
          bytes_out = u64 (s.bytes_out + length (o ∷ os));
          buffered = if last || s.end_of_block then false else s.buffered;
          end_of_block = false;
          output_ready = true;
        })

    -- The call that asks for the leftover.
    abbrev pub leftover : Stream E N → Bool × ℕ × E → Round (Stream E N)
    leftover s (false, consumed, e) = fails s
    leftover s (true, consumed, e) = continues (record s { encoder = some e; buffered = true })

    -- Behind the encoder's consumption of a link, in front of `rest`.
    abbrev pub consumed_from : Stream E N → Piece → List Piece → ℕ → Round (Stream E N)
    consumed_from s p rest consumed =
        if over_cap conf.max_length s.bytes_in
        then fails s
        else if consumed == length p.content
        then continues (record s {
          input = rest;
          end_of_input = p.last_buf || s.end_of_input;
          end_of_block = (not p.last_buf && p.flush) || s.end_of_block;
        })
        else if consumed == 0
        then fails s
        else continues s

    abbrev pub fed : Stream E N → Piece → List Piece → Bool × ℕ × E → Round (Stream E N)
    fed s p rest (false, consumed, e) = fails s
    fed s p rest (true, consumed, e) =
        consumed_from
          (record s {
            encoder = some e;
            buffered = true;
            bytes_in = u64 (s.bytes_in + consumed);
            input = record p { content = drop consumed p.content } ∷ rest;
          })
          p rest consumed

    abbrev pub feed : Stream E N → E → List Piece → Round (Stream E N)
    feed s e [] = returns ok s
    feed s e (p ∷ rest) =
        if length p.content == 0 && (not p.last_buf && not p.flush)
        then continues (record s { input = rest })
        else fed s p rest (enc.compress_stream (operation_of p) p.content e)

    abbrev pub with_encoder : Stream E N → Option E → Round (Stream E N)
    with_encoder s none = faults
    with_encoder s (some e) =
        if enc.has_more_output e
        then wrap s s.out_buf (enc.take_output e)
        else if enc.is_finished e
        then returns ok (close (record s { success = true; buffered = false }))
        else if s.end_of_input
        then leftover s (enc.compress_stream finishing [] e)
        else feed s e s.input

    module _ (down : Downstream N) where
      -- One round of `for (;;)`.
      unfoldable pub round : Stream E N → Round (Stream E N)
      round s =
          if s.output_busy || s.output_ready
          then push_output down s s.out_buf
          else with_encoder s s.encoder

      -- The loop, on fuel; `none` is the end of the fuel.
      unfoldable pub loop : ℕ → Stream E N → Option (Round (Stream E N))
      unfolding round
      loop zero s = none
      loop (suc n) s = behind_round (loop n) (round s)

      -- `ngx_chain_add_copy`, and the bit.
      abbrev pub append_input : ℕ → List Piece → Bool × Stream E N → Option (Round (Stream E N))
      append_input fuel chain (false, s) = some (fails s)
      append_input fuel chain (true, s) =
          loop fuel (record s { input = s.input ++ chain; buffered = true })

      abbrev pub take_input : ℕ → List Piece → Stream E N → Option (Round (Stream E N))
      take_input fuel [] s = loop fuel s
      take_input fuel (p ∷ ps) s = append_input fuel (p ∷ ps) (allocate_from s s.pool)

      abbrev pub behind_header : ℕ → List Piece → Bool × Stream E N → Option (Round (Stream E N))
      behind_header fuel chain (false, s) = some (fails s)
      behind_header fuel chain (true, s) = take_input fuel chain s

      abbrev pub with_header :
          ℕ → List Piece → Stream E N → Option Dict → Option (Round (Stream E N))
      with_header fuel chain s none = take_input fuel chain s
      with_header fuel chain s (some d) =
          if s.dcb_header_sent
          then take_input fuel chain s
          else behind_header fuel chain (emit_dcb_header down d s)

      abbrev pub behind_setup : ℕ → List Piece → Bool × Stream E N → Option (Round (Stream E N))
      behind_setup fuel chain (false, s) = some (fails s)
      behind_setup fuel chain (true, s) = with_header fuel chain s s.dcb_dict

      -- A stream that is not the module's any more.
      abbrev pub pass_on : List Piece → Stream E N → Round (Stream E N)
      pass_on chain s =
          let (n, answer) = down.forward s.downstream chain in
          returns answer (record s { downstream = n; handed = s.handed ++ chain })

      -- `ngx_http_brotli_body_filter`, where the request has a context.
      unfoldable pub body_filter : ℕ → List Piece → Stream E N → Option (Round (Stream E N))
      unfolding loop ensure_stream_initialized emit_dcb_header
      body_filter fuel chain s =
          if s.closed || s.header_only
          then some (pass_on chain s)
          else behind_setup fuel chain (ensure_stream_initialized enc conf s)
