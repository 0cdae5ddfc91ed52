-- ===== src/Body/Setup.antt =====
-- `ngx_http_brotli_filter_ensure_stream_initialized`, `ngx_http_brotli_emit_dcb_header` and
-- `ngx_http_brotli_filter_close`.
use ngx_brotli.Base.{
  u64, ℕ, ◌+◌, ◌-◌, ◌^◌, Bool, true, false, List, [], ◌∷◌, ◌++◌, Option, none, some, ltb,
  if◌then◌else◌,
}
use ngx_brotli.Body.Stream.{
  Piece, quality, lgwin, size_hint, Encoder, Answer, ok, again, error, Downstream, Stream,
}
use ngx_brotli.Dcb.{Dict, Conf, dcb_frame_header}
use ngx_brotli.Window.{window_bits}

abbrev pub empty_piece : Piece
empty_piece = record { content = []; last_buf = false; flush = false }

-- The hint is capped at 0xffffffff.
abbrev pub hint_of : ℕ → ℕ
hint_of n = if ltb (2 ^ 32 - 1) n then 2 ^ 32 - 1 else n

-- The hint for a known length; a refusal is only logged.
abbrev pub with_hint : {E : Type 0} → Encoder E → E → Option ℕ → E
with_hint enc e none = e
with_hint enc e (some n) = if ltb 0 n then (enc.set_parameter size_hint (hint_of n) e).1 else e

abbrev pub header_piece : Dict → Piece
header_piece d = record { content = dcb_frame_header d; last_buf = false; flush = false }

module _ {E N : Type 0} where
  -- `ngx_http_brotli_filter_close`.
  abbrev pub close : Stream E N → Stream E N
  close s = record s { closed = true; encoder = none; out_chain = false; out_buf = none }

  abbrev pub allocate_from : Stream E N → List Bool → Bool × Stream E N
  allocate_from s [] = (false, s)
  allocate_from s (answer ∷ pool) = (answer, record s { pool = pool })

  -- The two allocations behind the encoder: the buffer, then its link.
  abbrev pub with_link : Bool × Stream E N → Bool × Stream E N
  with_link (false, s) = (false, s)
  with_link (true, s) = (true, record s { out_chain = true })

  abbrev pub with_out_buf : Bool × Stream E N → Bool × Stream E N
  with_out_buf (false, s) = (false, s)
  with_out_buf (true, s) =
      let s' = record s { out_buf = some empty_piece } in with_link (allocate_from s' s'.pool)

  module _ (enc : Encoder E) (conf : Conf) where
    abbrev pub set_encoder : E → Stream E N → Stream E N
    set_encoder e s = record s { encoder = some e }

    -- The dictionary: it is prepared and attached, or the stream fails.
    abbrev pub attached : E → Stream E N → Option E → Bool × Stream E N
    attached e s none = (false, set_encoder e s)
    attached e s (some e') = let s' = set_encoder e' s in with_out_buf (allocate_from s' s'.pool)

    abbrev pub with_dictionary : E → Stream E N → Option Dict → Bool × Stream E N
    with_dictionary e s none = attached e s (some e)
    with_dictionary e s (some d) = attached e s (enc.attach_dictionary d.bytes conf.quality e)

    abbrev pub with_lgwin : Stream E N → Bool × E → Bool × Stream E N
    with_lgwin s (false, e) = (false, set_encoder e s)
    with_lgwin s (true, e) = with_dictionary (with_hint enc e s.content_length) s s.dcb_dict

    abbrev pub with_quality : Stream E N → Bool × E → Bool × Stream E N
    with_quality s (false, e) = (false, set_encoder e s)
    with_quality s (true, e) =
        with_lgwin s (enc.set_parameter lgwin (window_bits conf.lg_win s.content_length) e)

    abbrev pub set_up_encoder : Stream E N → Option E → Bool × Stream E N
    set_up_encoder s none = (false, record s { encoder = none })
    set_up_encoder s (some e) = with_quality s (enc.set_parameter quality conf.quality e)

    -- `ngx_http_brotli_filter_ensure_stream_initialized`; false is NGX_ERROR.
    unfoldable pub ensure_stream_initialized : Stream E N → Bool × Stream E N
    unfolding window_bits
    ensure_stream_initialized s =
        if s.initialized
        then (true, s)
        else set_up_encoder (record s { initialized = true }) enc.create

  module _ (down : Downstream N) where
    -- Behind the call of the next filter: the header counts as sent, unless the call failed.
    abbrev pub header_answered : Stream E N → Answer → Bool × Stream E N
    header_answered s error = (false, s)
    header_answered s ok =
        (true, record s { bytes_out = u64 (s.bytes_out + 36); dcb_header_sent = true })
    header_answered s again =
        (true, record s { bytes_out = u64 (s.bytes_out + 36); dcb_header_sent = true })

    abbrev pub hand_header : Dict → Bool × Stream E N → Bool × Stream E N
    hand_header d (false, s) = (false, s)
    hand_header d (true, s) =
        let (n, answer, consumed) = down.next s.downstream (some (header_piece d)) in
        header_answered (record s { downstream = n; handed = s.handed ++ header_piece d ∷ [] })
          answer

    -- `ngx_http_brotli_emit_dcb_header`; false is NGX_ERROR.
    unfoldable pub emit_dcb_header : Dict → Stream E N → Bool × Stream E N
    emit_dcb_header d s = hand_header d (allocate_from s s.pool)
