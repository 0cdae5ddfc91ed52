-- ===== src/Body/Complete.antt =====
-- What the body filter promises for a whole response, over every sequence of calls.
use mathlib.Core.Bool.{false≢true}
use ngx_brotli.Base.{
  arith, u64, length, length-append, ◌<◌, ◌≤◌, ◌^◌, subst, ℕ, ◌≡◌, ap, sym, ◌∙◌, true, false, ◌||◌,
  Bytes, List, [], ◌++◌, Option, some, append-nil, inl, inr, ◌⊎◌,
}
use ngx_brotli.Body.Begin.{Quiet, Hashed}
use ngx_brotli.Body.Calls.{body_filter-Ended}
use ngx_brotli.Body.Ends.{body_filter_total}
use ngx_brotli.Body.Laws.{EncoderLaws, Progress}
use ngx_brotli.Body.Open.{Capped, body_bytes, to_come, has_last, core, Done, Returned, Ended}
use ngx_brotli.Body.Rounds.{Round, continues, returns, faults, body_filter}
use ngx_brotli.Body.Sessions.{Reached, Settled, Reached-Settled, still-Between}
use ngx_brotli.Body.Stream.{Piece, Encoder, Answer, ok, Downstream, Stream}
use ngx_brotli.Dcb.{Dict, Conf}

module _ {E N : Type 0} {enc : Encoder E} {decode : Option Bytes → Bytes → Option Bytes}
    (laws : EncoderLaws enc decode) (conf : Conf) (dict : Option Dict) (down : Downstream N) where
  Settled-Done :
      (given : List Piece) (s : Stream E N)
      → s.success ≡ true
      → Settled laws conf dict given s
      → Done laws conf dict given (core s)
  Settled-Done given s h (inl (inl (none_given, q))) =
      absurd (false≢true (sym (ap (λ (q : Quiet). q.success) q) ∙ h))
  Settled-Done given s h (inl (inr o)) = absurd (false≢true (sym o.unfinished ∙ h))
  Settled-Done given s h (inr (inl d)) = d
  Settled-Done given s h (inr (inr f)) = absurd (false≢true (sym f.1 ∙ h))

  -- Over every sequence of calls, and whatever the next filter and the allocator do in between, a
  -- stream that succeeded is complete, if the hash of a dictionary is 32 bytes long and the encoder
  -- keeps its laws: it is closed, the bytes handed over are the frame header of the dictionary, if
  -- there is one, and a coding that decodes with that dictionary to the response's body, the final
  -- link and no other is marked last, the counters are the sizes of both modulo 2 ^ 64, and the
  -- counted input is at most brotli_max_length, if that is set, or has reached 2 ^ 63.
  pub Reached-Done :
      {given : List Piece} {s : Stream E N}
      → Hashed dict
      → Reached enc conf dict down given s
      → s.success ≡ true
      → Done laws conf dict given (core s)
  Reached-Done {given} {s} hashed k h =
      Settled-Done given s h (Reached-Settled laws conf dict down hashed k)

  -- A counter of a consumed part of the body.
  counted_part :
      (given : List Piece) (max_length bytes_in : ℕ) (consumed rest : Bytes)
      → Capped (some max_length) bytes_in
      → bytes_in ≡ u64 (length consumed)
      → body_bytes given ≡ consumed ++ rest
      → length (body_bytes given) < 2 ^ 63
      → bytes_in ≤ max_length
  counted_part given max_length bytes_in consumed rest (inl under) count flows small = under
  counted_part given max_length bytes_in consumed rest (inr left) count flows small =
      absurd (omega (arith, left, count, ap length flows, length-append consumed rest, small))

  limit_subst :
      (cap : Option ℕ) (max_length bytes_in : ℕ)
      → cap ≡ some max_length
      → Capped cap bytes_in
      → Capped (some max_length) bytes_in
  limit_subst cap max_length bytes_in h = subst (λ cap. Capped cap bytes_in) h

  Settled-max_length :
      (given : List Piece) (s : Stream E N) (max_length : ℕ)
      → conf.max_length ≡ some max_length
      → length (body_bytes given) < 2 ^ 63
      → Settled laws conf dict given s
      → ((s.closed ≡ true) × (s.success ≡ false)) ⊎ (s.bytes_in ≤ max_length)
  Settled-max_length given s max_length limit small (inl (inl (none_given, q))) =
      inr (omega (arith, ap (λ (q : Quiet). q.bytes_in) q))
  Settled-max_length given s max_length limit small (inl (inr o)) = inr (
      counted_part given max_length s.bytes_in (laws.view o.e).consumed
        (to_come s.end_of_input (s.input ++ []))
        (limit_subst conf.max_length max_length s.bytes_in limit o.capped) o.counts_in
        (ap body_bytes (sym (append-nil given)) ∙ o.flows_in []) small)
  Settled-max_length given s max_length limit small (inr (inl d)) = inr (
      counted_part given max_length s.bytes_in (body_bytes given) []
        (limit_subst conf.max_length max_length s.bytes_in limit d.capped) d.counts_in
        (sym (append-nil (body_bytes given))) small)
  Settled-max_length given s max_length limit small (inr (inr f)) = inl f

  -- Over every sequence of calls the counted input of a stream is at most brotli_max_length, or the
  -- stream has failed and is closed, if that limit is set, the links given hold fewer than 2 ^ 63
  -- bytes of body, the encoder keeps its laws and the hash of a dictionary is 32 bytes long.
  pub Reached-max_length :
      {given : List Piece} {s : Stream E N} (max_length : ℕ)
      → Hashed dict
      → Reached enc conf dict down given s
      → conf.max_length ≡ some max_length
      → length (body_bytes given) < 2 ^ 63
      → ((s.closed ≡ true) × (s.success ≡ false)) ⊎ (s.bytes_in ≤ max_length)
  Reached-max_length {given} {s} max_length hashed k limit small =
      Settled-max_length given s max_length limit small
        (Reached-Settled laws conf dict down hashed k)

  Returned-Done :
      (given : List Piece) (s : Stream E N)
      → has_last given ≡ true
      → Returned laws conf dict given ok s
      → Done laws conf dict given (core s)
  Returned-Done given s last (inr d) = d
  Returned-Done given s last (inl (o, empty, waits)) = absurd (
      false≢true (
        ap (λ b. b || has_last ([] ++ [])) (sym waits)
        ∙ ap (λ ps. s.end_of_input || has_last (ps ++ [])) (sym empty)
        ∙ sym (o.last_in [])
        ∙ ap has_last (append-nil given)
        ∙ last))

  -- Once the last link of the response was given, a call on an open stream that answers NGX_OK has
  -- completed the response, if the encoder keeps its laws and the hash of a dictionary is 32 bytes
  -- long.
  pub called_last-Done :
      {given : List Piece} {s : Stream E N}
      → Hashed dict
      → Reached enc conf dict down given s
      → s.closed ≡ false
      → (fuel : ℕ) (chain : List Piece) (s' : Stream E N) → has_last (given ++ chain) ≡ true
      → body_filter enc conf down fuel chain s ≡ some (returns ok s')
      → Done laws conf dict (given ++ chain) (core s')
  called_last-Done {given} {s} hashed k running fuel chain s' last h =
      Returned-Done (given ++ chain) s' last (
        body_filter-Ended laws conf dict down fuel given chain s (returns ok s') hashed
          (still-Between laws conf dict given s running
            (Reached-Settled laws conf dict down hashed k))
          h)

  -- What a call returns.
  abbrev Returns : Option (Round (Stream E N)) → List Piece → Type 0
  Returns run given =
      (answer : Answer) × (s' : Stream E N) × (run ≡ some (returns answer s'))
      × Returned laws conf dict given answer s'

  Ended-Returns :
      (given : List Piece) (run : Option (Round (Stream E N))) (r : Round (Stream E N))
      → run ≡ some r
      → Ended laws conf dict given r
      → Returns run given
  Ended-Returns given run (continues s) h k = absurd k
  Ended-Returns given run (returns answer s) h k = (answer, s, h, k)
  Ended-Returns given run faults h k = absurd k

  -- Every call on an open stream returns, if the encoder keeps its laws and makes progress and the
  -- hash of a dictionary is 32 bytes long: with NGX_OK where the stream is complete, or is running and
  -- has taken in all input; with NGX_AGAIN where it is running and its output is held up; and with
  -- NGX_ERROR where it is closed without success. It reads no NULL pointer.
  pub called_total :
      {given : List Piece} {s : Stream E N}
      → Progress enc (λ e. (laws.view e).closing)
      → Hashed dict
      → Reached enc conf dict down given s
      → s.closed ≡ false
      → (chain : List Piece)
      → (fuel : ℕ) × (answer : Answer) × (s' : Stream E N) × (body_filter enc conf down fuel chain s
          ≡ some (returns answer s'))
        × Returned laws conf dict (given ++ chain) answer s'
  called_total {given} {s} progress hashed k running chain =
      let found = body_filter_total laws progress conf down chain s in
      let run = body_filter enc conf down found.0 chain s in
      let ended =
        body_filter-Ended laws conf dict down found.0 given chain s found.1 hashed
          (still-Between laws conf dict given s running
            (Reached-Settled laws conf dict down hashed k))
          found.2 in
      let r = Ended-Returns (given ++ chain) run found.1 found.2 ended in
      (found.0, r.0, r.1, r.2, r.3)
