-- ===== src/Body/Turns.antt =====
-- The invariant across a whole round of the main loop, and across the loop.
use mathlib.Core.Option.{some-injective, none-ne-some}
use ngx_brotli.Base.{
  u64, if_cases, or_false, ℕ, zero, suc, ◌≡◌, refl, ap, sym, subst, ◌∙◌, Bool, true, false, ◌||◌,
  Bytes, List, [], ◌++◌, Option, none, some, length, append-nil, if◌then◌else◌, inr,
}
use ngx_brotli.Body.Feeds.{leftover-Kept}
use ngx_brotli.Body.Intake.{feed-Kept}
use ngx_brotli.Body.Joins.{}
use ngx_brotli.Body.Keeps.{nothing_waits, push_output-Kept, wrap-Kept}
use ngx_brotli.Body.Laws.{EncoderLaws}
use ngx_brotli.Body.Open.{
  body_bytes, has_last, waiting_link, early_last, frame, has_dict, dict_bytes, to_come, core, Done,
  Running, Kept, Ended,
}
use ngx_brotli.Body.Rounds.{
  Round, continues, returns, faults, leftover, feed, with_encoder, round, loop, wrap, push_output,
  behind_round,
}
use ngx_brotli.Body.Setup.{close}
use ngx_brotli.Body.Stream.{Piece, finishing, Encoder, ok, Downstream, Stream}
use ngx_brotli.Dcb.{Dict, Conf}

frame_sent : (d : Option Dict) → frame (has_dict d) d ≡ frame true d
frame_sent none = refl
frame_sent (some d) = refl

module _ {E N : Type 0} {enc : Encoder E} {decode : Option Bytes → Bytes → Option Bytes}
    (laws : EncoderLaws enc decode) (conf : Conf) (dict : Option Dict) where
  -- The encoder is finished and has no more output: the response is complete.
  finish-Done :
      (given : List Piece) (s : Stream E N) (o : Running laws conf dict given (core s))
      → s.output_ready ≡ false
      → enc.has_more_output o.e ≡ false
      → enc.is_finished o.e ≡ true
      → Done laws conf dict given (core (close (record s { success = true; buffered = false })))
  finish-Done given s o ready more finished =
      let v = laws.view o.e in
      let eoi = o.closes (laws.finished o.e finished) in
      let whole : body_bytes given ≡ v.consumed =
        ap body_bytes (sym (append-nil given))
        ∙ o.flows_in []
        ∙ ap (λ eoi. v.consumed ++ to_come eoi (s.input ++ [])) eoi
        ∙ append-nil v.consumed in
      let unready : (f : List Piece → Bool)
          → f s.handed ≡ f (s.handed ++ waiting_link s.output_ready o.b) =
        λ f.
          sym (ap f (append-nil s.handed))
          ∙ ap (λ ready. f (s.handed ++ waiting_link ready o.b)) (sym ready) in
      let out = nothing_waits laws conf dict given (has_dict s.dcb_dict) s o ready in
      record {
        closed = refl;
        success = refl;
        coding = v.taken;
        handed = out ∙ ap (λ f. f ++ v.taken) (frame_sent s.dcb_dict ∙ ap (frame true) o.same_dict);
        marked = unready has_last ∙ o.marked ∙ rw (finished, more) refl;
        in_order = unready early_last ∙ o.in_order;
        decodes =
            ap (λ d. decode d v.taken) (sym (o.dictionary ∙ ap dict_bytes o.same_dict))
            ∙ laws.decodes o.e finished more
            ∙ ap some (sym whole);
        counts_in = o.counts_in ∙ ap (λ c. u64 (length c)) (sym whole);
        counts_out = o.counts_out ∙ ap (λ c. u64 (length c)) (sym out);
        capped = o.capped;
      }

  -- A round where no output is out.
  turn-Kept :
      (given : List Piece) (s : Stream E N) (o : Running laws conf dict given (core s))
      → s.output_ready ≡ false
      → Kept laws conf dict given (with_encoder enc conf s (some o.e))
  turn-Kept given s o ready =
      let finished = returns ok (close (record s { success = true; buffered = false })) in
      let asked = leftover enc conf s (enc.compress_stream finishing [] o.e) in
      let input = feed enc conf s o.e s.input in
      if_cases (Kept laws conf dict given) (enc.has_more_output o.e)
        (wrap enc conf s s.out_buf (enc.take_output o.e))
        (if enc.is_finished o.e then finished else if s.end_of_input then asked else input)
        (λ more.
          wrap-Kept laws conf dict given s s.out_buf (enc.take_output o.e) ready refl o refl more)
        (λ more.
          if_cases (Kept laws conf dict given) (enc.is_finished o.e) finished
            (if s.end_of_input then asked else input)
            (λ finished. inr (finish-Done given s o ready more finished))
            (λ unfinished.
              if_cases (Kept laws conf dict given) s.end_of_input asked input
                (λ eoi.
                  leftover-Kept laws conf dict given s o (enc.compress_stream finishing [] o.e) eoi
                    refl unfinished)
                (λ eoi. feed-Kept laws conf dict given s o s.input refl eoi unfinished)))

  pub round-Kept :
      (down : Downstream N) (given : List Piece) (s : Stream E N)
      → Running laws conf dict given (core s)
      → Kept laws conf dict given (round enc conf down s)
  unfolding round
  round-Kept down given s o =
      if_cases (Kept laws conf dict given) (s.output_busy || s.output_ready)
        (push_output down s s.out_buf) (with_encoder enc conf s s.encoder)
        (λ _. push_output-Kept laws conf dict down given s s.out_buf refl o)
        (λ idle.
          subst (λ x. Kept laws conf dict given (with_encoder enc conf s x)) (sym o.has_encoder)
            (turn-Kept given s o (or_false s.output_busy s.output_ready idle).1))

  behind_round-Ended :
      (given : List Piece) (next : Stream E N → Option (Round (Stream E N)))
      (x r : Round (Stream E N))
      → ((s : Stream E N)
          → Running laws conf dict given (core s)
          → next s ≡ some r
          → Ended laws conf dict given r)
      → Kept laws conf dict given x
      → behind_round next x ≡ some r
      → Ended laws conf dict given r
  behind_round-Ended given next (continues s) r ih k h = ih s k h
  behind_round-Ended given next (returns answer s) r ih k h =
      subst (Ended laws conf dict given) (some-injective (returns answer s) r h) k
  behind_round-Ended given next faults r ih k h = absurd k

  pub loop-Ended :
      (down : Downstream N) (given : List Piece) (fuel : ℕ) (s : Stream E N)
      (r : Round (Stream E N))
      → Running laws conf dict given (core s)
      → loop enc conf down fuel s ≡ some r
      → Ended laws conf dict given r
  unfolding loop
  loop-Ended down given zero s r o h = absurd (none-ne-some r h)
  loop-Ended down given (suc n) s r o h =
      behind_round-Ended given (loop enc conf down n) (round enc conf down s) r
        (λ s' o'. loop-Ended down given n s' r o') (round-Kept down given s o) h
