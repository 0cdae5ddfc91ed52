-- ===== src/Body/Ends.antt =====
-- The fuel of the main loop, and of a call of the body filter.
use ngx_brotli.Base.{
  ℕ, zero, suc, ◌<◌, ◌≡◌, refl, Bool, true, false, Bytes, List, [], ◌∷◌, ◌++◌, Option, none, some,
  arith, if◌then◌else◌, ◌||◌, ◌++◌, inl, inr, ◌⊎◌,
}
use ngx_brotli.Body.Laws.{EncoderLaws, Progress}
use ngx_brotli.Body.Rounds.{
  Round, continues, returns, faults, fails, behind_round, round, loop, append_input, take_input,
  behind_header, with_header, behind_setup, pass_on, body_filter,
}
use ngx_brotli.Body.Setup.{ensure_stream_initialized, emit_dcb_header, allocate_from}
use ngx_brotli.Body.Shrinks.{round-Shrinks}
use ngx_brotli.Body.Sizes.{to_feed, to_hand, Shrinks}
use ngx_brotli.Body.Stream.{Piece, Encoder, Downstream, Stream}
use ngx_brotli.Dcb.{Dict, Conf}

module _ {E N : Type 0} {enc : Encoder E} {decode : Option Bytes → Bytes → Option Bytes}
    (laws : EncoderLaws enc decode) (progress : Progress enc (λ e. (laws.view e).closing))
    (conf : Conf) (down : Downstream N) where
  -- Some fuel is enough.
  abbrev Answers : (ℕ → Option (Round (Stream E N))) → Type 0
  Answers run = (fuel : ℕ) × (r : Round (Stream E N)) × (run fuel ≡ some r)

  round-Answers :
      (feed hand : ℕ) (x : Round (Stream E N))
      → Shrinks laws progress feed hand x
      → ((s : Stream E N)
          → (to_feed laws progress s < feed)
            ⊎ ((to_feed laws progress s ≡ feed) × (to_hand laws progress s < hand))
          → Answers (λ fuel. loop enc conf down fuel s))
      → Answers (λ fuel. behind_round (loop enc conf down fuel) x)
  round-Answers feed hand (continues s) less ih = ih s less
  round-Answers feed hand (returns answer s) less ih = (0, returns answer s, refl)
  round-Answers feed hand faults less ih = (0, faults, refl)

  -- By the measure, in its order: `feed` bounds what is to be fed, `hand` what is to be handed over.
  loop_below :
      (feed hand : ℕ) (s : Stream E N)
      → to_feed laws progress s < feed
      → to_hand laws progress s < hand
      → Answers (λ fuel. loop enc conf down fuel s)
  unfolding loop
  loop_below zero hand s f h = absurd (omega (arith, f))
  loop_below (suc feed) zero s f h = absurd (omega (arith, h))
  loop_below (suc feed) (suc hand) s f h =
      let found =
        round-Answers (to_feed laws progress s) (to_hand laws progress s) (round enc conf down s)
          (round-Shrinks laws progress conf down s)
          (λ s' less. elim less [
            | inl fed ↦
                loop_below feed (suc (to_hand laws progress s')) s' (omega (arith, f, fed))
                  (omega arith)
            | inr (same, handed) ↦
                loop_below (suc feed) hand s' (omega (arith, f, same)) (omega (arith, h, handed))
          ]) in
      (suc found.0, found.1, found.2)

  -- The loop of every stream returns.
  loop_ends : (s : Stream E N) → Answers (λ fuel. loop enc conf down fuel s)
  loop_ends s =
      loop_below (suc (to_feed laws progress s)) (suc (to_hand laws progress s)) s (omega arith)
        (omega arith)

  failed_ends : (r : Round (Stream E N)) → Answers (λ fuel. some r)
  failed_ends r = (0, r, refl)

  if_ends :
      (b : Bool) {x y : ℕ → Option (Round (Stream E N))}
      → Answers x
      → Answers y
      → Answers (λ fuel. if b then x fuel else y fuel)
  if_ends true hx hy = hx
  if_ends false hx hy = hy

  append_input_ends :
      (chain : List Piece) (x : Bool × Stream E N)
      → Answers (λ fuel. append_input enc conf down fuel chain x)
  append_input_ends chain (false, s) = failed_ends (fails s)
  append_input_ends chain (true, s) =
      loop_ends (record s { input = s.input ++ chain; buffered = true })

  take_input_ends :
      (chain : List Piece) (s : Stream E N)
      → Answers (λ fuel. take_input enc conf down fuel chain s)
  take_input_ends [] s = loop_ends s
  take_input_ends (p ∷ ps) s = append_input_ends (p ∷ ps) (allocate_from s s.pool)

  behind_header_ends :
      (chain : List Piece) (x : Bool × Stream E N)
      → Answers (λ fuel. behind_header enc conf down fuel chain x)
  behind_header_ends chain (false, s) = failed_ends (fails s)
  behind_header_ends chain (true, s) = take_input_ends chain s

  with_header_ends :
      (chain : List Piece) (s : Stream E N) (d : Option Dict)
      → Answers (λ fuel. with_header enc conf down fuel chain s d)
  with_header_ends chain s none = take_input_ends chain s
  with_header_ends chain s (some d) =
      if_ends s.dcb_header_sent (take_input_ends chain s)
        (behind_header_ends chain (emit_dcb_header down d s))

  behind_setup_ends :
      (chain : List Piece) (x : Bool × Stream E N)
      → Answers (λ fuel. behind_setup enc conf down fuel chain x)
  behind_setup_ends chain (false, s) = failed_ends (fails s)
  behind_setup_ends chain (true, s) = with_header_ends chain s s.dcb_dict

  pub body_filter_total :
      (chain : List Piece) (s : Stream E N)
      → (fuel : ℕ) × (r : Round (Stream E N)) × (body_filter enc conf down fuel chain s ≡ some r)
  unfolding body_filter
  body_filter_total chain s =
      if_ends (s.closed || s.header_only) (failed_ends (pass_on enc conf down chain s))
        (behind_setup_ends chain (ensure_stream_initialized enc conf s))
