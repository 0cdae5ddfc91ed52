-- ===== src/Body/Calls.antt =====
-- The invariant across a call of the body filter.
use mathlib.Core.Bool.{false≢true}
use ngx_brotli.Base.{
  if_cases, ℕ, ◌≡◌, refl, ap, sym, subst, ◌∙◌, true, false, Bytes, List, [], ◌++◌, Option, none,
  some, inl, inr, ◌⊎◌,
}
use ngx_brotli.Body.Begin.{Quiet, quiet, zeroed, Hashed, ensure_stream_initialized-Started}
use ngx_brotli.Body.Header.{Started-Ended}
use ngx_brotli.Body.Inputs.{take_input-Ended}
use ngx_brotli.Body.Laws.{EncoderLaws}
use ngx_brotli.Body.Open.{has_dict, core, Running, Ended}
use ngx_brotli.Body.Rounds.{
  Round, take_input, behind_header, with_header, behind_setup, body_filter,
}
use ngx_brotli.Body.Setup.{ensure_stream_initialized, emit_dcb_header}
use ngx_brotli.Body.Stream.{Piece, Encoder, Downstream, Stream}
use ngx_brotli.Dcb.{Dict, Conf}

ensure_running :
    {E N : Type 0} (enc : Encoder E) (conf : Conf) (s : Stream E N)
    → s.initialized ≡ true
    → ensure_stream_initialized enc conf s ≡ (true, s)
unfolding ensure_stream_initialized
ensure_running enc conf s h = rw (h) refl

module _ {E N : Type 0} {enc : Encoder E} {decode : Option Bytes → Bytes → Option Bytes}
    (laws : EncoderLaws enc decode) (conf : Conf) (dict : Option Dict) where
  -- A later call finds the header sent.
  later_header-Ended :
      (down : Downstream N) (fuel : ℕ) (given chain : List Piece) (s : Stream E N) (x : Option Dict)
      (r : Round (Stream E N))
      → s.dcb_dict ≡ x
      → Running laws conf dict given (core s)
      → with_header enc conf down fuel chain s x ≡ some r
      → Ended laws conf dict (given ++ chain) r
  later_header-Ended down fuel given chain s none r e o h =
      take_input-Ended laws conf dict down fuel given chain s r o h
  later_header-Ended down fuel given chain s (some d) r e o h =
      if_cases (λ y. y ≡ some r → Ended laws conf dict (given ++ chain) r) s.dcb_header_sent
        (take_input enc conf down fuel chain s)
        (behind_header enc conf down fuel chain (emit_dcb_header down d s))
        (λ _. take_input-Ended laws conf dict down fuel given chain s r o)
        (λ unsent. absurd (false≢true (sym unsent ∙ o.header_sent ∙ ap has_dict e))) h

  -- A stream whose context is as the header filter leaves it, or that is running.
  abbrev pub Between : List Piece → Stream E N → Type 0
  Between given s =
      ((given ≡ []) × (quiet s ≡ zeroed false dict)) ⊎ Running laws conf dict given (core s)

  Between-closed : (given : List Piece) (s : Stream E N) → Between given s → s.closed ≡ false
  Between-closed given s (inl (none_given, q)) = ap (λ (q : Quiet). q.closed) q
  Between-closed given s (inr o) = o.running

  behind_setup-Ended :
      (down : Downstream N) (fuel : ℕ) (given chain : List Piece) (s : Stream E N)
      (r : Round (Stream E N))
      → Hashed dict
      → Between given s
      → behind_setup enc conf down fuel chain (ensure_stream_initialized enc conf s) ≡ some r
      → Ended laws conf dict (given ++ chain) r
  unfolding ensure_stream_initialized
  behind_setup-Ended down fuel given chain s r hashed (inl (none_given, q)) h =
      subst (λ given. Ended laws conf dict (given ++ chain) r) (sym none_given)
        (Started-Ended laws conf dict down fuel chain (ensure_stream_initialized enc conf s) r
          hashed (ensure_stream_initialized-Started laws conf dict s q) h)
  behind_setup-Ended down fuel given chain s r hashed (inr o) h =
      later_header-Ended down fuel given chain s s.dcb_dict r refl o (
        sym (ap (behind_setup enc conf down fuel chain) (ensure_running enc conf s o.initialized))
        ∙ h)

  Between-header_only :
      (given : List Piece) (s : Stream E N) → Between given s → s.header_only ≡ false
  Between-header_only given s (inl (none_given, q)) = ap (λ (q : Quiet). q.header_only) q
  Between-header_only given s (inr o) = o.has_body

  pub body_filter-Ended :
      (down : Downstream N) (fuel : ℕ) (given chain : List Piece) (s : Stream E N)
      (r : Round (Stream E N))
      → Hashed dict
      → Between given s
      → body_filter enc conf down fuel chain s ≡ some r
      → Ended laws conf dict (given ++ chain) r
  unfolding body_filter
  body_filter-Ended down fuel given chain s r hashed k h =
      behind_setup-Ended down fuel given chain s r hashed k
        (sym (rw (Between-closed given s k, Between-header_only given s k) refl) ∙ h)
