-- ===== src/Body/Sessions.antt =====
-- The calls of the body filter on one response, in order, with what happens in between.

use mathlib.Core.Bool.{false≢true}
use ngx_brotli.Base.{
  ℕ, ◌≡◌, refl, ap, sym, ◌∙◌, Bool, false, Bytes, List, [], ◌++◌, Option, some, drop, inl, inr, ◌⊎◌,
}
use ngx_brotli.Body.Begin.{quiet, zeroed, Hashed}
use ngx_brotli.Body.Calls.{Between, body_filter-Ended}
use ngx_brotli.Body.Laws.{EncoderLaws}
use ngx_brotli.Body.Open.{
  contents, has_last, early_last, waiting_link, waiting, core, Done, Running, Failed, Returned,
}
use ngx_brotli.Body.Rounds.{returns, body_filter}
use ngx_brotli.Body.Stream.{Piece, Encoder, Answer, ok, again, error, Downstream, Stream}
use ngx_brotli.Dcb.{Dict, Conf}

-- The states of one response's stream, from the context that the header filter leaves on: `given`
-- collects the links that the filter was called with. In between calls the next filter, the
-- allocator and the connection's bit may change, and output that is out may be written.
pub data Reached {E N : Type 0} (enc : Encoder E) (conf : Conf) (dict : Option Dict)
    (down : Downstream N) : List Piece → Stream E N → Type 0 where
  start : (s : Stream E N) → quiet s ≡ zeroed false dict → Reached enc conf dict down [] s
  meanwhile :
      {given : List Piece} {s : Stream E N}
      → Reached enc conf dict down given s
      → (n : N) (pool : List Bool) (buffered : Bool)
      → Reached enc conf dict down given
          (record s { downstream = n; pool = pool; buffered = buffered })
  written :
      {given : List Piece} {s : Stream E N}
      → Reached enc conf dict down given s
      → s.output_ready ≡ false
      → (b : Piece) (n : ℕ) → s.out_buf ≡ some b
      → Reached enc conf dict down given
          (record s { out_buf = some (record b { content = drop n b.content }) })
  called :
      {given : List Piece} {s : Stream E N}
      → Reached enc conf dict down given s
      → s.closed ≡ false
      → (fuel : ℕ) (chain : List Piece) (answer : Answer) (s' : Stream E N)
      → body_filter enc conf down fuel chain s ≡ some (returns answer s')
      → Reached enc conf dict down (given ++ chain) s'

module _ {E N : Type 0} {enc : Encoder E} {decode : Option Bytes → Bytes → Option Bytes}
    (laws : EncoderLaws enc decode) (conf : Conf) (dict : Option Dict) where
  abbrev pub Settled : List Piece → Stream E N → Type 0
  Settled given s =
      Between laws conf dict given s
      ⊎ (Done laws conf dict given (core s) ⊎ Failed laws conf dict (core s))

  written-Open :
      (given : List Piece) (s : Stream E N) (b : Piece)
      → s.output_ready ≡ false
      → Running laws conf dict given (core s)
      → Running laws conf dict given (core (record s { out_buf = some b }))
  written-Open given s b unready o = record {
    e = o.e;
    has_encoder = o.has_encoder;
    b = b;
    has_buf = refl;
    initialized = o.initialized;
    running = o.running;
    has_body = o.has_body;
    unfinished = o.unfinished;
    header_sent = o.header_sent;
    same_dict = o.same_dict;
    flows_out =
        ap (λ ready. contents s.handed ++ waiting ready b) unready
        ∙ ap (λ ready. contents s.handed ++ waiting ready o.b) (sym unready)
        ∙ o.flows_out;
    flows_in = o.flows_in;
    last_in = o.last_in;
    marked =
        ap (λ ready. has_last (s.handed ++ waiting_link ready b)) unready
        ∙ ap (λ ready. has_last (s.handed ++ waiting_link ready o.b)) (sym unready)
        ∙ o.marked;
    in_order =
        ap (λ ready. early_last (s.handed ++ waiting_link ready b)) unready
        ∙ ap (λ ready. early_last (s.handed ++ waiting_link ready o.b)) (sym unready)
        ∙ o.in_order;
    closes = o.closes;
    counts_in = o.counts_in;
    counts_out = o.counts_out;
    capped = o.capped;
    dictionary = o.dictionary;
  }

  written-Settled :
      (given : List Piece) (s : Stream E N) (b : Piece)
      → s.output_ready ≡ false
      → Settled given s
      → Settled given (record s { out_buf = some b })
  written-Settled given s b unready (inl (inl k)) = inl (inl k)
  written-Settled given s b unready (inl (inr o)) = inl (inr (written-Open given s b unready o))
  written-Settled given s b unready (inr (inl d)) = inr (
      inl (record {
        closed = d.closed;
        success = d.success;
        coding = d.coding;
        handed = d.handed;
        marked = d.marked;
        in_order = d.in_order;
        decodes = d.decodes;
        counts_in = d.counts_in;
        counts_out = d.counts_out;
        capped = d.capped;
      }))
  written-Settled given s b unready (inr (inr f)) = inr (inr f)

  pub still-Between :
      (given : List Piece) (s : Stream E N)
      → s.closed ≡ false
      → Settled given s
      → Between laws conf dict given s
  still-Between given s running (inl k) = k
  still-Between given s running (inr (inl d)) = absurd (false≢true (sym running ∙ d.closed))
  still-Between given s running (inr (inr f)) = absurd (false≢true (sym running ∙ f.0))

  Returned-Settled :
      (given : List Piece) (answer : Answer) (s : Stream E N)
      → Returned laws conf dict given answer s
      → Settled given s
  Returned-Settled given ok s (inl w) = inl (inr w.0)
  Returned-Settled given ok s (inr d) = inr (inl d)
  Returned-Settled given again s w = inl (inr w.0)
  Returned-Settled given error s f = inr (inr f)

  module _ (down : Downstream N) where
    pub Reached-Settled :
        {given : List Piece} {s : Stream E N}
        → Hashed dict
        → Reached enc conf dict down given s
        → Settled given s
    Reached-Settled hashed (start s q) = inl (inl (refl, q))
    Reached-Settled hashed (meanwhile {given} {s} k n pool buffered) =
        elim (Reached-Settled hashed k) [
          | inl (inl x) ↦ inl (inl x)
          | inl (inr o) ↦ inl (inr o)
          | inr x ↦ inr x
        ]
    Reached-Settled hashed (written {given} {s} k unready b n h) =
        written-Settled given s (record b { content = drop n b.content }) unready
          (Reached-Settled hashed k)
    Reached-Settled hashed (called {given} {s} k running fuel chain answer s' h) =
        Returned-Settled (given ++ chain) answer s' (
          body_filter-Ended laws conf dict down fuel given chain s (returns answer s') hashed
            (still-Between given s running (Reached-Settled hashed k)) h)
