-- ===== src/Body/Sizes.antt =====
-- The measure of the main loop: what the encoder is still to be fed, then the output that waits.

use mathlib.Core.Bool.{false≢true}
use ngx_brotli.Base.{
  ℕ, suc, ◌+◌, ◌*◌, ◌<◌, ◌≤◌, ◌≡◌, Bool, true, false, not, ◌&&◌, ◌||◌, Bytes, List, [], ◌∷◌, Option,
  none, some, arith, length, if◌then◌else◌, ◌⊎◌, ◌==◌,
}
use ngx_brotli.Body.Laws.{EncoderLaws, Progress}
use ngx_brotli.Body.Rounds.{Round, continues, returns, faults}
use ngx_brotli.Body.Stream.{Piece, Encoder, Stream}

abbrev pub links_size : List Piece → ℕ
links_size [] = 0
links_size (p ∷ ps) = suc (length p.content) + links_size ps

abbrev pub open_size : Bool → ℕ
open_size true = 0
open_size false = 1

-- Output that is out counts less than output that is ready.
abbrev pub out_size : Bool → Bool → Option Piece → ℕ
out_size busy true none = 0
out_size busy true (some b) = length b.content + 2
out_size true false none = 0
out_size true false (some b) = length b.content + 1
out_size false false b = 0

-- A push that goes on handed something over.
pub out_size-pushed :
    (busy ready : Bool) (b b' : Piece)
    → length b'.content ≤ length b.content
    → (busy || ready) ≡ true
    → (not (length b'.content == 0) && (if busy then length b.content else 0) == length b'.content)
      ≡ false
    → out_size (not (length b'.content == 0)) false (some b') < out_size busy ready (some b)
out_size-pushed busy true b b' le out h = ground arith
out_size-pushed true false b b' le out h = ground arith
out_size-pushed false false b b' le out h = absurd (false≢true out)

module _ {E : Type 0} {enc : Encoder E} {decode : Option Bytes → Bytes → Option Bytes}
    (laws : EncoderLaws enc decode) (progress : Progress enc (λ e. (laws.view e).closing)) where
  abbrev pub encoder_open : Option E → ℕ
  encoder_open none = 0
  encoder_open (some e) = open_size (laws.view e).closing

  abbrev pub encoder_pending : Option E → ℕ
  encoder_pending none = 0
  encoder_pending (some e) = progress.pending e

module _ {E N : Type 0} {enc : Encoder E} {decode : Option Bytes → Bytes → Option Bytes}
    (laws : EncoderLaws enc decode) (progress : Progress enc (λ e. (laws.view e).closing)) where
  abbrev pub to_feed : Stream E N → ℕ
  to_feed s = 2 * links_size s.input + encoder_open laws progress s.encoder

  abbrev pub to_hand : Stream E N → ℕ
  to_hand s =
      4 * encoder_pending laws progress s.encoder + out_size s.output_busy s.output_ready s.out_buf

  -- A round that goes on makes the measure smaller.
  abbrev pub Shrinks : ℕ → ℕ → Round (Stream E N) → Type 0
  Shrinks feed hand (continues s) = (to_feed s < feed) ⊎ ((to_feed s ≡ feed) × (to_hand s < hand))
  Shrinks feed hand (returns answer s) = Unit
  Shrinks feed hand faults = Unit
