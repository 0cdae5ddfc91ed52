-- ===== src/Body/Stream.antt =====
-- The state of one response's stream, and what the body filter calls: the encoder of libbrotli and
-- the next body filter.
use ngx_brotli.Base.{ℕ, Bool, Bytes, List, Option}
use ngx_brotli.Dcb.{Dict}

-- A chain link's buffer: the bytes between `pos` and `last`, and its two flags.
pub record Piece : Type 0 where
  pub content : Bytes
  pub last_buf : Bool
  pub flush : Bool

-- `BrotliEncoderOperation` and `BrotliEncoderParameter`.
pub data Operation : Type 0 where
  process flushing finishing : Operation

pub data Parameter : Type 0 where
  quality lgwin size_hint : Parameter

-- The encoder, over a type of its states. `create` and `prepare` answer `none` where libbrotli
-- answers NULL. `take_output` gives all the bytes that wait, none for NULL. `compress_stream` answers
-- whether it succeeded and how many bytes of its input it consumed; the module never hands it room
-- for output.
pub record Encoder (E : Type 0) : Type 0 where
  pub create : Option E
  pub set_parameter : Parameter → ℕ → E → Bool × E
  pub attach_dictionary : Bytes → ℕ → E → Option E
  pub has_more_output : E → Bool
  pub is_finished : E → Bool
  pub take_output : E → Bytes × E
  pub compress_stream : Operation → Bytes → E → Bool × ℕ × E

-- The next filter's return code.
pub data Answer : Type 0 where
  ok again error : Answer

-- The next body filter, over a type of its states. `next` is called with the module's one link or
-- with NULL; besides its code it answers how many bytes of the module's output buffer it consumed.
-- `forward` is called with a chain that is not the module's.
pub record Downstream (N : Type 0) : Type 0 where
  pub next : N → Option Piece → N × Answer × ℕ
  pub forward : N → List Piece → N × Answer

-- `ngx_http_brotli_ctx_t`, and behind it what the filter touches of the request: the connection's
-- `buffered` bit, `header_only`, whether each later allocation succeeds, the state of the next
-- filter, and all that was handed to it, in order.
pub record Stream (E N : Type 0) : Type 0 where
  pub encoder : Option E
  pub content_length : Option ℕ
  pub bytes_in : ℕ
  pub bytes_out : ℕ
  pub input : List Piece
  pub out_chain : Bool
  pub out_buf : Option Piece
  pub initialized : Bool
  pub closed : Bool
  pub success : Bool
  pub output_ready : Bool
  pub output_busy : Bool
  pub end_of_input : Bool
  pub end_of_block : Bool
  pub dcb_header_sent : Bool
  pub dcb_dict : Option Dict
  pub buffered : Bool
  pub header_only : Bool
  pub pool : List Bool
  pub downstream : N
  pub handed : List Piece
