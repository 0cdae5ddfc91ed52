-- ===== src/Body/Open.antt =====
-- The invariant of a stream that is being compressed.
use ngx_brotli.Base.{
  u64, arith, ℕ, ◌^◌, ◌≤◌, ◌≡◌, Bool, true, false, not, ◌&&◌, ◌||◌, Bytes, List, [], ◌∷◌, ◌++◌,
  Option, none, some, length, if◌then◌else◌, ◌⊎◌,
}
use ngx_brotli.Body.Laws.{EncoderLaws}
use ngx_brotli.Body.Rounds.{Round, continues, returns, faults, over_cap}
use ngx_brotli.Body.Stream.{Piece, Encoder, Answer, ok, again, error, Stream}
use ngx_brotli.Dcb.{Dict, Conf, dcb_frame_header}

-- The bytes of a chain.
abbrev pub contents : List Piece → Bytes
contents [] = []
contents (p ∷ ps) = p.content ++ contents ps

-- The response's body: the bytes up to the end of the first link that is marked last.
abbrev pub body_bytes : List Piece → Bytes
body_bytes [] = []
body_bytes (p ∷ ps) = if p.last_buf then p.content else p.content ++ body_bytes ps

abbrev pub has_last : List Piece → Bool
has_last [] = false
has_last (p ∷ ps) = p.last_buf || has_last ps

-- The frame header of RFC 9842, once it is sent.
abbrev pub frame : Bool → Option Dict → Bytes
frame false dict = []
frame true none = []
frame true (some d) = dcb_frame_header d

abbrev pub has_dict : Option Dict → Bool
has_dict none = false
has_dict (some d) = true

abbrev pub dict_bytes : Option Dict → Option Bytes
dict_bytes none = none
dict_bytes (some d) = some d.bytes

-- Output that is wrapped and not handed over yet.
abbrev pub waiting : Bool → Piece → Bytes
waiting false b = []
waiting true b = b.content

abbrev pub waiting_link : Bool → Piece → List Piece
waiting_link false b = []
waiting_link true b = b ∷ []

-- A link in front of another one is marked last.
abbrev pub early_last : List Piece → Bool
early_last [] = false
early_last (p ∷ []) = false
early_last (p ∷ q ∷ ps) = p.last_buf || early_last (q ∷ ps)

-- What is still to come behind the bytes that the encoder consumed.
abbrev pub to_come : Bool → List Piece → Bytes
to_come true ps = []
to_come false ps = body_bytes ps

-- The counter is at most the limit, or has left the non-negative values of an `off_t`.
abbrev pub Capped : Option ℕ → ℕ → Type 0
Capped none bytes_in = Unit
Capped (some max_length) bytes_in = (bytes_in ≤ max_length) ⊎ (2 ^ 63 ≤ bytes_in)

pub over_cap-Capped :
    (cap : Option ℕ) (bytes_in : ℕ) → over_cap cap bytes_in ≡ false → Capped cap bytes_in
over_cap-Capped none bytes_in h = tt
over_cap-Capped (some max_length) bytes_in h = ground (arith, h)

-- The part of the state that the invariant is about.
pub record Core (E : Type 0) : Type 0 where
  pub encoder : Option E
  pub bytes_in : ℕ
  pub bytes_out : ℕ
  pub input : List Piece
  pub out_buf : Option Piece
  pub initialized : Bool
  pub closed : Bool
  pub success : Bool
  pub output_ready : Bool
  pub end_of_input : Bool
  pub dcb_header_sent : Bool
  pub dcb_dict : Option Dict
  pub header_only : Bool
  pub handed : List Piece

abbrev pub core : {E N : Type 0} → Stream E N → Core E
core s = record {
  encoder = s.encoder;
  bytes_in = s.bytes_in;
  bytes_out = s.bytes_out;
  input = s.input;
  out_buf = s.out_buf;
  initialized = s.initialized;
  closed = s.closed;
  success = s.success;
  output_ready = s.output_ready;
  end_of_input = s.end_of_input;
  dcb_header_sent = s.dcb_header_sent;
  dcb_dict = s.dcb_dict;
  header_only = s.header_only;
  handed = s.handed;
}

module _ {E : Type 0} {enc : Encoder E} {decode : Option Bytes → Bytes → Option Bytes}
    (laws : EncoderLaws enc decode) (conf : Conf) (dict : Option Dict) where
  -- `given` is every link that the filter was called with. What was handed over and what waits is the
  -- frame header and the encoder's output; what the encoder consumed and what is to come is the body.
  pub record Open (given : List Piece) (sent : Bool) (c : Core E) : Type 0 where
    pub e : E
    pub has_encoder : c.encoder ≡ some e
    pub b : Piece
    pub has_buf : c.out_buf ≡ some b
    pub initialized : c.initialized ≡ true
    pub running : c.closed ≡ false
    pub has_body : c.header_only ≡ false
    pub unfinished : c.success ≡ false
    pub header_sent : c.dcb_header_sent ≡ sent
    pub same_dict : c.dcb_dict ≡ dict
    pub flows_out :
        contents c.handed ++ waiting c.output_ready b ≡ frame sent c.dcb_dict ++ (laws.view e).taken
    pub flows_in :
        (more : List Piece)
        → body_bytes (given ++ more)
          ≡ (laws.view e).consumed ++ to_come c.end_of_input (c.input ++ more)
    pub last_in :
        (more : List Piece)
        → has_last (given ++ more) ≡ (c.end_of_input || has_last (c.input ++ more))
    pub marked :
        has_last (c.handed ++ waiting_link c.output_ready b)
        ≡ (enc.is_finished e && not (enc.has_more_output e))
    pub in_order : early_last (c.handed ++ waiting_link c.output_ready b) ≡ false
    pub closes : (laws.view e).closing ≡ true → c.end_of_input ≡ true
    pub counts_in : c.bytes_in ≡ u64 (length (laws.view e).consumed)
    pub counts_out : c.bytes_out ≡ u64 (length (frame sent c.dcb_dict ++ (laws.view e).taken))
    pub capped : Capped conf.max_length c.bytes_in
    pub dictionary : (laws.view e).dictionary ≡ dict_bytes c.dcb_dict

  -- The response is complete: what was handed over is the frame header of the dictionary, if there is
  -- one, and a coding that decodes with it to the body; its final link, and no other, is marked last.
  pub record Done (given : List Piece) (c : Core E) : Type 0 where
    pub closed : c.closed ≡ true
    pub success : c.success ≡ true
    pub coding : Bytes
    pub handed : contents c.handed ≡ frame true dict ++ coding
    pub marked : has_last c.handed ≡ true
    pub in_order : early_last c.handed ≡ false
    pub decodes : decode (dict_bytes dict) coding ≡ some (body_bytes given)
    pub counts_in : c.bytes_in ≡ u64 (length (body_bytes given))
    pub counts_out : c.bytes_out ≡ u64 (length (contents c.handed))
    pub capped : Capped conf.max_length c.bytes_in

  -- The stream in between calls, where the header has been sent if there is a dictionary.
  abbrev pub Running : List Piece → Core E → Type 0
  Running given c = Open given (has_dict c.dcb_dict) c

  abbrev pub Failed : Core E → Type 0
  Failed c = (c.closed ≡ true) × (c.success ≡ false)

  -- What a return of the filter leaves behind: it waits for input, or for the next filter.
  abbrev pub Returned : {N : Type 0} → List Piece → Answer → Stream E N → Type 0
  Returned given ok s =
      (Running given (core s) × (s.input ≡ []) × (s.end_of_input ≡ false)) ⊎ Done given (core s)
  Returned given again s = Running given (core s) × (s.output_busy ≡ true)
  Returned given error s = Failed (core s)

  abbrev pub Kept : {N : Type 0} → List Piece → Round (Stream E N) → Type 0
  Kept given (continues s) = Running given (core s)
  Kept given (returns answer s) = Returned given answer s
  Kept given faults = ⊥

  -- The filter returned.
  abbrev pub Ended : {N : Type 0} → List Piece → Round (Stream E N) → Type 0
  Ended given (continues s) = ⊥
  Ended given (returns answer s) = Returned given answer s
  Ended given faults = ⊥
