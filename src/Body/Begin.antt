-- ===== src/Body/Begin.antt =====
-- The first call of the body filter: the encoder is set up and the frame header is sent.
use mathlib.Core.Option.{some-injective}
use mathlib.Core.Bool.{false≢true}
use ngx_brotli.Base.{
  inl, if_cases, ℕ, ◌≡◌, refl, ap, sym, ◌∙◌, Bool, true, false, Bytes, List, [], ◌∷◌, Option, none,
  some, arith, length, ltb,
}
use ngx_brotli.Body.Laws.{View, fresh, EncoderLaws}
use ngx_brotli.Body.Open.{Capped, dict_bytes}
use ngx_brotli.Body.Rounds.{}
use ngx_brotli.Body.Setup.{
  empty_piece, hint_of, with_hint, allocate_from, with_link, with_out_buf, set_encoder, attached,
  with_dictionary, with_lgwin, with_quality, set_up_encoder, ensure_stream_initialized,
}
use ngx_brotli.Body.Stream.{Piece, quality, lgwin, size_hint, Encoder, Stream}
use ngx_brotli.Dcb.{Dict, Conf}
use ngx_brotli.Window.{window_bits}

-- The part of the state that the header filter leaves zeroed.
pub record Quiet : Type 0 where
  pub bytes_in : ℕ
  pub bytes_out : ℕ
  pub input : List Piece
  pub initialized : Bool
  pub closed : Bool
  pub success : Bool
  pub output_ready : Bool
  pub end_of_input : Bool
  pub dcb_header_sent : Bool
  pub dcb_dict : Option Dict
  pub header_only : Bool
  pub handed : List Piece

abbrev pub quiet : {E N : Type 0} → Stream E N → Quiet
quiet s = record {
  bytes_in = s.bytes_in;
  bytes_out = s.bytes_out;
  input = s.input;
  initialized = s.initialized;
  closed = s.closed;
  success = s.success;
  output_ready = s.output_ready;
  end_of_input = s.end_of_input;
  dcb_header_sent = s.dcb_header_sent;
  dcb_dict = s.dcb_dict;
  header_only = s.header_only;
  handed = s.handed;
}

abbrev pub zeroed : Bool → Option Dict → Quiet
zeroed initialized dict = record {
  bytes_in = 0;
  bytes_out = 0;
  input = [];
  initialized = initialized;
  closed = false;
  success = false;
  output_ready = false;
  end_of_input = false;
  dcb_header_sent = false;
  dcb_dict = dict;
  header_only = false;
  handed = [];
}

-- A hash is 32 bytes long, as its array is.
abbrev pub Hashed : Option Dict → Type 0
Hashed dict = (d : Dict) → dict ≡ some d → length d.hash ≡ 32

pub under_cap : (cap : Option ℕ) → Capped cap 0
under_cap none = tt
under_cap (some n) = inl (omega arith)

module _ {E : Type 0} {enc : Encoder E} {decode : Option Bytes → Bytes → Option Bytes}
    (laws : EncoderLaws enc decode) where
  hint_view : (e : E) (n : Option ℕ) → laws.view (with_hint enc e n) ≡ laws.view e
  hint_view e none = refl
  hint_view e (some n) =
      if_cases (λ e'. laws.view e' ≡ laws.view e) (ltb 0 n)
        (enc.set_parameter size_hint (hint_of n) e).1 e
        (λ _. laws.parameter_set size_hint (hint_of n) e) (λ _. refl)

module _ {E N : Type 0} {enc : Encoder E} {decode : Option Bytes → Bytes → Option Bytes}
    (laws : EncoderLaws enc decode) (conf : Conf) (dict : Option Dict) where
  -- What the set-up leaves: an open stream that has given nothing, or a failed one.
  abbrev pub Started : Bool × Stream E N → Type 0
  Started (false, s) = s.success ≡ false
  Started (true, s) =
      (quiet s ≡ zeroed true dict)
      × ((e : E) × (b : Piece) × (s.encoder ≡ some e)
          × (s.out_buf ≡ some b)
          × (laws.view e ≡ record fresh { dictionary = dict_bytes dict }))

  link-Started :
      (s : Stream E N) (e : E) (b : Piece) (pool : List Bool)
      → quiet s ≡ zeroed true dict
      → s.encoder ≡ some e
      → s.out_buf ≡ some b
      → laws.view e ≡ record fresh { dictionary = dict_bytes dict }
      → Started (with_link (allocate_from s pool))
  link-Started s e b [] q h k v = ap (λ (q : Quiet). q.success) q
  link-Started s e b (false ∷ pool) q h k v = ap (λ (q : Quiet). q.success) q
  link-Started s e b (true ∷ pool) q h k v = (q, (e, b, h, k, v))

  out_buf-Started :
      (s : Stream E N) (e : E) (pool : List Bool)
      → quiet s ≡ zeroed true dict
      → s.encoder ≡ some e
      → laws.view e ≡ record fresh { dictionary = dict_bytes dict }
      → Started (with_out_buf (allocate_from s pool))
  out_buf-Started s e [] q h v = ap (λ (q : Quiet). q.success) q
  out_buf-Started s e (false ∷ pool) q h v = ap (λ (q : Quiet). q.success) q
  out_buf-Started s e (true ∷ pool) q h v =
      link-Started (record s { pool = pool; out_buf = some empty_piece }) e empty_piece pool q h
        refl v

  attached-Started :
      (s : Stream E N) (e : E) (x : Option E)
      → quiet s ≡ zeroed true dict
      → ((e' : E) → x ≡ some e' → laws.view e' ≡ record fresh { dictionary = dict_bytes dict })
      → Started (attached enc conf e s x)
  attached-Started s e none q v = ap (λ (q : Quiet). q.success) q
  attached-Started s e (some e') q v =
      out_buf-Started (set_encoder enc conf e' s) e' s.pool q refl (v e' refl)

  dictionary-Started :
      (s : Stream E N) (e : E) (d : Option Dict)
      → quiet s ≡ zeroed true dict
      → d ≡ dict
      → laws.view e ≡ fresh
      → Started (with_dictionary enc conf e s d)
  dictionary-Started s e none q same v = attached-Started s e (some e) q (λ e' h.
      ap laws.view (sym (some-injective e e' h))
      ∙ v
      ∙ ap (λ d. record fresh { dictionary = dict_bytes d }) same)
  dictionary-Started s e (some d) q same v =
      attached-Started s e (enc.attach_dictionary d.bytes conf.quality e) q (λ e' h.
        laws.dictionary_attached d.bytes conf.quality e e' h
        ∙ ap (λ (v : View). record v { dictionary = some d.bytes }) v
        ∙ ap (λ d. record fresh { dictionary = dict_bytes d }) same)

  lgwin-Started :
      (s : Stream E N) (x : Bool × E)
      → quiet s ≡ zeroed true dict
      → laws.view x.1 ≡ fresh
      → Started (with_lgwin enc conf s x)
  lgwin-Started s (false, e) q v = ap (λ (q : Quiet). q.success) q
  lgwin-Started s (true, e) q v =
      dictionary-Started s (with_hint enc e s.content_length) s.dcb_dict q
        (ap (λ (q : Quiet). q.dcb_dict) q) (hint_view laws e s.content_length ∙ v)

  quality-Started :
      (s : Stream E N) (x : Bool × E)
      → quiet s ≡ zeroed true dict
      → laws.view x.1 ≡ fresh
      → Started (with_quality enc conf s x)
  quality-Started s (false, e) q v = ap (λ (q : Quiet). q.success) q
  quality-Started s (true, e) q v =
      let bits = window_bits conf.lg_win s.content_length in
      lgwin-Started s (enc.set_parameter lgwin bits e) q (laws.parameter_set lgwin bits e ∙ v)

  encoder-Started :
      (s : Stream E N) (x : Option E)
      → quiet s ≡ zeroed true dict
      → enc.create ≡ x
      → Started (set_up_encoder enc conf s x)
  encoder-Started s none q h = ap (λ (q : Quiet). q.success) q
  encoder-Started s (some e) q h =
      quality-Started s (enc.set_parameter quality conf.quality e) q
        (laws.parameter_set quality conf.quality e ∙ laws.created e h)

  -- On a zeroed context the set-up sets the stream up, or fails.
  pub ensure_stream_initialized-Started :
      (s : Stream E N)
      → quiet s ≡ zeroed false dict
      → Started (ensure_stream_initialized enc conf s)
  unfolding ensure_stream_initialized
  ensure_stream_initialized-Started s q =
      if_cases Started s.initialized (true, s)
        (set_up_encoder enc conf (record s { initialized = true }) enc.create)
        (λ h. absurd (false≢true (sym (ap (λ (q : Quiet). q.initialized) q) ∙ h)))
        (λ _.
          encoder-Started (record s { initialized = true }) enc.create
            (ap (λ (q : Quiet). record q { initialized = true }) q) refl)
