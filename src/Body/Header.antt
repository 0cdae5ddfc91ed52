-- ===== src/Body/Header.antt =====
-- The first call of the body filter, behind the set-up: the frame header is sent.

use mathlib.Core.Bool.{false≢true}
use ngx_brotli.Base.{
  u64, if_cases, ℕ, ◌+◌, ◌≡◌, refl, ap, sym, subst, ◌∙◌, Bool, true, false, not, ◌&&◌, ◌||◌, Bytes,
  List, [], ◌∷◌, ◌++◌, Option, none, some, arith, length, append-nil, inl, inr, Bool-cases,
}
use ngx_brotli.Body.Begin.{Quiet, quiet, zeroed, Hashed, under_cap, Started}
use ngx_brotli.Body.Inputs.{failed-Ended, take_input-Ended}
use ngx_brotli.Body.Laws.{View, fresh, EncoderLaws}
use ngx_brotli.Body.Open.{
  Capped, contents, has_last, waiting_link, early_last, frame, has_dict, dict_bytes, waiting,
  to_come, core, Open, Running, Ended,
}
use ngx_brotli.Body.Rounds.{Round, take_input, behind_header, with_header, behind_setup}
use ngx_brotli.Body.Setup.{
  header_piece, allocate_from, header_answered, hand_header, emit_dcb_header,
}
use ngx_brotli.Body.Stream.{Piece, Encoder, Answer, ok, again, error, Downstream, Stream}
use ngx_brotli.Dcb.{Dict, Conf, dcb_frame_header}

module _ {E : Type 0} {enc : Encoder E} {decode : Option Bytes → Bytes → Option Bytes}
    (laws : EncoderLaws enc decode) (dict : Option Dict) where
  fresh_unfinished :
      (e : E)
      → laws.view e ≡ record fresh { dictionary = dict_bytes dict }
      → enc.is_finished e ≡ false
  fresh_unfinished e v = elim (Bool-cases (enc.is_finished e)) [
    | inl h ↦ absurd (false≢true (sym (ap (λ (v : View). v.closing) v) ∙ laws.finished e h))
    | inr h ↦ h
  ]

module _ {E N : Type 0} {enc : Encoder E} {decode : Option Bytes → Bytes → Option Bytes}
    (laws : EncoderLaws enc decode) (conf : Conf) (dict : Option Dict) where
  -- A stream that has consumed nothing, with `handed` given to the next filter.
  fresh-Open :
      (s : Stream E N) (sent : Bool) (n : ℕ) (handed : List Piece)
      → quiet s
        ≡ record (zeroed true dict) { bytes_out = n; dcb_header_sent = sent; handed = handed }
      → contents handed ≡ frame sent dict
      → n ≡ u64 (length (frame sent dict))
      → has_last handed ≡ false
      → early_last handed ≡ false
      → ((e : E) × (b : Piece) × (s.encoder ≡ some e)
          × (s.out_buf ≡ some b)
          × (laws.view e ≡ record fresh { dictionary = dict_bytes dict }))
      → Open laws conf dict [] sent (core s)
  fresh-Open s sent n handed q out count none_last none_early (e, b, h, k, v) =
      let same : s.dcb_dict ≡ dict = ap (λ (q : Quiet). q.dcb_dict) q in
      let taken : (laws.view e).taken ≡ [] = ap (λ (v : View). v.taken) v in
      let consumed : (laws.view e).consumed ≡ [] = ap (λ (v : View). v.consumed) v in
      let coded : frame sent s.dcb_dict ++ (laws.view e).taken ≡ frame sent dict =
        ap (◌++◌ (frame sent s.dcb_dict)) taken
        ∙ append-nil (frame sent s.dcb_dict)
        ∙ ap (frame sent) same in
      record {
        e = e;
        has_encoder = h;
        b = b;
        has_buf = k;
        initialized = ap (λ (q : Quiet). q.initialized) q;
        running = ap (λ (q : Quiet). q.closed) q;
        has_body = ap (λ (q : Quiet). q.header_only) q;
        unfinished = ap (λ (q : Quiet). q.success) q;
        header_sent = ap (λ (q : Quiet). q.dcb_header_sent) q;
        same_dict = same;
        flows_out =
            ap (λ (q : Quiet). contents q.handed ++ waiting q.output_ready b) q
            ∙ append-nil (contents handed)
            ∙ out
            ∙ sym coded;
        flows_in = λ more.
            ap (λ (q : Quiet). to_come q.end_of_input (q.input ++ more)) (sym q)
            ∙ ap (λ c. c ++ to_come s.end_of_input (s.input ++ more)) (sym consumed);
        last_in = λ more. ap (λ (q : Quiet). q.end_of_input || has_last (q.input ++ more)) (sym q);
        marked =
            ap (λ (q : Quiet). has_last (q.handed ++ waiting_link q.output_ready b)) q
            ∙ ap has_last (append-nil handed)
            ∙ none_last
            ∙ ap (λ b. b && not (enc.has_more_output e)) (sym (fresh_unfinished laws dict e v));
        in_order =
            ap (λ (q : Quiet). early_last (q.handed ++ waiting_link q.output_ready b)) q
            ∙ ap early_last (append-nil handed)
            ∙ none_early;
        closes = λ c. absurd (false≢true (sym (ap (λ (v : View). v.closing) v) ∙ c));
        counts_in = ap (λ (q : Quiet). q.bytes_in) q ∙ ap (λ c. u64 (length c)) (sym consumed);
        counts_out =
            ap (λ (q : Quiet). q.bytes_out) q ∙ count ∙ ap (λ c. u64 (length c)) (sym coded);
        capped =
            subst (Capped conf.max_length) (ap (λ (q : Quiet). q.bytes_in) (sym q))
              (under_cap conf.max_length);
        dictionary = ap (λ (v : View). v.dictionary) v ∙ ap dict_bytes (sym same);
      }

  -- The encoder, the buffer and the encoder's view behind the set-up.
  abbrev SetUp : Stream E N → Type 0
  SetUp s =
      (e : E) × (b : Piece) × (s.encoder ≡ some e)
      × (s.out_buf ≡ some b)
      × (laws.view e ≡ record fresh { dictionary = dict_bytes dict })

  sent_header :
      (s : Stream E N) (d : Dict)
      → dict ≡ some d
      → length d.hash ≡ 32
      → quiet s ≡ record (zeroed true dict) { handed = header_piece d ∷ [] }
      → SetUp s
      → Running laws conf dict []
          (core (record s { bytes_out = u64 (s.bytes_out + 36); dcb_header_sent = true }))
  sent_header s d g size q w =
      let s' = record s { bytes_out = u64 (s.bytes_out + 36); dcb_header_sent = true } in
      let framed : frame true dict ≡ dcb_frame_header d = ap (frame true) g in
      let with_dict : has_dict s.dcb_dict ≡ true =
        ap (λ (q : Quiet). has_dict q.dcb_dict) q ∙ ap has_dict g in
      subst (λ sent. Open laws conf dict [] sent (core s')) (sym with_dict)
        (fresh-Open s' true (u64 36) (header_piece d ∷ [])
          (ap
            (λ (q : Quiet). record q { bytes_out = u64 (q.bytes_out + 36); dcb_header_sent = true })
            q)
          (append-nil (dcb_frame_header d) ∙ sym framed) (omega (arith, ap length framed, size))
          refl refl w)

  -- The header is sent in front of all else, or the stream fails.
  answered-Ended :
      (down : Downstream N) (fuel : ℕ) (chain : List Piece) (s : Stream E N) (d : Dict)
      (answer : Answer) (r : Round (Stream E N))
      → dict ≡ some d
      → length d.hash ≡ 32
      → quiet s ≡ record (zeroed true dict) { handed = header_piece d ∷ [] }
      → SetUp s
      → behind_header enc conf down fuel chain (header_answered down s answer) ≡ some r
      → Ended laws conf dict chain r
  answered-Ended down fuel chain s d error r g size q w h =
      failed-Ended laws conf dict chain s r (ap (λ (q : Quiet). q.success) q) h
  answered-Ended down fuel chain s d ok r g size q w h =
      take_input-Ended laws conf dict down fuel [] chain
        (record s { bytes_out = u64 (s.bytes_out + 36); dcb_header_sent = true }) r
        (sent_header s d g size q w) h
  answered-Ended down fuel chain s d again r g size q w h =
      take_input-Ended laws conf dict down fuel [] chain
        (record s { bytes_out = u64 (s.bytes_out + 36); dcb_header_sent = true }) r
        (sent_header s d g size q w) h

  hand_header-Ended :
      (down : Downstream N) (fuel : ℕ) (chain : List Piece) (s : Stream E N) (d : Dict)
      (pool : List Bool) (r : Round (Stream E N))
      → dict ≡ some d
      → length d.hash ≡ 32
      → quiet s ≡ zeroed true dict
      → SetUp s
      → behind_header enc conf down fuel chain (hand_header down d (allocate_from s pool)) ≡ some r
      → Ended laws conf dict chain r
  hand_header-Ended down fuel chain s d [] r g size q w h =
      failed-Ended laws conf dict chain s r (ap (λ (q : Quiet). q.success) q) h
  hand_header-Ended down fuel chain s d (false ∷ pool) r g size q w h =
      failed-Ended laws conf dict chain (record s { pool = pool }) r
        (ap (λ (q : Quiet). q.success) q) h
  hand_header-Ended down fuel chain s d (true ∷ pool) r g size q w h =
      let call = down.next s.downstream (some (header_piece d)) in
      let s' = record s {
        pool = pool;
        downstream = call.0;
        handed = s.handed ++ header_piece d ∷ [];
      } in
      answered-Ended down fuel chain s' d call.1 r g size
        (ap (λ (q : Quiet). record q { handed = q.handed ++ header_piece d ∷ [] }) q) w h

  first_header-Ended :
      (down : Downstream N) (fuel : ℕ) (chain : List Piece) (s : Stream E N) (x : Option Dict)
      (r : Round (Stream E N))
      → Hashed dict
      → s.dcb_dict ≡ x
      → quiet s ≡ zeroed true dict
      → SetUp s
      → with_header enc conf down fuel chain s x ≡ some r
      → Ended laws conf dict chain r
  unfolding emit_dcb_header
  first_header-Ended down fuel chain s none r hashed e q w h =
      let no_dict : has_dict s.dcb_dict ≡ false = ap has_dict e in
      let framed : frame false dict ≡ [] = refl in
      take_input-Ended laws conf dict down fuel [] chain s r
        (subst (λ sent. Open laws conf dict [] sent (core s)) (sym no_dict)
          (fresh-Open s false 0 [] q refl refl refl refl w))
        h
  first_header-Ended down fuel chain s (some d) r hashed e q w h =
      let g : dict ≡ some d = sym (ap (λ (q : Quiet). q.dcb_dict) q) ∙ e in
      if_cases (λ y. y ≡ some r → Ended laws conf dict chain r) s.dcb_header_sent
        (take_input enc conf down fuel chain s)
        (behind_header enc conf down fuel chain (emit_dcb_header down d s))
        (λ sent. absurd (false≢true (sym (ap (λ (q : Quiet). q.dcb_header_sent) q) ∙ sent)))
        (λ _. hand_header-Ended down fuel chain s d s.pool r g (hashed d g) q w) h

  pub Started-Ended :
      (down : Downstream N) (fuel : ℕ) (chain : List Piece) (x : Bool × Stream E N)
      (r : Round (Stream E N))
      → Hashed dict
      → Started laws conf dict x
      → behind_setup enc conf down fuel chain x ≡ some r
      → Ended laws conf dict chain r
  Started-Ended down fuel chain (false, s) r hashed u h = failed-Ended laws conf dict chain s r u h
  Started-Ended down fuel chain (true, s) r hashed (q, w) h =
      first_header-Ended down fuel chain s s.dcb_dict r hashed refl q w h
