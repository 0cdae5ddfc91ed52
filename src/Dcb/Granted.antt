-- ===== src/Dcb/Granted.antt =====
-- What a request has shown when `ngx_http_brotli_dcb_negotiate` grants it a dictionary.
use ngx_brotli.AcceptEncoding.LinesEnd.{request_coding_weight_total}
use ngx_brotli.AcceptEncoding.Walk.{request_coding_weight, is_positive}
use ngx_brotli.Base.{
  ℕ, ◌-◌, ◌≤◌, ◌<◌, ◌≡◌, refl, ap, sym, subst, ◌∙◌, Bool, true, false, not, ◌||◌, Bytes, List, [],
  ◌∷◌, Option, none, some, arith, ◌==◌, if◌then◌else◌, length, length-take, take, drop, codes,
  Bool-cases, inl, inr, if-none, >>=-some, ◌⊎◌, ==_iff, ltb,
}
use ngx_brotli.Dcb.{
  Dict, Conf, find_request_header, byte_sequence, same_site, same_bytes, find_dict, offered_hash,
  dcb_negotiate, no_lines, no_dicts, between_colons, weighed_dict, hash_of_line, decoded_hash,
  checked_hash,
}
use ngx_brotli.Request.{Header, Request}
use mathlib.Core.Path.{ap₂}
use mathlib.Core.Option.{some-injective, none-ne-some}

pub same_bytes_eq : (xs ys : Bytes) → same_bytes xs ys ≡ true → xs ≡ ys
unfolding same_bytes
same_bytes_eq [] [] e = refl
same_bytes_eq [] (y ∷ ys) e = ground arith
same_bytes_eq (x ∷ xs) [] e = ground arith
same_bytes_eq (x ∷ xs) (y ∷ ys) e = elim (Bool-cases (x == y)) [
  | inl h ↦
      let tail = same_bytes_eq xs ys (sym (rw (h) refl) ∙ e) in
      ap₂ (λ c cs. c ∷ cs) ((==_iff x y).0 h) tail
  | inr h ↦ ground arith
]

-- The dictionary is one of the configured ones.
abbrev pub Among : Dict → List Dict → Type 0
Among d [] = ⊥
Among d (x ∷ xs) = (d ≡ x) ⊎ Among d xs

find_dict_lem :
    (hash : Bytes) (ds : List Dict) (d : Dict)
    → find_dict hash ds ≡ some d
    → Among d ds × (d.hash ≡ hash)
unfolding find_dict
find_dict_lem hash [] d e = absurd (none-ne-some d e)
find_dict_lem hash (x ∷ ds) d e = elim (Bool-cases (same_bytes x.hash hash)) [
  | inl h ↦
      let same : x ≡ d = some-injective x d (sym (rw (h) refl) ∙ e) in
      (inl (sym same), ap (λ d. d.hash) (sym same) ∙ same_bytes_eq x.hash hash h)
  | inr h ↦ let k = find_dict_lem hash ds d (sym (rw (h) refl) ∙ e) in (inr k.0, k.1)
]

pub not-false : (b : Bool) → not b ≡ false → b ≡ true
not-false true h = refl
not-false false h = sym h

not_longer : (b c : Bool) (n : ℕ) → (b || (c || ltb 44 n)) ≡ false → n ≤ 44
not_longer b c n h = ground arith

byte_sequence_short : (value b64 : Bytes) → byte_sequence value ≡ some b64 → length b64 ≤ 44
unfolding byte_sequence
byte_sequence_short value b64 e =
    let bad = ltb (length value) 2 || (not (between_colons value) || ltb 44 (length value - 2)) in
    let (fits, f) = if-none bad (some (take (length value - 2) (drop 1 value))) b64 e in
    let size : length value - 2 ≤ 44 =
      not_longer (ltb (length value) 2) (not (between_colons value)) (length value - 2) fits in
    let same = ap length (some-injective (take (length value - 2) (drop 1 value)) b64 f) in
    omega (arith, size, same, length-take (length value - 2) (drop 1 value))

weighed_dict_total :
    (r : Request) (conf : Conf) (offered : Option Bytes)
    → (answer : Option Dict) × (weighed_dict r conf offered ≡ some answer)
weighed_dict_total r conf none = (none, refl)
weighed_dict_total r conf (some hash) =
    let (q, e, _) = request_coding_weight_total (codes "dcb") false r.accept_encoding in
    (if is_positive q then find_dict hash conf.dcb_dicts else none, rw (e) refl)

module _ (decode_base64 : Bytes → Option Bytes) where
  -- The gates of RFC 9842: a main request on a secure transport, whose Available-Dictionary decodes
  -- to 32 bytes, and which comes from no other site.
  pub record Offers (r : Request) (conf : Conf) (hash : Bytes) : Type 0 where
    pub main : r.is_main ≡ true
    pub secure : (conf.dcb_assume_secure || r.ssl) ≡ true
    pub line : Header
    pub available : find_request_header (codes "available-dictionary") r.headers_in ≡ some line
    pub b64 : Bytes
    pub framed : byte_sequence line.value ≡ some b64
    pub short : length b64 ≤ 44
    pub decoded : decode_base64 b64 ≡ some hash
    pub size : length hash ≡ 32
    pub site : same_site (find_request_header (codes "sec-fetch-site") r.headers_in) ≡ true

  offered_hash-Offers :
      (r : Request) (conf : Conf) (hash : Bytes)
      → offered_hash decode_base64 r conf ≡ some hash
      → Offers r conf hash
  unfolding offered_hash
  offered_hash-Offers r conf hash e0 =
      let (_, e1) = if-none (no_dicts conf.dcb_dicts) _ hash e0 in
      let (main, e2) = if-none (not r.is_main) _ hash e1 in
      let (secure, e3) = if-none (not (conf.dcb_assume_secure || r.ssl)) _ hash e2 in
      let (_, e4) = if-none (no_lines r.accept_encoding) _ hash e3 in
      let (line, available, e5) =
        >>=-some (find_request_header (codes "available-dictionary") r.headers_in)
          (hash_of_line decode_base64 r) hash e4 in
      let (b64, framed, e6) =
        >>=-some (byte_sequence line.value) (decoded_hash decode_base64 r) hash e5 in
      let (bytes, decoded, e7) =
        >>=-some (decode_base64 b64) (checked_hash decode_base64 r) hash e6 in
      let (size, e8) = if-none (not (length bytes == 32)) _ hash e7 in
      let (site, e9) =
        if-none (not (same_site (find_request_header (codes "sec-fetch-site") r.headers_in))) _ hash
          e8 in
      let same : bytes ≡ hash = some-injective bytes hash e9 in
      record {
        main = not-false r.is_main main;
        secure = not-false (conf.dcb_assume_secure || r.ssl) secure;
        line = line;
        available = available;
        b64 = b64;
        framed = framed;
        short = byte_sequence_short line.value b64 framed;
        decoded = decoded ∙ ap some same;
        size =
            ap length (sym same)
            ∙ (==_iff (length bytes) 32).0 (not-false (length bytes == 32) size);
        site =
            not-false (same_site (find_request_header (codes "sec-fetch-site") r.headers_in)) site;
      }

  positive_weight :
      (q : Option ℕ) (x : Option Dict) (d : Dict)
      → (if is_positive q then x else none) ≡ some d
      → ((n : ℕ) × (q ≡ some n) × (0 < n)) × (x ≡ some d)
  positive_weight none x d e = absurd (none-ne-some d e)
  positive_weight (some q) x d e = elim (Bool-cases (ltb 0 q)) [
    | inl h ↦ ((q, refl, ground arith), sym (rw (h) refl) ∙ e)
    | inr h ↦ absurd (none-ne-some d (sym (rw (h) refl) ∙ e))
  ]

  abbrev pub HasWeight : Request → Type 0
  HasWeight r =
      (q : ℕ) × (request_coding_weight (codes "dcb") false r.accept_encoding ≡ some (some q))
      × (0 < q)

  weighed_dict-Offers :
      (r : Request) (conf : Conf) (d : Dict) (offered : Option Bytes)
      → offered_hash decode_base64 r conf ≡ offered
      → weighed_dict r conf offered ≡ some (some d)
      → Offers r conf d.hash × Among d conf.dcb_dicts × HasWeight r
  weighed_dict-Offers r conf d none o e = absurd (none-ne-some d (some-injective none (some d) e))
  weighed_dict-Offers r conf d (some hash) o e =
      let (q, w, f) =
        >>=-some (request_coding_weight (codes "dcb") false r.accept_encoding)
          (λ q. some (if is_positive q then find_dict hash conf.dcb_dicts else none)) (some d) e in
      let ((n, same, positive), found) =
        positive_weight q (find_dict hash conf.dcb_dicts) d (some-injective _ _ f) in
      let (among, equal) = find_dict_lem hash conf.dcb_dicts d found in
      (
        subst (λ h. Offers r conf h) (sym equal) (offered_hash-Offers r conf hash o),
        among,
        (n, w ∙ ap some same, positive),
      )

  -- A dictionary is granted only on an offer of its hash, to a client whose field names dcb itself
  -- with a weight above zero, and it is one of the configured ones.
  pub dcb_negotiate-Offers :
      (r : Request) (conf : Conf) (d : Dict)
      → dcb_negotiate decode_base64 r conf ≡ some (some d)
      → Offers r conf d.hash × Among d conf.dcb_dicts × HasWeight r
  unfolding dcb_negotiate
  dcb_negotiate-Offers r conf d e =
      weighed_dict-Offers r conf d (offered_hash decode_base64 r conf) refl e

  pub dcb_negotiate_total :
      (r : Request) (conf : Conf)
      → (answer : Option Dict) × (dcb_negotiate decode_base64 r conf ≡ some answer)
  unfolding dcb_negotiate
  dcb_negotiate_total r conf = weighed_dict_total r conf (offered_hash decode_base64 r conf)
