-- ===== src/Vary/Emits.antt =====
-- What `ngx_http_brotli_vary_accept_encoding` leaves among the response headers.
use ngx_brotli.Base.{
  ◌≡◌, refl, ap, sym, subst, ◌∙◌, Bool, true, false, ◌&&◌, ◌||◌, List, [], ◌∷◌, ◌++◌, some, arith,
  if◌then◌else◌, not, ◌==◌, codes, Bool-cases, inl, inr, drop_while, ◌⊎◌,
}
use mathlib.Core.Option.{some-injective}
use mathlib.Core.Bool.{false≢true}
use ngx_brotli.AcceptEncoding.Scan.{same_name}
use ngx_brotli.Request.{Header, Request, push_header}
use ngx_brotli.Vary.{varies, vary_accept_encoding, is_vary, accept_encoding_name, trim_end}
use ngx_brotli.Vary.Tokens.{any, trim, pieces, has_token-pieces}

-- A header line that is not deleted, called Vary.
abbrev pub live_vary : Header → Bool
live_vary h = not (h.hash == 0) && same_name h.key (codes "Vary")

-- Does a live Vary line name Accept-Encoding between two commas of its value?
abbrev pub names_accept_encoding : Header → Bool
names_accept_encoding h =
    live_vary h && any (λ p. same_name (trim p) (codes "Accept-Encoding")) (pieces h.value)

abbrev pub some_line : List Header → Bool
some_line [] = false
some_line (h ∷ hs) = names_accept_encoding h || some_line hs

one_line :
    (vary found rest : Bool)
    → (if vary then (if found then some true else some rest) else some rest)
      ≡ some ((vary && found) || rest)
one_line true true rest = refl
one_line true false rest = refl
one_line false found rest = refl

varies-some_line : (hs : List Header) → varies hs ≡ some (some_line hs)
unfolding varies
varies-some_line [] = refl
varies-some_line (h ∷ hs) =
    let token = has_token-pieces accept_encoding_name (omega arith) h.value in
    rw (varies-some_line hs, token)
      (one_line (is_vary h) (any (λ p. same_name (trim p) accept_encoding_name) (pieces h.value))
        (some_line hs))

abbrev pub vary_line : Header
vary_line = record { hash = 1; key = codes "Vary"; value = codes "Accept-Encoding" }

vary_line-names : names_accept_encoding vary_line ≡ true
unfolding same_name trim_end pieces drop_while
vary_line-names = refl

or_true : (b : Bool) → (b || true) ≡ true
or_true true = refl
or_true false = refl

-- A line that names Accept-Encoding, behind any others.
pub some_line-push :
    (hs : List Header) (h : Header)
    → names_accept_encoding h ≡ true
    → some_line (hs ++ h ∷ []) ≡ true
some_line-push [] h e = rw (e) refl
some_line-push (x ∷ hs) h e = rw (some_line-push hs h e) (or_true (names_accept_encoding x))

-- A line that stays, whatever comes behind it.
pub some_line-append : (hs ks : List Header) → some_line hs ≡ true → some_line (hs ++ ks) ≡ true
some_line-append [] ks e = absurd (false≢true e)
some_line-append (x ∷ hs) ks e = elim (Bool-cases (names_accept_encoding x)) [
  | inl h ↦ rw (h) refl
  | inr h ↦ rw (h) (some_line-append hs ks (sym (rw (h) refl) ∙ e))
]

some_line-vary_line : (hs : List Header) → some_line (hs ++ vary_line ∷ []) ≡ true
some_line-vary_line hs = some_line-push hs vary_line vary_line-names

abbrev pub asks_vary : Request → Request
asks_vary r = record r { gzip_vary = true }

-- For every request the call ends. The flag `gzip_vary` is set, and nothing else changes if nginx
-- emits the line itself or if a live Vary line names Accept-Encoding; otherwise the line is pushed,
-- and the answer is whether the push succeeded.
pub vary_accept_encoding-some_line :
    (core_gzip_vary : Bool) (r : Request)
    → vary_accept_encoding core_gzip_vary r
      ≡ some (
          if core_gzip_vary || some_line r.headers_out
          then (true, asks_vary r)
          else push_header vary_line (asks_vary r))
unfolding vary_accept_encoding
vary_accept_encoding-some_line true r = refl
vary_accept_encoding-some_line false r = rw (varies-some_line r.headers_out) refl

-- The flag is set and some live line names Accept-Encoding.
abbrev Settled : Request → Type 0
Settled r = (some_line r.headers_out ≡ true) × (asks_vary r ≡ r)

settled :
    (r r' : Request) → (x : Bool × Request) → Settled x.1 → some x ≡ some (true, r') → Settled r'
settled r r' x h e = subst (λ y. Settled y.1) (some-injective x (true, r') e) h

push_header-Settled :
    (r r' : Request) (pool : List Bool)
    → some (push_header vary_line (asks_vary (record r { pool = pool }))) ≡ some (true, r')
    → Settled r'
push_header-Settled r r' [] e =
    let no : false ≡ true = ap (λ x. x.0) (some-injective _ _ e) in absurd (false≢true no)
push_header-Settled r r' (false ∷ pool) e =
    let no : false ≡ true = ap (λ x. x.0) (some-injective _ _ e) in absurd (false≢true no)
push_header-Settled r r' (true ∷ pool) e =
    settled r r' _ (some_line-vary_line r.headers_out, refl) e

both_ways :
    (r r' : Request)
    → vary_accept_encoding false r ≡ some (true, r')
    → (some_line r.headers_out ≡ true) ⊎ (some_line r.headers_out ≡ false)
    → Settled r'
both_ways r r' e (inl h) =
    settled r r' (true, asks_vary r) (h, refl)
      (sym (vary_accept_encoding-some_line false r ∙ rw (h) refl) ∙ e)
both_ways r r' e (inr h) =
    push_header-Settled r r' r.pool (sym (vary_accept_encoding-some_line false r ∙ rw (h) refl) ∙ e)

pub vary_accept_encoding-twice :
    (r r' : Request)
    → vary_accept_encoding false r ≡ some (true, r')
    → (some_line r'.headers_out ≡ true) × (vary_accept_encoding false r' ≡ some (true, r'))
vary_accept_encoding-twice r r' e =
    let k = both_ways r r' e (Bool-cases (some_line r.headers_out)) in
    (k.0, vary_accept_encoding-some_line false r' ∙ rw (k.0, k.1) refl)
