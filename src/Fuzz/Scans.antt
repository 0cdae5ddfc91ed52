-- ===== src/Fuzz/Scans.antt =====
-- fuzz/fuzz_accept_encoding.c: the byte scans of `ref_accepts`. The bytes `d[i]`, `d[i + 1]`, … before
-- `n` are the list of the bytes that remain.
use ngx_brotli.Base.{
  ℕ, zero, suc, ◌+◌, ◌-◌, ◌*◌, ◌/◌, Bool, false, not, ◌&&◌, ◌||◌, Bytes, [], ◌∷◌, ◌==◌, ltb, leb,
  if◌then◌else◌, drop_while, bit_or,
}
use ngx_brotli.AcceptEncoding.Scan.{}
use ngx_brotli.AcceptEncoding.Qvalue.{}
use ngx_brotli.AcceptEncoding.Walk.{}

-- `return -1` is `unsure`; `spent` is the end of the fuel.
pub data Answer {ℓ} (A : Type ℓ) : Type ℓ where
  sure : A → Answer A
  unsure spent : Answer A

infixl 5 ◌>>=◌
abbrev pub ◌>>=◌ {ℓ κ} : {A : Type ℓ} {B : Type κ} → Answer A → (A → Answer B) → Answer B
sure a >>= f = f a
unsure >>= f = unsure
spent >>= f = spent

abbrev pub is_token_byte : ℕ → Bool
is_token_byte c =
    leb b'A' c && leb c b'Z'
    || leb b'a' c && leb c b'z'
    || leb b'0' c && leb c b'9'
    || c == b'*'
    || c == b'-'
    || c == b'_'

-- `(d[ts] | 0x20) == 'b' && (d[ts + 1] | 0x20) == 'r'`, for two bytes.
unfoldable pub is_br_name : Bytes → Bool
is_br_name (c ∷ d ∷ []) = bit_or c 0x20 == b'b' && bit_or d 0x20 == b'r'
is_br_name _ = false

abbrev pub in_name : ℕ → Bool
in_name c = not (c == b'=' || c == b';' || c == b',' || c == b' ' || c == b'\t' || c == b'"')

abbrev pub in_value : ℕ → Bool
in_value c = not (c == b';' || c == b',' || c == b' ' || c == b'\t' || c == b'"')

-- Behind an opening DQUOTE, up to behind the closing one.
unfoldable pub close_quote : Bytes → Answer Bytes
close_quote [] = unsure
close_quote (c ∷ cs) =
    let rest = close_quote cs in if c == b'"' then sure cs else if c == b'\\' then unsure else rest

-- The skip to the next comma that gives up on a DQUOTE.
unfoldable pub junk_to_comma : Bytes → Answer Bytes
junk_to_comma [] = sure []
junk_to_comma (c ∷ cs) =
    let rest = junk_to_comma cs in
    if c == b',' then sure (c ∷ cs) else if c == b'"' then unsure else rest

-- `if (i < n) i++`.
abbrev pub past_byte : Bytes → Bytes
past_byte [] = []
past_byte (c ∷ cs) = cs

-- The loop over an element that starts with a DQUOTE, up to its comma.
unfoldable pub quoted_element : ℕ → Bytes → Answer Bytes
unfolding close_quote
quoted_element zero p = spent
quoted_element (suc n) [] = sure []
quoted_element (suc n) (c ∷ cs) =
    let quoted = close_quote cs >>= λ p. quoted_element n p in
    let next = quoted_element n cs in
    if c == b',' then sure (c ∷ cs) else if c == b'"' then quoted else next

-- `while (digit && scale > 0) { q += (d[i] - '0') * scale; scale /= 10; i++; }`.
unfoldable pub scaled_digits : ℕ → ℕ → Bytes → ℕ × Bytes
scaled_digits scale q [] = (q, [])
scaled_digits scale q (c ∷ cs) =
    let rest = scaled_digits (scale / 10) (q + (c - b'0') * scale) cs in
    if leb b'0' c && leb c b'9' && ltb 0 scale then rest else (q, c ∷ cs)

-- `while (d[i] == '0' && k < 3) { i++; k++; }`.
unfoldable pub counted_zeros : ℕ → Bytes → Bytes
counted_zeros k [] = []
counted_zeros k (c ∷ cs) =
    let rest = counted_zeros (suc k) cs in if c == b'0' && ltb k 3 then rest else c ∷ cs

abbrev pub zero_fraction : Bytes → ℕ × Bytes
zero_fraction [] = (0, [])
zero_fraction (c ∷ cs) = if c == b'.' then scaled_digits 100 0 cs else (0, c ∷ cs)

abbrev pub one_fraction : Bytes → ℕ × Bytes
one_fraction [] = (1000, [])
one_fraction (c ∷ cs) = (1000, if c == b'.' then counted_zeros 0 cs else c ∷ cs)

unfoldable pub weight_digits : Bytes → Answer (ℕ × Bytes)
unfolding scaled_digits counted_zeros
weight_digits [] = unsure
weight_digits (c ∷ cs) =
    if c == b'0'
    then sure (zero_fraction cs)
    else if c == b'1'
    then sure (one_fraction cs)
    else unsure

abbrev pub plain_value : Bytes → Answer Bytes
plain_value [] = sure []
plain_value (c ∷ cs) = if c == b'"' then close_quote cs else sure (drop_while in_value (c ∷ cs))
