-- ===== src/Loading/Digits.antt =====
-- The hash literal against an independent printing of a hash.
use mathlib.Core.Option.{some-injective, none-ne-some}
use mathlib.Core.List.{cons≢nil, head-eq_of_cons-eq, tail-eq_of_cons-eq}
use ngx_brotli.Base.{
  ℕ, ◌+◌, ◌-◌, ◌*◌, ◌/◌, ◌%◌, ◌<◌, ◌≡◌, refl, ap, sym, subst, ◌∙◌, ◌↔◌, true, ◌&&◌, Bytes, [], ◌∷◌,
  Option, none, some, arith, ◌==◌, ==_iff, ltb, leb, length, map, All, if◌then◌else◌, if_cases,
}
use ngx_brotli.Loading.Hex.{nibble, byte_of, hex_bytes, hash_literal}

unfoldable pub hex_digit : ℕ → ℕ
hex_digit n = if ltb n 10 then b'0' + n else b'a' + (n - 10)

-- Two lower-case digits for each byte.
unfoldable pub hex_text : Bytes → Bytes
hex_text [] = []
hex_text (x ∷ xs) = hex_digit (x / 16) ∷ hex_digit (x % 16) ∷ hex_text xs

-- A to F in lower case.
unfoldable pub small : ℕ → ℕ
small c = if leb b'A' c && leb c b'F' then c + 32 else c

nibble-small : (c : ℕ) → nibble (small c) ≡ nibble c
unfolding nibble small
nibble-small c = grind arith

nibble_digit : (n : ℕ) → n < 16 → nibble (hex_digit n) ≡ some n
unfolding nibble hex_digit
nibble_digit n h = grind arith

nibble-some : (c n : ℕ) → nibble c ≡ some n → (n < 16) × (small c ≡ hex_digit n)
unfolding nibble hex_digit small
nibble-some c n h = (grind arith, grind arith)

byte_of-some :
    (x y : Option ℕ) (r : Option Bytes) (hash : Bytes)
    → byte_of x y r ≡ some hash
    → (hi : ℕ) × (lo : ℕ) × (rest : Bytes) × (x ≡ some hi)
      × (y ≡ some lo)
      × (r ≡ some rest)
      × (hash ≡ (hi * 16 + lo) ∷ rest)
byte_of-some (some hi) (some lo) (some rest) hash h =
    (hi, lo, rest, refl, refl, refl, sym (some-injective ((hi * 16 + lo) ∷ rest) hash h))
byte_of-some (some hi) (some lo) none hash h = absurd (none-ne-some hash h)
byte_of-some (some hi) none r hash h = absurd (none-ne-some hash h)
byte_of-some none y r hash h = absurd (none-ne-some hash h)

-- The bytes that `hex_text` prints.
abbrev pub Printed : Bytes → Bytes → Type 0
Printed text hash = All (λ x. x < 256) hash × (map small text ≡ hex_text hash)

pair_text :
    (hi lo : ℕ) (rest : Bytes)
    → hi < 16
    → lo < 16
    → hex_text ((hi * 16 + lo) ∷ rest) ≡ hex_digit hi ∷ hex_digit lo ∷ hex_text rest
unfolding hex_text
pair_text hi lo rest h l =
    let high : (hi * 16 + lo) / 16 ≡ hi = omega (arith, h, l) in
    let low : (hi * 16 + lo) % 16 ≡ lo = omega (arith, h, l) in rw (high, low) refl

hex_bytes-Printed :
    (text hash : Bytes)
    → hex_bytes text ≡ some hash
    → (length text ≡ 2 * length hash) × Printed text hash
unfolding hex_bytes hex_text
hex_bytes-Printed [] hash h =
    subst (λ hash. (length {A = ℕ} [] ≡ 2 * length hash) × Printed [] hash)
      (some-injective [] hash h) (omega arith, (tt, refl))
hex_bytes-Printed (c ∷ []) hash h = absurd (none-ne-some hash h)
hex_bytes-Printed (c ∷ d ∷ cs) hash h =
    let parts = byte_of-some (nibble c) (nibble d) (hex_bytes cs) hash h in
    let hi = nibble-some c parts.0 parts.3 in
    let lo = nibble-some d parts.1 parts.4 in
    let ih = hex_bytes-Printed cs parts.2 parts.5 in
    subst (λ hash. (length (c ∷ d ∷ cs) ≡ 2 * length hash) × Printed (c ∷ d ∷ cs) hash)
      (sym parts.6)
      (
        omega (arith, ih.0),
        (
          (omega (arith, hi.0, lo.0), ih.1.0),
          rw (hi.1, lo.1, ih.1.1) (sym (pair_text parts.0 parts.1 parts.2 hi.0 lo.0)),
        ),
      )

nibble_printed : (c n : ℕ) → n < 16 → small c ≡ hex_digit n → nibble c ≡ some n
nibble_printed c n h e = sym (nibble-small c) ∙ ap nibble e ∙ nibble_digit n h

Printed-hex_bytes : (text hash : Bytes) → Printed text hash → hex_bytes text ≡ some hash
unfolding hex_bytes hex_text
Printed-hex_bytes [] [] p = refl
Printed-hex_bytes [] (x ∷ xs) p = absurd (cons≢nil (sym p.1))
Printed-hex_bytes (c ∷ cs) [] p = absurd (cons≢nil p.1)
Printed-hex_bytes (c ∷ []) (x ∷ xs) p = absurd (cons≢nil (sym (tail-eq_of_cons-eq p.1)))
Printed-hex_bytes (c ∷ d ∷ cs) (x ∷ xs) p =
    let more = tail-eq_of_cons-eq p.1 in
    let hi = nibble_printed c (x / 16) (omega (arith, p.0.0)) (head-eq_of_cons-eq p.1) in
    let lo = nibble_printed d (x % 16) (omega arith) (head-eq_of_cons-eq more) in
    let rest = Printed-hex_bytes cs xs (p.0.1, tail-eq_of_cons-eq more) in
    let whole : x / 16 * 16 + x % 16 ≡ x = omega arith in
    rw (hi, lo, rest) (ap (λ x. some (x ∷ xs)) whole)

-- A hash literal is accepted exactly if it is the printing of a hash of 32 bytes in two hexadecimal
-- digits each, up to the case of A to F, and then it gives that hash.
pub hash_literal_iff :
    (text hash : Bytes) → (hash_literal text ≡ some hash) ↔ ((length hash ≡ 32) × Printed text hash)
unfolding hash_literal
hash_literal_iff text hash = (accepted_text, printed_text)
  where
    accepted_text : hash_literal text ≡ some hash → (length hash ≡ 32) × Printed text hash
    accepted_text h =
        if_cases (λ x. x ≡ some hash → (length hash ≡ 32) × Printed text hash) (length text == 64)
          (hex_bytes text) none
          (λ size h.
            let p = hex_bytes-Printed text hash h in
            (omega (arith, p.0, (==_iff (length text) 64).0 size), p.1))
          (λ _ h. absurd (none-ne-some hash h)) h

    printed_text : (length hash ≡ 32) × Printed text hash → hash_literal text ≡ some hash
    printed_text (size, p) =
        let bytes = Printed-hex_bytes text hash p in
        let long : (length text == 64) ≡ true =
          (==_iff (length text) 64).1
            (omega (arith, size, (hex_bytes-Printed text hash bytes).0)) in
        rw (long) bytes
