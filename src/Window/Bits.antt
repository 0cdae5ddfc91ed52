-- ===== src/Window/Bits.antt =====
-- `ngx_http_brotli_parse_wbits` accepts the powers of two between 1k and 16m.
use mathlib.Core.Option.{none-ne-some, some-injective}
use native.Mathlib.Nat.{pow-le-pow_right}
use ngx_brotli.Base.{
  ℕ, zero, suc, ◌+◌, ◌^◌, ◌≤◌, ◌<◌, ◌≡◌, refl, ap, sym, ◌∙◌, true, false, some, arith, ◌==◌, ==_iff,
  Bool-cases, inl, inr, ◌↔◌, dec_lt,
}
use ngx_brotli.Window.{find_bits, parse_wbits}

find_bits_sound :
    (left bits parameter b : ℕ)
    → find_bits left bits parameter ≡ some b
    → (bits ≤ b) × (b < bits + left) × (parameter ≡ 2 ^ b)
unfolding find_bits
find_bits_sound zero bits parameter b e = absurd (none-ne-some b e)
find_bits_sound (suc left) bits parameter b e = elim (Bool-cases (parameter == 2 ^ bits)) [
  | inl h ↦
      let same : bits ≡ b = some-injective bits b (sym (rw (h) refl) ∙ e) in
      (
        omega (arith, same),
        omega (arith, same),
        (==_iff parameter (2 ^ bits)).0 h ∙ ap (λ b. 2 ^ b) same,
      )
  | inr h ↦
      let (low, high, k) = find_bits_sound left (bits + 1) parameter b (sym (rw (h) refl) ∙ e) in
      (omega (arith, low), omega (arith, high), k)
]

two_pow-lt : (a b : ℕ) → a < b → 2 ^ a < 2 ^ b
two_pow-lt a b h =
    let up : 2 ^ suc a ≤ 2 ^ b = pow-le-pow_right (omega arith) h in
    let one : 2 ^ 0 ≤ 2 ^ a = pow-le-pow_right (omega arith) {i = 0} (omega arith) in
    omega (arith, up, one)

find_bits_complete :
    (left bits b : ℕ) → bits ≤ b → b < bits + left → find_bits left bits (2 ^ b) ≡ some b
unfolding find_bits
find_bits_complete zero bits b low high = absurd (omega (arith, low, high))
find_bits_complete (suc left) bits b low high = elim (dec_lt bits b) [
  | yes later ↦
      let above : 2 ^ bits < 2 ^ b = two_pow-lt bits b later in
      let test : (2 ^ b == 2 ^ bits) ≡ false = ground (arith, above) in
      rw (test) (find_bits_complete left (bits + 1) b (omega (arith, later)) (omega (arith, high)))
  | no same ↦
      let e : b ≡ bits = omega (arith, same, low) in
      let test : (2 ^ b == 2 ^ bits) ≡ true = (==_iff (2 ^ b) (2 ^ bits)).1 (ap (λ b. 2 ^ b) e) in
      rw (test) (ap some (sym e))
]

-- A size is accepted exactly if it is a power of two from 1k to 16m, and it becomes its exponent.
pub parse_wbits_iff :
    (parameter bits : ℕ)
    → (parse_wbits parameter ≡ some bits) ↔ ((10 ≤ bits) × (bits ≤ 24) × (parameter ≡ 2 ^ bits))
unfolding parse_wbits
parse_wbits_iff parameter bits = (
  λ e.
      let (low, high, same) = find_bits_sound 15 10 parameter bits e in
      (low, omega (arith, high), same),
  λ h. ap (find_bits 15 10) h.2 ∙ find_bits_complete 15 10 bits h.0 (omega (arith, h.1)),
)
