-- ===== src/Ratio/Digits.antt =====
-- One digit of the long division, on both of its paths.
use ngx_brotli.Base.{
  u64, ℕ, zero, suc, ◌+◌, ◌-◌, ◌*◌, ◌/◌, ◌%◌, ◌^◌, ◌≤◌, ◌<◌, ◌≡◌, ap, sym, ◌∙◌, leb, arith,
  Bool-cases, dec_lt, inl, inr,
}
use mathlib.Core.Path.{ap₂}
use native.Mathlib.Nat.{div-eq_of_lt-le, mod-eq-sub-div-mul, div-lt_iff_lt-mul}
use ngx_brotli.Ratio.{peel_step, peel, digit_step}

-- The sum of two numbers below the divisor, reduced: the wrap of the sum is caught by `acc < remainder`.
peel_step_over :
    (out r acc d : ℕ)
    → out < 2 ^ 64
    → r < out
    → acc < out
    → d < 16
    → out ≤ acc + r
    → peel_step out r (acc, d) ≡ (acc + r - out, d + 1)
unfolding peel_step
peel_step_over out r acc d h hr ha hd e = ground arith

peel_step_under :
    (out r acc d : ℕ)
    → out < 2 ^ 64
    → r < out
    → acc + r < out
    → peel_step out r (acc, d) ≡ (acc + r, d)
unfolding peel_step
peel_step_under out r acc d h hr e = ground arith

-- `acc` and `digit` hold the remainder and the quotient of `m`.
abbrev pub Splits : ℕ → ℕ → ℕ × ℕ → Type 0
Splits out m s = (s.0 < out) × (s.0 + s.1 * out ≡ m)

peel_step-Splits :
    (out r acc d m : ℕ)
    → out < 2 ^ 64
    → r < out
    → d < 16
    → Splits out m (acc, d)
    → Splits out (m + r) (peel_step out r (acc, d)) × ((peel_step out r (acc, d)).1 ≤ d + 1)
peel_step-Splits out r acc d m h hr hd s = elim (dec_lt (acc + r) out) [
  | yes e ↦ rw (peel_step_under out r acc d h hr e) ((omega arith, omega (arith, s.1)), omega arith)
  | no e ↦
      rw (peel_step_over out r acc d h hr s.0 hd (omega arith))
        ((omega (arith, s.0), omega (arith, s.1)), omega arith)
]

peel-Splits :
    (n out r acc d m : ℕ)
    → out < 2 ^ 64
    → r < out
    → d + n < 16
    → Splits out m (acc, d)
    → Splits out (m + n * r) (peel out r n (acc, d))
unfolding peel
peel-Splits zero out r acc d m h hr hd s = (s.0, omega (arith, s.1))
peel-Splits (suc n) out r acc d m h hr hd s =
    let next = peel_step out r (acc, d) in
    let k = peel_step-Splits out r acc d m h hr (omega arith) s in
    let t = peel-Splits n out r next.0 next.1 (m + r) h hr (omega (arith, k.1)) k.0 in
    (t.0, omega (arith, t.1))

-- Quotient and remainder are determined.
pub Splits-div-mod : (out m : ℕ) (s : ℕ × ℕ) → Splits out m s → (m / out ≡ s.1) × (m % out ≡ s.0)
Splits-div-mod out m (a, d) h =
    let q : m / out ≡ d = div-eq_of_lt-le out (omega (arith, h.1)) (omega (arith, h.0, h.1)) in
    (q, mod-eq-sub-div-mul m out ∙ rw q (omega (arith, h.1)))

pub digit-lt : (out r : ℕ) → r < out → r * 10 / out < 10
digit-lt out r h = (div-lt_iff_lt-mul {k = out} {x = r * 10} {y = 10} (omega arith)).1 (omega arith)

-- Either path gives the next digit of the quotient and the remainder behind it.
pub digit_step_lem :
    (out r frac : ℕ)
    → out < 2 ^ 64
    → r < out
    → frac < 100
    → digit_step out (r, frac) ≡ (r * 10 % out, frac * 10 + r * 10 / out)
unfolding digit_step
digit_step_lem out r frac h hr hf = elim (Bool-cases (leb r ((2 ^ 64 - 1) / 10))) [
  | inl e ↦
      let fits : u64 (r * 10) ≡ r * 10 = ground arith in
      rw (e, fits) (ap (λ (f : ℕ). (r * 10 % out, f)) (omega (arith, digit-lt out r hr)))
  | inr e ↦
      let t = peel out r 9 (r, 0) in
      let k = peel-Splits 9 out r r 0 r h hr (omega arith) (hr, omega arith) in
      let u = Splits-div-mod out (r * 10) t (k.0, omega (arith, k.1)) in
      rw e (ap₂ (λ (a f : ℕ). (a, f)) (sym u.1) (omega (arith, digit-lt out r hr, u.0)))
]
