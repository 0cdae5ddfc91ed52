-- ===== src/Window/Tuned.antt =====
-- The window for a response of known length is the smallest that holds it, within the configured one.
use ngx_brotli.Base.{
  ℕ, zero, suc, ◌+◌, ◌-◌, ◌^◌, ◌≤◌, ◌<◌, ◌≡◌, refl, subst, true, false, some, arith, ltb, dec_lt,
  ◌⊎◌, inl, inr,
}
use ngx_brotli.Window.{widen, window_bits}

-- Between the start and the configured window; it holds the content or is the configured one, and
-- the window before it does not hold the content, or it is the start.
abbrev pub Fits : ℕ → ℕ → ℕ → ℕ → Type 0
Fits lg_win content_length start w =
    (start ≤ w)
    × (w ≤ lg_win)
    × ((w ≡ lg_win) ⊎ (content_length ≤ 2 ^ w))
    × ((w ≡ start) ⊎ (2 ^ (w - 1) < content_length))

Fits-later :
    (lg_win content_length start w : ℕ)
    → 2 ^ start < content_length
    → Fits lg_win content_length (start + 1) w
    → Fits lg_win content_length start w
Fits-later lg_win content_length start w small (low, high, holds, (inl e)) = (
  omega (arith, low),
  high,
  holds,
  inr (subst (λ v. 2 ^ v < content_length) (omega (arith, e)) small),
)
Fits-later lg_win content_length start w small (low, high, holds, (inr least)) =
    (omega (arith, low), high, holds, inr least)

widen-Fits :
    (n lg_win content_length wbits : ℕ)
    → lg_win ≡ wbits + n
    → Fits lg_win content_length wbits (widen n lg_win content_length wbits)
unfolding widen
widen-Fits zero lg_win content_length wbits e =
    (omega arith, omega (arith, e), inl (omega (arith, e)), inl refl)
widen-Fits (suc n) lg_win content_length wbits e = elim (dec_lt (2 ^ wbits) content_length) [
  | yes small ↦
      let below : ltb wbits lg_win ≡ true = ground (arith, e) in
      let test : ltb (2 ^ wbits) content_length ≡ true = ground (arith, small) in
      rw (below, test)
        (Fits-later lg_win content_length wbits _ small
          (widen-Fits n lg_win content_length (wbits + 1) (omega (arith, e))))
  | no fits ↦
      let below : ltb wbits lg_win ≡ true = ground (arith, e) in
      let test : ltb (2 ^ wbits) content_length ≡ false = ground (arith, fits) in
      rw (below, test) (omega arith, omega (arith, e), inr (omega (arith, fits)), inl refl)
]

-- For a content of known length above zero, with a configured window of at least 10 bits, the loop
-- ends at a window between 10 bits and the configured one: it holds the content or is the configured
-- one, and it has 10 bits or the window of one bit less does not hold the content.
pub window_bits-Fits :
    (lg_win content_length : ℕ)
    → 10 ≤ lg_win
    → 0 < content_length
    → Fits lg_win content_length 10 (window_bits lg_win (some content_length))
unfolding window_bits
window_bits-Fits lg_win content_length h k =
    let test : ltb 0 content_length ≡ true = ground (arith, k) in
    rw (test) (widen-Fits (lg_win - 10) lg_win content_length 10 (omega (arith, h)))
