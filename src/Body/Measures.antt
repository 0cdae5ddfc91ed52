-- ===== src/Body/Measures.antt =====
-- The arithmetic of the main loop's measure.
use mathlib.Core.Bool.{}
use ngx_brotli.Base.{
  ℕ, suc, ◌+◌, ◌*◌, ◌<◌, ◌≤◌, ◌≡◌, Bool, true, false, List, ◌∷◌, arith, length, length-drop, drop,
  ◌==◌,
}
use ngx_brotli.Body.Laws.{}
use ngx_brotli.Body.Rounds.{}
use ngx_brotli.Body.Setup.{}
use ngx_brotli.Body.Sizes.{links_size, open_size}
use ngx_brotli.Body.Stream.{Piece}
use ngx_brotli.Dcb.{}

pub open_size-le : (b : Bool) → open_size b ≤ 1
open_size-le true = omega arith
open_size-le false = omega arith

-- What is fed in parts counts down, whatever the encoder does.
pub feeds_less : (a b c d : ℕ) → a < b → c ≤ 1 → 2 * a + c < 2 * b + d
feeds_less a b c d less small = omega (arith, less, small)

pub hands_less : (a b n : ℕ) → b + suc n ≤ a → 4 * b + (suc n + 2) < 4 * a + 0
hands_less a b n le = omega (arith, le)

pub part_less :
    {m : ℕ} (n : ℕ) (p : Piece) (rest : List Piece)
    → n ≤ length p.content
    → (n == 0) ≡ false
    → m ≡ links_size (p ∷ rest)
    → links_size (record p { content = drop n p.content } ∷ rest) < m
part_less n p rest fits some_taken size = let left = length-drop n p.content in ground (arith, left)
