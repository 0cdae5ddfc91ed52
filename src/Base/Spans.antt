-- ===== src/Base/Spans.antt =====
-- The scan `while (p < end && test(*p)) p++`: what it passes over, and where it stops.
use Prim.Native.Nat.{ℕ, ◌≤◌}
use mathlib.Core.Path.{◌≡◌, refl}
use mathlib.Core.Bool.{Bool, true, false}
use mathlib.Core.List.{[], ◌∷◌, ◌++◌}
use native.Mathlib.Omega.{arith}
use ngx_brotli.Base.Tests.{if◌then◌else◌}
use ngx_brotli.Base.Lists.{Bytes, length, All}

unfoldable pub drop_while : (ℕ → Bool) → Bytes → Bytes
drop_while test [] = []
drop_while test (c ∷ cs) = if test c then drop_while test cs else c ∷ cs

unfoldable pub take_while : (ℕ → Bool) → Bytes → Bytes
take_while test [] = []
take_while test (c ∷ cs) = if test c then c ∷ take_while test cs else []

-- The first byte fails the test, or there is none.
abbrev pub Stops : (ℕ → Bool) → Bytes → Type 0
Stops test [] = Unit
Stops test (c ∷ cs) = test c ≡ false

module _ (test : ℕ → Bool) where
  pub length-drop_while-le : (p : Bytes) → length (drop_while test p) ≤ length p
  unfolding drop_while
  length-drop_while-le [] = omega arith
  length-drop_while-le (c ∷ cs) = ground (arith, length-drop_while-le cs)

  pub drop_while-Stops : (p : Bytes) → Stops test (drop_while test p)
  unfolding drop_while
  drop_while-Stops [] = tt
  drop_while-Stops (c ∷ cs) = ground (arith, drop_while-Stops cs)

  pub drop_while_stop : (p : Bytes) → Stops test p → drop_while test p ≡ p
  unfolding drop_while
  drop_while_stop [] h = refl
  drop_while_stop (c ∷ cs) h = ground arith

  pub take_while_stop : (p : Bytes) → Stops test p → take_while test p ≡ []
  unfolding take_while
  take_while_stop [] h = refl
  take_while_stop (c ∷ cs) h = ground arith

  pub drop_while-append :
      (xs rest : Bytes)
      → All (λ c. test c ≡ true) xs
      → Stops test rest
      → drop_while test (xs ++ rest) ≡ rest
  unfolding drop_while
  drop_while-append [] rest a h = drop_while_stop rest h
  drop_while-append (x ∷ xs) rest a h = ground (arith, drop_while-append xs rest a.1 h)

  pub take_while-append :
      (xs rest : Bytes)
      → All (λ c. test c ≡ true) xs
      → Stops test rest
      → take_while test (xs ++ rest) ≡ xs
  unfolding take_while
  take_while-append [] rest a h = take_while_stop rest h
  take_while-append (x ∷ xs) rest a h = ground (arith, take_while-append xs rest a.1 h)
