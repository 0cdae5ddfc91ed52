-- ===== src/Base/Bools.antt =====
-- The laws of guards: conjunctions, disjunctions and the conditional.
use mathlib.Core.Path.{◌≡◌, refl, sym}
use mathlib.Core.Bool.{Bool, true, false, ◌&&◌, ◌||◌, false≢true}
use ngx_brotli.Base.Tests.{if◌then◌else◌}

pub and-false : (b : Bool) → (b && false) ≡ false
and-false true = refl
and-false false = refl

-- A guard that a conjunct implies.
pub and_known : (a b c : Bool) → (b ≡ true → a ≡ true) → (a && (b && c)) ≡ (b && c)
and_known true b c h = refl
and_known false false c h = refl
and_known false true c h = absurd (false≢true (h refl))

pub and_left : (a b : Bool) → (a && b) ≡ true → a ≡ true
and_left true b h = refl
and_left false b h = h

-- So does it move as a link.
pub and_right : (a b : Bool) → (a && b) ≡ true → b ≡ true
and_right true b h = h
and_right false b h = absurd (false≢true h)

pub or-false : (b : Bool) → (b || false) ≡ b
or-false true = refl
or-false false = refl

pub or_false : (a b : Bool) → (a || b) ≡ false → (a ≡ false) × (b ≡ false)
or_false false false h = (refl, refl)
or_false false true h = absurd (false≢true (sym h))
or_false true b h = absurd (false≢true (sym h))

pub if_both {ℓ κ} :
    {A : Type ℓ} (P : A → Type κ) (b : Bool) (x y : A) → P x → P y → P (if b then x else y)
if_both P true x y hx hy = hx
if_both P false x y hx hy = hy

pub if_cases {ℓ κ} :
    {A : Type ℓ} (P : A → Type κ) (b : Bool) (x y : A)
    → (b ≡ true → P x)
    → (b ≡ false → P y)
    → P (if b then x else y)
if_cases P true x y hx hy = hx refl
if_cases P false x y hx hy = hy refl
