-- ===== src/Fuzz/Names.antt =====
-- The oracle's tests for "br" and "*" against the walker's, on tokens and on names that are none.
use ngx_brotli.Base.{
  ℕ, zero, suc, ◌<◌, ◌≡◌, refl, Bool, true, false, not, ◌&&◌, Bytes, [], ◌∷◌, ◌++◌, arith, ◌==◌,
  length-append, if_cases, leb, codes, All, inl, inr, Bool-cases, if◌then◌else◌, bit_or, drop_while,
  take_while,
}
use ngx_brotli.AcceptEncoding.Scan.{lower, strncase_eq, same_name}
use ngx_brotli.AcceptEncoding.Walk.{in_coding_name, is_star_name}
use ngx_brotli.Fuzz.Scans.{is_token_byte, is_br_name}

all_below : ℕ → (ℕ → Bool) → Bool
all_below zero test = true
all_below (suc n) test = test n && all_below n test

all_below_sound :
    (n : ℕ) (test : ℕ → Bool) (x : ℕ) → all_below n test ≡ true → x < n → test x ≡ true
unfolding all_below
all_below_sound zero test x h l = absurd (omega arith)
all_below_sound (suc n) test x h l = ground (arith, all_below_sound n test x)

-- Both fold the letters' case in the same way.
abbrev folds : ℕ → ℕ → Bool
folds letter x =
    if lower x == letter
    then bit_or x 0x20 == letter
    else not (is_token_byte x && bit_or x 0x20 == letter)

folds_table : (all_below 128 (folds b'b') ≡ true) × (all_below 128 (folds b'r') ≡ true)
unfolding all_below lower
folds_table = (refl, refl)

token_byte-lt : (c : ℕ) → is_token_byte c ≡ true → c < 128
token_byte-lt c h = ground arith

same_letter :
    (letter c : ℕ)
    → all_below 128 (folds letter) ≡ true
    → is_token_byte c ≡ true
    → (lower c == letter) ≡ (bit_or c 0x20 == letter)
same_letter letter c table h =
    ground (arith, all_below_sound 128 (folds letter) c table (token_byte-lt c h))

pub is_br_name-same_name :
    (name : Bytes)
    → All (λ c. is_token_byte c ≡ true) name
    → is_br_name name ≡ same_name name (codes "br")
unfolding is_br_name same_name strncase_eq
is_br_name-same_name [] a = refl
is_br_name-same_name (c ∷ []) a = refl
is_br_name-same_name (c ∷ d ∷ []) a =
    ground (arith, same_letter b'b' c folds_table.0 a.0, same_letter b'r' d folds_table.1 a.1.0)
is_br_name-same_name (c ∷ d ∷ e ∷ es) a = ground arith

not_letter :
    (letter c : ℕ)
    → (leb b'a' letter && leb letter b'z') ≡ true
    → is_token_byte c ≡ false
    → (lower c == letter) ≡ false
unfolding lower
not_letter letter c l h = ground arith

-- A name with a byte that is no token byte.
pub other_name-not_br :
    (name : Bytes) (c : ℕ) (cs : Bytes)
    → is_token_byte c ≡ false
    → same_name (name ++ (c ∷ cs)) (codes "br") ≡ false
unfolding same_name strncase_eq
other_name-not_br [] c [] h = refl
other_name-not_br [] c (d ∷ []) h = ground (arith, not_letter b'b' c refl h)
other_name-not_br [] c (d ∷ e ∷ es) h = ground arith
other_name-not_br (x ∷ []) c [] h = ground (arith, not_letter b'r' c refl h)
other_name-not_br (x ∷ []) c (d ∷ ds) h = ground arith
other_name-not_br (x ∷ y ∷ zs) c cs h = ground (arith, length-append zs (c ∷ cs))

pub other_name-not_star :
    (x : ℕ) (xs : Bytes) (c : ℕ) (cs : Bytes) → is_star_name ((x ∷ xs) ++ (c ∷ cs)) ≡ false
other_name-not_star x [] c cs = refl
other_name-not_star x (y ∷ ys) c cs = refl

pub take_while-token : (p : Bytes) → All (λ c. is_token_byte c ≡ true) (take_while is_token_byte p)
unfolding take_while
take_while-token [] = tt
take_while-token (c ∷ cs) =
    if_cases (All λ c. is_token_byte c ≡ true) (is_token_byte c) _ _ (λ e. (e, take_while-token cs))
      (λ e. tt)

token_byte-in_coding_name : (c : ℕ) → is_token_byte c ≡ true → in_coding_name c ≡ true
token_byte-in_coding_name c h = ground arith

-- The walker's name begins with the oracle's token.
pub coding_name-token :
    (p : Bytes)
    → (take_while in_coding_name p
        ≡ take_while is_token_byte p ++ take_while in_coding_name (drop_while is_token_byte p))
      × (drop_while in_coding_name p ≡ drop_while in_coding_name (drop_while is_token_byte p))
unfolding take_while drop_while
coding_name-token [] = (refl, refl)
coding_name-token (c ∷ cs) = elim (Bool-cases (is_token_byte c)) [
  | inl e ↦
      let (t, d) = coding_name-token cs in
      (rw (e, token_byte-in_coding_name c e, t), rw (e, token_byte-in_coding_name c e, d))
  | inr e ↦ (rw e, rw e)
]
