-- ===== src/Loading/Safe.antt =====
-- What strict_path asks of a directory, of a file and of a component, apart from the code's tests.
use mathlib.Core.Bool.{false≢true, true≢false}
use mathlib.Core.List.{head-eq_of_cons-eq, tail-eq_of_cons-eq, cons≢nil}
use mathlib.Core.Option.{}
use ngx_brotli.Base.{
  ℕ, ◌<◌, ◌≡◌, ◌≢◌, ◌↔◌, ◌⊎◌, inl, inr, refl, ap, sym, ◌∙◌, Bool, true, false, not, ◌&&◌, ◌||◌,
  Bytes, [], ◌∷◌, Option, none, some, ◌==◌, ==_iff, leb, length, codes, bit_and, arith, Bool-cases,
  or_false,
}
use ngx_brotli.Loading.Walk.{shared_write, is_dots, foreign, safe_info, check_strict_dir}
use ngx_brotli.Loading.{System, DirInfo}

-- No write permission for the group or for others: the bits of 0022 are clear.
abbrev pub Private : ℕ → Type 0
Private mode = bit_and mode 0x12 ≡ 0

pub shared_write_iff : (mode : ℕ) → (shared_write mode ≡ false) ↔ Private mode
shared_write_iff mode = by_bits (bit_and mode 0x12)
  where
    by_bits : (n : ℕ) → (not (n == 0) ≡ false) ↔ (n ≡ 0)
    by_bits n = (λ h. ground arith, λ h. ground arith)

-- A component that is the directory itself, or its parent.
pub is_dots_iff :
    (comp : Bytes) → (is_dots comp ≡ false) ↔ ((comp ≢ codes ".") × (comp ≢ codes ".."))
is_dots_iff [] = (λ h. (λ e. cons≢nil (sym e), λ e. cons≢nil (sym e)), λ h. refl)
is_dots_iff (c ∷ []) = (
  λ h. (
    λ e. true≢false (sym ((==_iff c b'.').1 (head-eq_of_cons-eq e)) ∙ h),
    λ e. cons≢nil (sym (tail-eq_of_cons-eq e)),
  ),
  λ (one, two). elim (Bool-cases (c == b'.')) [
    | inl dot ↦ absurd (one (ap (λ c. c ∷ []) ((==_iff c b'.').0 dot)))
    | inr h ↦ h
  ],
)
is_dots_iff (c ∷ d ∷ []) = (
  λ h. (λ e. cons≢nil (tail-eq_of_cons-eq e), λ e. true≢false (sym (ap is_dots e) ∙ h)),
  λ (one, two). elim (Bool-cases (c == b'.' && d == b'.')) [
    | inl dots ↦ absurd (two (both c d dots))
    | inr h ↦ h
  ],
)
  where
    both : (c d : ℕ) → (c == b'.' && d == b'.') ≡ true → (c ∷ d ∷ []) ≡ codes ".."
    both c d h =
        let first : c ≡ b'.' = ground (arith, h) in
        let second : d ≡ b'.' = ground (arith, h) in
        ap (λ c. c ∷ d ∷ []) first ∙ ap (λ d. b'.' ∷ d ∷ []) second
is_dots_iff (c ∷ d ∷ e ∷ cs) = (
  λ h. (
    λ e. cons≢nil (tail-eq_of_cons-eq e),
    λ e. cons≢nil (tail-eq_of_cons-eq (tail-eq_of_cons-eq e)),
  ),
  λ h. refl,
)

module _ {D F : Type 0} (sys : System D F) where
  -- Root, or the one who loads.
  abbrev pub Owned : ℕ → Type 0
  Owned uid = (uid ≡ 0) ⊎ (uid ≡ sys.euid)

  pub foreign_iff : (uid : ℕ) → (foreign sys uid ≡ false) ↔ Owned uid
  foreign_iff uid = by_ids uid sys.euid
    where
      by_ids :
          (uid euid : ℕ)
          → ((not (uid == 0) && not (uid == euid)) ≡ false) ↔ ((uid ≡ 0) ⊎ (uid ≡ euid))
      by_ids uid euid = (λ h. ground (arith, h), λ h. ground (arith, h))

  -- A directory that only its owner writes, and a trusted owner.
  abbrev pub SafeDir : D → Type 0
  SafeDir d = (info : DirInfo) × (sys.dir_info d ≡ some info) × Owned info.uid × Private info.mode

  both_false : (a b : Bool) → (not a && not b) ≡ true → (a ≡ false) × (b ≡ false)
  both_false false false h = (refl, refl)
  both_false false true h = absurd (false≢true h)
  both_false true b h = absurd (false≢true h)

  SafeDir-check : (d : D) → SafeDir d → check_strict_dir sys d ≡ true
  unfolding check_strict_dir
  SafeDir-check d (info, e, owned, private) =
      let a = (foreign_iff info.uid).1 owned in
      let b = (shared_write_iff info.mode).1 private in ap (safe_info sys) e ∙ rw (a, b) refl

  check-SafeDir : (d : D) → check_strict_dir sys d ≡ true → SafeDir d
  unfolding check_strict_dir
  check-SafeDir d h = found (sys.dir_info d) refl h
    where
      found : (x : Option DirInfo) → sys.dir_info d ≡ x → safe_info sys x ≡ true → SafeDir d
      found none e h = absurd (false≢true h)
      found (some info) e h =
          let s = both_false (foreign sys info.uid) (shared_write info.mode) h in
          (info, e, (foreign_iff info.uid).0 s.0, (shared_write_iff info.mode).0 s.1)

  pub check_strict_dir_iff : (d : D) → (check_strict_dir sys d ≡ true) ↔ SafeDir d
  check_strict_dir_iff d = (check-SafeDir d, SafeDir-check d)

  -- A component that may be opened: it fits the buffer, and it is not "." or "..".
  abbrev pub Proper : Bytes → Type 0
  Proper comp = (length comp < sys.max_path) × (comp ≢ codes ".") × (comp ≢ codes "..")

  pub guard_iff :
      (comp : Bytes) → ((leb sys.max_path (length comp) || is_dots comp) ≡ false) ↔ Proper comp
  guard_iff comp = (
    λ h.
        let p = or_false (leb sys.max_path (length comp)) (is_dots comp) h in
        let dots = (is_dots_iff comp).0 p.1 in
        (fits sys.max_path (length comp) p.0, dots.0, dots.1),
    λ (less, one, two).
        let dots = (is_dots_iff comp).1 (one, two) in
        let short = under sys.max_path (length comp) less in rw (short, dots) refl,
  )
    where
      fits : (m n : ℕ) → leb m n ≡ false → n < m
      fits m n h = ground (arith, h)

      under : (m n : ℕ) → n < m → leb m n ≡ false
      under m n h = ground (arith, h)
