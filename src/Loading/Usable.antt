-- ===== src/Loading/Usable.antt =====
-- What a brotli_dcb_dict_file directive needs, and that it is then accepted.
use mathlib.Core.Bool.{false≢true}
use ngx_brotli.Base.{
  if_cases, ℕ, zero, suc, ◌+◌, ◌-◌, ◌≤◌, ◌<◌, ◌≡◌, refl, ap, subst, ◌∙◌, Bool, true, false, not,
  ◌||◌, Bytes, List, [], ◌∷◌, ◌++◌, Option, none, some, ◌==◌, ==_iff, arith, leb, ltb, length, ◌⊎◌,
  inl, inr,
}
use ngx_brotli.Dcb.{Dict}
use ngx_brotli.Loading.Accepts.{recorded_main, recorded_main-strict}
use ngx_brotli.Loading.Load.{
  Main, is_on, literal_of, max_dict_size, strict_file, hash_of, equals_literal, count_hashed,
  has_hash, dicts_of, is_unset, open_dict, keep, load_file, dcb_dict_file,
}
use ngx_brotli.Loading.Keys.{recorded_main-trust}
use ngx_brotli.Loading.Read.{after_read, read_loop, read_dict_file}
use ngx_brotli.Loading.Reads.{ReadLaws, read_dict_file-take, take-more}
use ngx_brotli.Loading.{
  System, Reading, failed, interrupted, got, FdInfo, Result, refused, unfinished, accepted, check,
  behind,
}
use ngx_brotli.Sha256.{sha256}

-- The hash that a dictionary is kept under: a trusted literal, or the digest.
abbrev pub key_of : Bool → Option Bytes → Bytes → Bytes
key_of true (some hash) digest = hash
key_of true none digest = digest
key_of false hash digest = digest

-- The main configuration behind it: a computed hash is counted.
abbrev pub main_of : Bool → Option Bytes → Main → Main
main_of true (some hash) m = m
main_of true none m = count_hashed m
main_of false hash m = count_hashed m

hash_of-key_of :
    (trust : Bool) (hash : Option Bytes) (digest : Bytes) (m : Main)
    → (trust ≡ true) ⊎ (equals_literal hash digest ≡ true)
    → hash_of trust hash digest m ≡ accepted (key_of trust hash digest, main_of trust hash m)
hash_of-key_of true (some hash) digest m h = refl
hash_of-key_of true none digest m h = refl
hash_of-key_of false hash digest m (inl h) = absurd (false≢true h)
hash_of-key_of false hash digest m (inr h) = rw h

check-true : {A : Type 0} {b : Bool} {x : Result A} → b ≡ true → check b x ≡ x
check-true h = rw h

behind_rule :
    {A B : Type 0} {x : Result A} {a : A} (f : A → Result B) → x ≡ accepted a → behind x f ≡ f a
behind_rule f h = rw h

not-false : {b : Bool} → b ≡ false → not b ≡ true
not-false h = rw h

leb-true : {m n : ℕ} → m ≤ n → leb m n ≡ true
leb-true h = ground arith

not-zero : {n : ℕ} → 0 < n → not (n == 0) ≡ true
not-zero h = ground arith

abbrev NotRefused : Result Bytes → Type 0
NotRefused refused = ⊥
NotRefused unfinished = Unit
NotRefused (accepted bytes) = Unit

module _ {D F : Type 0} (sys : System D F) where
  -- No read fails.
  abbrev pub Readable : Type 0
  Readable = (fd fd' : F) (n : ℕ) → sys.read_fd fd n ≡ (failed, fd') → ⊥

  read_loop-NotRefused :
      (fuel size : ℕ) (done : Bytes) (fd : F)
      → Readable
      → NotRefused (read_loop sys fuel size done fd)
  unfolding read_loop
  read_loop-NotRefused zero size done fd h = tt
  read_loop-NotRefused (suc fuel) size done fd h =
      let n = size - length done in
      if_cases NotRefused (ltb (length done) size)
        (after_read (read_loop sys fuel size) done (sys.read_fd fd n)) (accepted done)
        (λ _.
          next (read_loop sys fuel size) (sys.read_fd fd n) refl (read_loop-NotRefused fuel size))
        (λ _. tt)
    where
      next :
          (rounds : Bytes → F → Result Bytes) (x : Reading × F)
          → sys.read_fd fd (size - length done) ≡ x
          → ((done' : Bytes) (fd' : F) → Readable → NotRefused (rounds done' fd'))
          → NotRefused (after_read rounds done x)
      next rounds (failed, fd') e ih = absurd (h fd fd' (size - length done) e)
      next rounds (interrupted, fd') e ih = ih done fd' h
      next rounds (got [], fd') e ih = tt
      next rounds (got (c ∷ cs), fd') e ih = ih (done ++ c ∷ cs) fd' h

  -- Reads that do not fail give the whole file.
  read_dict_file-rest :
      (laws : ReadLaws sys) (fuel : ℕ) (fd : F) (size : ℕ)
      → Readable
      → size + laws.patience fd < fuel
      → length (laws.rest fd) ≡ size
      → read_dict_file sys fuel fd size ≡ accepted (laws.rest fd)
  unfolding read_dict_file
  read_dict_file-rest laws fuel fd size h less whole =
      elim (read_dict_file-take laws fuel fd size less) [
        | inl e ↦ absurd (subst NotRefused e (read_loop-NotRefused fuel size [] fd h))
        | inr e ↦ e ∙ ap accepted (take-more size (laws.rest fd) (omega (arith, whole)))
      ]

  -- A directive with a file that can be used: what the file system says of it, what the directive's
  -- hash says, and allocations and a close that succeed.
  pub record Usable (laws : ReadLaws sys) (fuel : ℕ) (name : Bytes) (text : Option Bytes) (m : Main)
      (dicts : Option (List Dict)) : Type 0 where
    pub path : Bytes
    pub has_path : sys.full_name name ≡ some path
    pub hash : Option Bytes
    pub literal : literal_of text ≡ accepted hash
    pub fd : F
    pub is_open : open_dict sys (is_on m.dict_strict_path) path ≡ some fd
    pub info : FdInfo
    pub has_info : sys.fd_info fd ≡ some info
    pub regular : info.is_file ≡ true
    pub strict : strict_file sys (is_on m.dict_strict_path) info ≡ true
    pub whole : length (laws.rest (sys.clear_nonblock fd)) ≡ info.size
    pub non_empty : 0 < info.size
    pub bounded : info.size ≤ max_dict_size
    pub readable : Readable
    pub fuelled : info.size + laws.patience (sys.clear_nonblock fd) < fuel
    pub matches :
        (is_on m.dcb_dict_trust_hashes ≡ true)
        ⊎ (equals_literal hash (sha256 sys.evp (laws.rest (sys.clear_nonblock fd))) ≡ true)
    pub fresh :
        has_hash
          (key_of
            (is_on m.dcb_dict_trust_hashes)
            hash
            (sha256 sys.evp (laws.rest (sys.clear_nonblock fd))))
          (dicts_of dicts)
        ≡ false
    pub allocates :
        ((not (is_unset dicts) || sys.array_created) ≡ true)
        × (sys.dict_pushed ≡ true)
        × (sys.bytes_allocated ≡ true)
    pub closes : sys.close_file fd ≡ true

-- What the directive makes of a usable file.
module _ {D F : Type 0} {sys : System D F} {laws : ReadLaws sys} {fuel : ℕ} {name : Bytes}
    {text : Option Bytes} {m : Main} {dicts : Option (List Dict)}
    (u : Usable sys laws fuel name text m dicts) where
  abbrev pub loaded_bytes : Bytes
  loaded_bytes = laws.rest (sys.clear_nonblock u.fd)

  abbrev pub loaded_key : Bytes
  loaded_key = key_of (is_on m.dcb_dict_trust_hashes) u.hash (sha256 sys.evp loaded_bytes)

  abbrev pub loaded_dicts : List Dict
  loaded_dicts =
      dicts_of dicts ++ record { file = u.path; bytes = loaded_bytes; hash = loaded_key } ∷ []

  keep-Usable :
      (m1 : Main)
      → is_on m1.dcb_dict_trust_hashes ≡ is_on m.dcb_dict_trust_hashes
      → keep sys m1 (dicts_of dicts) u.path u.hash loaded_bytes
        ≡ accepted (main_of (is_on m.dcb_dict_trust_hashes) u.hash m1, loaded_dicts)
  keep-Usable m1 trust =
      let trusted = is_on m.dcb_dict_trust_hashes in
      let digest = sha256 sys.evp loaded_bytes in
      let kept = hash_of-key_of trusted u.hash digest m1 u.matches in
      behind_rule _ (ap (λ b. hash_of b u.hash digest m1) trust ∙ kept)
      ∙ check-true (not-false u.fresh)

  load_file-Usable :
      (m1 : Main)
      → is_on m1.dict_strict_path ≡ is_on m.dict_strict_path
      → is_on m1.dcb_dict_trust_hashes ≡ is_on m.dcb_dict_trust_hashes
      → load_file sys fuel m1 (dicts_of dicts) u.path u.hash u.fd u.info
        ≡ accepted (main_of (is_on m.dcb_dict_trust_hashes) u.hash m1, loaded_dicts)
  load_file-Usable m1 strict trust =
      check-true u.regular
      ∙ check-true (ap (λ s. strict_file sys s u.info) strict ∙ u.strict)
      ∙ check-true (leb-true u.bounded)
      ∙ check-true (not-zero u.non_empty)
      ∙ check-true u.allocates.1
      ∙ check-true u.allocates.2
      ∙ behind_rule _ (
          read_dict_file-rest sys laws fuel (sys.clear_nonblock u.fd) u.info.size u.readable
            u.fuelled u.whole)
      ∙ check-true ((==_iff (length loaded_bytes) u.info.size).1 u.whole)
      ∙ check-true u.closes
      ∙ keep-Usable m1 trust

  -- A directive with a usable file is accepted: it adds the file's bytes under the trusted literal or
  -- else their SHA-256, behind the dictionaries that were there.
  pub dcb_dict_file-Usable :
      dcb_dict_file sys fuel name text m dicts
      ≡ accepted (
        main_of (is_on m.dcb_dict_trust_hashes) u.hash (recorded_main u.hash u.path m),
        loaded_dicts,
      )
  unfolding dcb_dict_file
  dcb_dict_file-Usable =
      let loaded =
        load_file-Usable (recorded_main u.hash u.path m)
          (ap is_on (recorded_main-strict u.hash u.path m))
          (ap is_on (recorded_main-trust u.hash u.path m)) in
      rw (u.has_path, u.literal, u.allocates.0, u.is_open, u.has_info) loaded
