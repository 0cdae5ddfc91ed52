-- ===== src/Loading/Records.antt =====
-- The two ordering records of a load: what it means that they are not set.
use mathlib.Core.Bool.{false≢true}
use mathlib.Core.Option.{some-injective}
use ngx_brotli.Base.{
  if_cases, if_both, if-none, ◌≡◌, refl, ap, sym, ◌∙◌, Bool, true, false, not, ◌&&◌, ◌||◌, Bytes,
  Option, none, some, if◌then◌else◌,
}
use ngx_brotli.Loading.Accepts.{recorded_main, accepted-injective, check-accepted, need-accepted}
use ngx_brotli.Loading.Hex.{hash_literal}
use ngx_brotli.Loading.Load.{
  Main, init_main_conf, is_on, or_off, recorded, first_of, record_loaded, record_verified,
  has_literal, literal_of, hash_of, computed, count_hashed,
}
use ngx_brotli.Loading.{accepted}

-- Setting the hash changes no flag and no ordering record.
abbrev pub Same : Main → Main → Type 0
Same m m' =
    (m'.dict_loaded_before_strict_on ≡ m.dict_loaded_before_strict_on)
    × (m'.dcb_dict_verified_before_trust_on ≡ m.dcb_dict_verified_before_trust_on)
    × (m'.dcb_dict_trust_hashes ≡ m.dcb_dict_trust_hashes)

pub computed-Same :
    (hash : Option Bytes) (digest key : Bytes) (m m' : Main)
    → computed hash digest m ≡ accepted (key, m')
    → Same m m'
computed-Same hash digest key m m' h =
    let same =
      ap (λ (x : Bytes × Main). x.1)
        (accepted-injective (digest, count_hashed m) (key, m') (check-accepted h).1) in
    (
      sym (ap (λ (m : Main). m.dict_loaded_before_strict_on) same),
      sym (ap (λ (m : Main). m.dcb_dict_verified_before_trust_on) same),
      sym (ap (λ (m : Main). m.dcb_dict_trust_hashes) same),
    )

pub hash_of-Same :
    (trust : Bool) (hash : Option Bytes) (digest key : Bytes) (m m' : Main)
    → hash_of trust hash digest m ≡ accepted (key, m')
    → Same m m'
hash_of-Same true (some hash) digest key m m' h =
    let same = ap (λ (x : Bytes × Main). x.1) (accepted-injective (hash, m) (key, m') h) in
    (
      sym (ap (λ (m : Main). m.dict_loaded_before_strict_on) same),
      sym (ap (λ (m : Main). m.dcb_dict_verified_before_trust_on) same),
      sym (ap (λ (m : Main). m.dcb_dict_trust_hashes) same),
    )
hash_of-Same true none digest key m m' h = computed-Same none digest key m m' h
hash_of-Same false hash digest key m m' h = computed-Same hash digest key m m' h

pub first_of-recorded : (old : Option Bytes) (path : Bytes) → recorded (first_of old path) ≡ true
first_of-recorded none path = refl
first_of-recorded (some file) path = refl

pub verified-loaded :
    (path : Bytes) (hash : Option Bytes) (m : Main)
    → (record_verified hash path m).dict_loaded_before_strict_on ≡ m.dict_loaded_before_strict_on
verified-loaded path hash m =
    if_both (λ (m' : Main). m'.dict_loaded_before_strict_on ≡ m.dict_loaded_before_strict_on)
      (has_literal hash && not (is_on m.dcb_dict_trust_hashes))
      (record m {
        dcb_dict_verified_before_trust_on = first_of m.dcb_dict_verified_before_trust_on path;
      })
      m refl refl

-- A load that is not recorded ran under "on", and no load before it was recorded.
pub unrecorded :
    (path : Bytes) (hash : Option Bytes) (m : Main)
    → recorded (recorded_main hash path m).dict_loaded_before_strict_on ≡ false
    → (is_on m.dict_strict_path ≡ true) × (recorded m.dict_loaded_before_strict_on ≡ false)
unrecorded path hash m h =
    if_cases
      (λ (m' : Main).
        recorded m'.dict_loaded_before_strict_on ≡ false
        → (is_on m.dict_strict_path ≡ true) × (recorded m.dict_loaded_before_strict_on ≡ false))
      (is_on m.dict_strict_path) m
      (record m { dict_loaded_before_strict_on = first_of m.dict_loaded_before_strict_on path })
      (λ on h. (on, h))
      (λ _ h. absurd (false≢true (sym h ∙ first_of-recorded m.dict_loaded_before_strict_on path)))
      (ap recorded (sym (verified-loaded path hash (record_loaded path m))) ∙ h)

-- Likewise for a literal that is verified.
pub unverified :
    (path : Bytes) (hash : Option Bytes) (m : Main)
    → recorded (recorded_main hash path m).dcb_dict_verified_before_trust_on ≡ false
    → ((has_literal hash && not (is_on m.dcb_dict_trust_hashes)) ≡ false)
      × (recorded m.dcb_dict_verified_before_trust_on ≡ false)
unverified path hash m h =
    if_both
      (λ (m1 : Main).
        recorded (record_verified hash path m1).dcb_dict_verified_before_trust_on ≡ false
        → ((has_literal hash && not (is_on m.dcb_dict_trust_hashes)) ≡ false)
          × (recorded m.dcb_dict_verified_before_trust_on ≡ false))
      (is_on m.dict_strict_path) m
      (record m { dict_loaded_before_strict_on = first_of m.dict_loaded_before_strict_on path })
      (clear m.dict_loaded_before_strict_on) (clear (first_of m.dict_loaded_before_strict_on path))
      h
  where
    clear :
        (loaded : Option Bytes)
        → recorded
            (record_verified hash path (record m {
              dict_loaded_before_strict_on = loaded;
            })).dcb_dict_verified_before_trust_on
          ≡ false
        → ((has_literal hash && not (is_on m.dcb_dict_trust_hashes)) ≡ false)
          × (recorded m.dcb_dict_verified_before_trust_on ≡ false)
    clear loaded =
        let m1 = record m { dict_loaded_before_strict_on = loaded } in
        if_cases
          (λ (m' : Main).
            recorded m'.dcb_dict_verified_before_trust_on ≡ false
            → ((has_literal hash && not (is_on m.dcb_dict_trust_hashes)) ≡ false)
              × (recorded m.dcb_dict_verified_before_trust_on ≡ false))
          (has_literal hash && not (is_on m.dcb_dict_trust_hashes))
          (record m1 {
            dcb_dict_verified_before_trust_on = first_of m.dcb_dict_verified_before_trust_on path;
          })
          m1
          (λ _ h.
            absurd
              (false≢true (sym h ∙ first_of-recorded m.dcb_dict_verified_before_trust_on path)))
          (λ off h. (off, h))

pub strict-conditions :
    (a b : Bool) → (not true || (not a && not b)) ≡ true → (a ≡ false) × (b ≡ false)
strict-conditions false false h = (refl, refl)
strict-conditions false true h = absurd (false≢true h)
strict-conditions true b h = absurd (false≢true h)

pub literal-has_literal :
    (text hash : Option Bytes)
    → literal_of text ≡ accepted hash
    → has_literal hash ≡ has_literal text
literal-has_literal none hash h = sym (ap has_literal (accepted-injective none hash h))
literal-has_literal (some t) hash h =
    let n = need-accepted {o = hash_literal t} {f = λ h. accepted (some h)} h in
    sym (ap has_literal (accepted-injective (some n.0) hash n.2))

-- What an accepted main configuration says of its flags.
pub init_main_conf-some :
    (m m' : Main)
    → init_main_conf m ≡ some m'
    → (is_on m'.dict_strict_path ≡ true → recorded m.dict_loaded_before_strict_on ≡ false)
      × (is_on m'.dcb_dict_trust_hashes ≡ true
          → recorded m.dcb_dict_verified_before_trust_on ≡ false)
unfolding init_main_conf
init_main_conf-some m m' h =
    let strict = or_off m.dict_strict_path in
    let trust = or_off m.dcb_dict_trust_hashes in
    let end = record m { dict_strict_path = strict; dcb_dict_trust_hashes = trust } in
    let first =
      if-none (is_on strict && recorded m.dict_loaded_before_strict_on)
        (if is_on trust && recorded m.dcb_dict_verified_before_trust_on then none else some end) m'
        h in
    let second =
      if-none (is_on trust && recorded m.dcb_dict_verified_before_trust_on) (some end) m' first.1 in
    let same = some-injective end m' second.1 in
    (
      λ on.
          guarded (is_on strict) (recorded m.dict_loaded_before_strict_on)
            (ap (λ (m : Main). is_on m.dict_strict_path) same ∙ on) first.0,
      λ on.
          guarded (is_on trust) (recorded m.dcb_dict_verified_before_trust_on)
            (ap (λ (m : Main). is_on m.dcb_dict_trust_hashes) same ∙ on) second.0,
    )
  where
    guarded : (a b : Bool) → a ≡ true → (a && b) ≡ false → b ≡ false
    guarded true b h k = k
    guarded false b h k = absurd (false≢true h)
