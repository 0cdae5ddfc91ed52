-- ===== src/Loading/Keys.antt =====
-- Where the hash of a loaded dictionary comes from.

use mathlib.Core.Option.{some-injective, none-ne-some}
use ngx_brotli.Base.{
  if_both, ℕ, ◌≡◌, refl, ap, sym, ◌∙◌, Bool, true, false, not, ◌&&◌, Bytes, List, [], ◌∷◌, ◌++◌,
  Option, none, some, ◌==◌, ==_iff, length, arith, ◌⊎◌, inl, inr, leb, ◌≤◌, ◌≢◌,
}
use ngx_brotli.Dcb.Granted.{same_bytes_eq}
use ngx_brotli.Dcb.{Dict}
use ngx_brotli.Loading.Accepts.{
  recorded_main, dcb_dict_file-Accepted, accepted-injective, check-accepted, need-accepted,
}
use ngx_brotli.Loading.Hex.{hash_literal}
use ngx_brotli.Loading.Load.{
  Main, is_on, has_literal, first_of, record_loaded, literal_of, equals_literal, max_dict_size,
  hash_of, computed, count_hashed, dicts_of, dcb_dict_file,
}
use ngx_brotli.Loading.{System, accepted}
use ngx_brotli.Sha256.{sha256}

loaded-trust :
    (path : Bytes) (m : Main)
    → (record_loaded path m).dcb_dict_trust_hashes ≡ m.dcb_dict_trust_hashes
loaded-trust path m =
    if_both (λ (m' : Main). m'.dcb_dict_trust_hashes ≡ m.dcb_dict_trust_hashes)
      (is_on m.dict_strict_path) m
      (record m { dict_loaded_before_strict_on = first_of m.dict_loaded_before_strict_on path })
      refl refl

pub recorded_main-trust :
    (hash : Option Bytes) (path : Bytes) (m : Main)
    → (recorded_main hash path m).dcb_dict_trust_hashes ≡ m.dcb_dict_trust_hashes
recorded_main-trust hash path m =
    let m1 = record_loaded path m in
    if_both (λ (m' : Main). m'.dcb_dict_trust_hashes ≡ m.dcb_dict_trust_hashes)
      (has_literal hash && not (is_on m1.dcb_dict_trust_hashes))
      (record m1 {
        dcb_dict_verified_before_trust_on = first_of m1.dcb_dict_verified_before_trust_on path;
      })
      m1 (loaded-trust path m) (loaded-trust path m)

-- The hash is the digest, or a trusted literal; and a literal that is given is the hash.
abbrev Sourced : Bool → Option Bytes → Bytes → Bytes → Type 0
Sourced trust hash digest key =
    ((key ≡ digest) ⊎ ((trust ≡ true) × (hash ≡ some key)))
    × ((h : Bytes) → hash ≡ some h → key ≡ h)

literal_equals :
    (hash : Option Bytes) (digest : Bytes)
    → equals_literal hash digest ≡ true
    → (h : Bytes) → hash ≡ some h
    → digest ≡ h
literal_equals none digest e h k = absurd (none-ne-some h k)
literal_equals (some hash) digest e h k =
    sym (same_bytes_eq hash digest e) ∙ some-injective hash h k

computed-Sourced :
    (trust : Bool) (hash : Option Bytes) (digest key : Bytes) (m m' : Main)
    → computed hash digest m ≡ accepted (key, m')
    → Sourced trust hash digest key
computed-Sourced trust hash digest key m m' h =
    let c = check-accepted h in
    let same : digest ≡ key =
      ap (λ (x : Bytes × Main). x.0) (accepted-injective (digest, count_hashed m) (key, m') c.1) in
    (inl (sym same), λ h k. sym same ∙ literal_equals hash digest c.0 h k)

hash_of-Sourced :
    (trust : Bool) (hash : Option Bytes) (digest key : Bytes) (m m' : Main)
    → hash_of trust hash digest m ≡ accepted (key, m')
    → Sourced trust hash digest key
hash_of-Sourced true (some hash) digest key m m' h =
    let same : hash ≡ key =
      ap (λ (x : Bytes × Main). x.0) (accepted-injective (hash, m) (key, m') h) in
    (inr (refl, ap some same), λ h k. sym same ∙ some-injective hash h k)
hash_of-Sourced true none digest key m m' h = computed-Sourced true none digest key m m' h
hash_of-Sourced false hash digest key m m' h = computed-Sourced false hash digest key m m' h

literal_given :
    (text hash : Option Bytes) (t : Bytes)
    → literal_of text ≡ accepted hash
    → text ≡ some t
    → (h : Bytes) × (hash ≡ some h) × (hash_literal t ≡ some h)
literal_given none hash t h e = absurd (none-ne-some t e)
literal_given (some u) hash t h e =
    let n = need-accepted {o = hash_literal u} {f = λ h. accepted (some h)} h in
    (
      n.0,
      sym (accepted-injective (some n.0) hash n.2),
      ap hash_literal (sym (some-injective u t e)) ∙ n.1,
    )

-- The dictionary that an accepted directive adds.
pub record Added {D F : Type 0} (sys : System D F) (text : Option Bytes) (m : Main)
    (ds ds' : List Dict) : Type 0 where
  pub dict : Dict
  pub added : ds' ≡ ds ++ dict ∷ []
  pub hashed :
      (dict.hash ≡ sha256 sys.evp dict.bytes)
      ⊎ ((is_on m.dcb_dict_trust_hashes ≡ true) × (literal_of text ≡ accepted (some dict.hash)))
  pub literal : (t : Bytes) → text ≡ some t → hash_literal t ≡ some dict.hash
  pub non_empty : length dict.bytes ≢ 0
  pub bounded : length dict.bytes ≤ max_dict_size

-- An accepted directive adds one dictionary, of between 1 byte and 10 MB. A literal that is given is
-- the dictionary's hash; the hash is the SHA-256 of the bytes, unless trust_hashes reads on and a
-- literal is given.
pub dcb_dict_file-Added :
    {D F : Type 0} (sys : System D F) (fuel : ℕ) (name : Bytes) (text : Option Bytes) (m : Main)
    (dicts : Option (List Dict)) (m' : Main) (ds' : List Dict)
    → dcb_dict_file sys fuel name text m dicts ≡ accepted (m', ds')
    → Added sys text m (dicts_of dicts) ds'
dcb_dict_file-Added sys fuel name text m dicts m' ds' call =
    let a = dcb_dict_file-Accepted sys fuel name text m dicts m' ds' call in
    let p = a.passed in
    let m1 = recorded_main a.hash a.path m in
    let s =
      hash_of-Sourced (is_on m1.dcb_dict_trust_hashes) a.hash (sha256 sys.evp p.bytes) p.key m1 m'
        p.keyed in
    let whole = (==_iff (length p.bytes) p.info.size).0 p.whole in
    record {
      dict = record { file = a.path; bytes = p.bytes; hash = p.key };
      added = p.kept;
      hashed = elim s.0 [
        | inl digest ↦ inl digest
        | inr (trust, given) ↦ inr (
          ap is_on (sym (recorded_main-trust a.hash a.path m)) ∙ trust,
          a.literal ∙ ap accepted given,
        )
      ];
      literal = λ t e.
          let g = literal_given text a.hash t a.literal e in g.2 ∙ ap some (sym (s.1 g.0 g.1));
      non_empty = λ z. some_bytes p.info.size p.non_empty (sym whole ∙ z);
      bounded = fits p.info.size (length p.bytes) max_dict_size p.bounded whole;
    }
  where
    some_bytes : (n : ℕ) → not (n == 0) ≡ true → n ≡ 0 → ⊥
    some_bytes n h z = ground (arith, h, z)

    fits : (n k limit : ℕ) → leb n limit ≡ true → k ≡ n → k ≤ limit
    fits n k limit h e = ground (arith, h, e)
