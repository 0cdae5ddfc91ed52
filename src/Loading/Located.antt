-- ===== src/Loading/Located.antt =====
-- The dictionaries of the locations of one configuration: without trust_hashes each is known by the
-- SHA-256 of its bytes.
use mathlib.Core.Bool.{false≢true}
use ngx_brotli.Base.{
  ◌≡◌, refl, ap, sym, subst, ◌∙◌, false, List, [], ◌∷◌, Option, none, some, All, All-append, ◌⊎◌,
  inl, inr, ℕ, if-none, Bool,
}
use mathlib.Core.Option.{some-injective}
use ngx_brotli.Dcb.{Dict}
use ngx_brotli.Loading.Accepts.{recorded_main, dcb_dict_file-Accepted}
use ngx_brotli.Loading.Keys.{recorded_main-trust, dcb_dict_file-Added}
use ngx_brotli.Loading.Load.{Main, is_on, or_off, dicts_of, init_main_conf, dcb_dict_file}
use ngx_brotli.Loading.Parse.{Line, Parsed, start, strict_path, trust_hashes, enable, dict_file}
use ngx_brotli.Loading.Records.{hash_of-Same}
use ngx_brotli.Loading.{accepted}
use ngx_brotli.Sha256.Digest.{IsDigest, Computes, sha256-IsDigest}
use ngx_brotli.Sha256.{sha256}

or_off-is_on : (flag : Option Bool) → is_on (or_off flag) ≡ is_on flag
or_off-is_on none = refl
or_off-is_on (some b) = refl

init_main_conf-trust :
    (m m' : Main)
    → init_main_conf m ≡ some m'
    → is_on m'.dcb_dict_trust_hashes ≡ false
    → is_on m.dcb_dict_trust_hashes ≡ false
unfolding init_main_conf
init_main_conf-trust m m' h off =
    let first = if-none _ _ m' h in
    let second = if-none _ _ m' first.1 in
    sym (or_off-is_on m.dcb_dict_trust_hashes)
    ∙ ap (λ (x : Main). is_on x.dcb_dict_trust_hashes) (some-injective _ _ second.1)
    ∙ off

-- The hash of the dictionary is the SHA-256 of its bytes.
abbrev pub IsKeyed : Dict → Type 0
IsKeyed d = IsDigest d.bytes d.hash

module _ {D F : Type 0} where
  abbrev pub OneOf : Line D F → List (Line D F) → Type 0
  OneOf l [] = ⊥
  OneOf l (x ∷ xs) = (l ≡ x) ⊎ OneOf l xs

  All-OneOf :
      (P : Line D F → Type 0) (l : Line D F) (lines : List (Line D F))
      → All P lines
      → OneOf l lines
      → P l
  All-OneOf P l [] a h = absurd h
  All-OneOf P l (x ∷ xs) a (inl e) = subst P (sym e) a.0
  All-OneOf P l (x ∷ xs) a (inr h) = All-OneOf P l xs a.1 h

  -- The list of one location, which brotli_dcb_dict_file directives of the configuration built.
  pub data Located (lines : List (Line D F)) : Option (List Dict) → Type 0 where
    unset : Located lines none
    added :
        {dicts : Option (List Dict)}
        → Located lines dicts
        → (l : Line D F) → OneOf l lines
        → (fuel : ℕ) (m' : Main) (ds' : List Dict)
        → dcb_dict_file l.sys fuel l.name l.text l.found dicts ≡ accepted (m', ds')
        → Located lines (some ds')

  abbrev Untrusted : Line D F → Type 0
  Untrusted l = is_on l.found.dcb_dict_trust_hashes ≡ false

  abbrev pub HasLibcrypto : Line D F → Type 0
  HasLibcrypto l = Computes l.sys.evp

  -- The flag is set at most once, so where it does not end up on it was never on.
  Parsed-Untrusted :
      {m : Main} {lines : List (Line D F)}
      → Parsed D F m lines
      → is_on m.dcb_dict_trust_hashes ≡ false
      → All Untrusted lines
  Parsed-Untrusted start h = tt
  Parsed-Untrusted (strict_path k b clear) h = Parsed-Untrusted k h
  Parsed-Untrusted (trust_hashes k b clear) h = Parsed-Untrusted k (ap is_on clear)
  Parsed-Untrusted (enable k) h = Parsed-Untrusted k h
  Parsed-Untrusted (dict_file {m} {lines} k sys fuel name text dicts m' ds' call) h =
      let a = dcb_dict_file-Accepted sys fuel name text m dicts m' ds' call in
      let p = a.passed in
      let m1 = recorded_main a.hash a.path m in
      let same =
        hash_of-Same (is_on m1.dcb_dict_trust_hashes) a.hash (sha256 sys.evp p.bytes) p.key m1 m'
          p.keyed in
      let off = ap is_on (sym (same.2 ∙ recorded_main-trust a.hash a.path m)) ∙ h in
      (off, Parsed-Untrusted k off)

  Located-IsKeyed :
      {lines : List (Line D F)} {dicts : Option (List Dict)}
      → Located lines dicts
      → All Untrusted lines
      → All HasLibcrypto lines
      → All IsKeyed (dicts_of dicts)
  Located-IsKeyed unset u c = tt
  Located-IsKeyed {lines} (added {dicts} k l one fuel m' ds' call) u c =
      let a = dcb_dict_file-Added l.sys fuel l.name l.text l.found dicts m' ds' call in
      let computes = All-OneOf HasLibcrypto l lines c one in
      let digest : IsKeyed a.dict = elim a.hashed [
        | inl e ↦
            subst (IsDigest a.dict.bytes) (sym e) (sha256-IsDigest l.sys.evp a.dict.bytes computes)
        | inr (on, given) ↦ absurd (false≢true (sym (All-OneOf Untrusted l lines u one) ∙ on))
      ] in
      subst (All IsKeyed) (sym a.added)
        (All-append IsKeyed (dicts_of dicts) (a.dict ∷ []) (Located-IsKeyed k u c) (digest, tt))

  -- If the configuration is accepted and trust_hashes does not end up on, every dictionary of a
  -- location has the SHA-256 of its bytes for its hash, if libcrypto computes what it documents.
  pub Located-IsDigest :
      {m : Main} {lines : List (Line D F)} (m' : Main) {dicts : Option (List Dict)}
      → Parsed D F m lines
      → init_main_conf m ≡ some m'
      → is_on m'.dcb_dict_trust_hashes ≡ false
      → All HasLibcrypto lines
      → Located lines dicts
      → All IsKeyed (dicts_of dicts)
  Located-IsDigest {m} m' k h off c l =
      Located-IsKeyed l (Parsed-Untrusted k (init_main_conf-trust m m' h off)) c
