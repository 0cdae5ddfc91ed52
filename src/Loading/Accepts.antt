-- ===== src/Loading/Accepts.antt =====
-- What an accepted brotli_dcb_dict_file has passed, guard by guard.
use mathlib.Core.Bool.{false≢true}
use ngx_brotli.Base.{
  if_both, ℕ, ◌≡◌, refl, ap, sym, ◌∙◌, Bool, true, false, not, ◌&&◌, Bytes, List, [], ◌∷◌, ◌++◌,
  Option, none, some, ◌==◌, leb, length,
}
use ngx_brotli.Dcb.{Dict}
use ngx_brotli.Loading.Load.{
  Main, is_on, literal_of, record_loaded, record_verified, max_dict_size, strict_file, hash_of,
  has_hash, dicts_of, first_of, has_literal, open_dict, load_file, dcb_dict_file,
}
use ngx_brotli.Loading.Read.{read_dict_file}
use ngx_brotli.Loading.{System, FdInfo, Result, refused, unfinished, accepted, check, need, behind}
use ngx_brotli.Sha256.{sha256}

abbrev value_or : {A : Type 0} → A → Result A → A
value_or a refused = a
value_or a unfinished = a
value_or a (accepted b) = b

abbrev is_accepted : {A : Type 0} → Result A → Bool
is_accepted refused = false
is_accepted unfinished = false
is_accepted (accepted a) = true

pub accepted-injective : {A : Type 0} (a b : A) → accepted a ≡ accepted b → a ≡ b
accepted-injective a b h = ap (value_or a) h

pub refused-ne-accepted : {A : Type 0} (a : A) → refused ≡ accepted a → ⊥
refused-ne-accepted a h = false≢true (ap is_accepted h)

pub check-accepted :
    {A : Type 0} {b : Bool} {x : Result A} {a : A}
    → check b x ≡ accepted a
    → (b ≡ true) × (x ≡ accepted a)
check-accepted {b = true} h = (refl, h)
check-accepted {b = false} {a} h = absurd (refused-ne-accepted a h)

pub need-accepted :
    {A B : Type 0} {o : Option A} {f : A → Result B} {b : B}
    → need o f ≡ accepted b
    → (a : A) × (o ≡ some a) × (f a ≡ accepted b)
need-accepted {o = none} {b} h = absurd (refused-ne-accepted b h)
need-accepted {o = some a} h = (a, refl, h)

pub behind-accepted :
    {A B : Type 0} {x : Result A} {f : A → Result B} {b : B}
    → behind x f ≡ accepted b
    → (a : A) × (x ≡ accepted a) × (f a ≡ accepted b)
behind-accepted {x = refused} {b} h = absurd (refused-ne-accepted b h)
behind-accepted {x = unfinished} h = absurd (false≢true (ap is_accepted h))
behind-accepted {x = accepted a} h = (a, refl, h)

-- The state behind the ordering records of a load.
abbrev pub recorded_main : Option Bytes → Bytes → Main → Main
recorded_main hash path m = record_verified hash path (record_loaded path m)

loaded-strict :
    (path : Bytes) (m : Main) → (record_loaded path m).dict_strict_path ≡ m.dict_strict_path
loaded-strict path m =
    if_both (λ (m' : Main). m'.dict_strict_path ≡ m.dict_strict_path) (is_on m.dict_strict_path) m
      (record m { dict_loaded_before_strict_on = first_of m.dict_loaded_before_strict_on path })
      refl refl

pub recorded_main-strict :
    (hash : Option Bytes) (path : Bytes) (m : Main)
    → (recorded_main hash path m).dict_strict_path ≡ m.dict_strict_path
recorded_main-strict hash path m =
    let m1 = record_loaded path m in
    if_both (λ (m' : Main). m'.dict_strict_path ≡ m.dict_strict_path)
      (has_literal hash && not (is_on m1.dcb_dict_trust_hashes))
      (record m1 {
        dcb_dict_verified_before_trust_on = first_of m1.dcb_dict_verified_before_trust_on path;
      })
      m1 (loaded-strict path m) (loaded-strict path m)

module _ {D F : Type 0} (sys : System D F) (fuel : ℕ) where
  pub record Passed (m : Main) (ds : List Dict) (path : Bytes) (hash : Option Bytes) (m' : Main)
      (ds' : List Dict) : Type 0 where
    pub fd : F
    pub is_open : open_dict sys (is_on m.dict_strict_path) path ≡ some fd
    pub info : FdInfo
    pub has_info : sys.fd_info fd ≡ some info
    pub regular : info.is_file ≡ true
    pub strict : strict_file sys (is_on m.dict_strict_path) info ≡ true
    pub bounded : leb info.size max_dict_size ≡ true
    pub non_empty : not (info.size == 0) ≡ true
    pub bytes : Bytes
    pub read : read_dict_file sys fuel (sys.clear_nonblock fd) info.size ≡ accepted bytes
    pub whole : (length bytes == info.size) ≡ true
    pub key : Bytes
    pub keyed :
        hash_of
          (is_on (recorded_main hash path m).dcb_dict_trust_hashes)
          hash
          (sha256 sys.evp bytes)
          (recorded_main hash path m)
        ≡ accepted (key, m')
    pub fresh : not (has_hash key ds) ≡ true
    pub kept : ds' ≡ ds ++ record { file = path; bytes = bytes; hash = key } ∷ []

  load_file-Passed :
      (m : Main) (ds : List Dict) (path : Bytes) (hash : Option Bytes) (m' : Main) (ds' : List Dict)
      (fd : F) (info : FdInfo)
      → open_dict sys (is_on m.dict_strict_path) path ≡ some fd
      → sys.fd_info fd ≡ some info
      → load_file sys fuel (recorded_main hash path m) ds path hash fd info ≡ accepted (m', ds')
      → Passed m ds path hash m' ds'
  load_file-Passed m ds path hash m' ds' fd info o i h =
      let m1 = recorded_main hash path m in
      let h1 = check-accepted h in
      let h2 = check-accepted h1.1 in
      let h3 = check-accepted h2.1 in
      let h4 = check-accepted h3.1 in
      let h5 = check-accepted h4.1 in
      let h6 = check-accepted h5.1 in
      let r = behind-accepted h6.1 in
      let h7 = check-accepted r.2 in
      let h8 = check-accepted h7.1 in
      let k = behind-accepted h8.1 in
      let h9 = check-accepted k.2 in
      let same =
        accepted-injective (k.0.1, ds ++ record { file = path; bytes = r.0; hash = k.0.0 } ∷ [])
          (m', ds') h9.1 in
      record {
        fd = fd;
        is_open = o;
        info = info;
        has_info = i;
        regular = h1.0;
        strict =
            sym (ap (λ s. strict_file sys (is_on s) info) (recorded_main-strict hash path m))
            ∙ h2.0;
        bounded = h3.0;
        non_empty = h4.0;
        bytes = r.0;
        read = r.1;
        whole = h7.0;
        key = k.0.0;
        keyed = k.1 ∙ ap (λ x. accepted (k.0.0, x)) (ap (λ (x : Main × List Dict). x.0) same);
        fresh = h9.0;
        kept = sym (ap (λ (x : Main × List Dict). x.1) same);
      }

  -- A directive that is accepted.
  pub record Accepted (name : Bytes) (text : Option Bytes) (m : Main) (dicts : Option (List Dict))
      (m' : Main) (ds' : List Dict) : Type 0 where
    pub path : Bytes
    pub has_path : sys.full_name name ≡ some path
    pub hash : Option Bytes
    pub literal : literal_of text ≡ accepted hash
    pub passed : Passed m (dicts_of dicts) path hash m' ds'

  pub dcb_dict_file-Accepted :
      (name : Bytes) (text : Option Bytes) (m : Main) (dicts : Option (List Dict)) (m' : Main)
      (ds' : List Dict)
      → dcb_dict_file sys fuel name text m dicts ≡ accepted (m', ds')
      → Accepted name text m dicts m' ds'
  unfolding dcb_dict_file
  dcb_dict_file-Accepted name text m dicts m' ds' h =
      let p = need-accepted h in
      let l = behind-accepted p.2 in
      let c = check-accepted l.2 in
      let o = need-accepted c.1 in
      let i = need-accepted o.2 in
      record {
        path = p.0;
        has_path = p.1;
        hash = l.0;
        literal = l.1;
        passed = load_file-Passed m (dicts_of dicts) p.0 l.0 m' ds' o.0 i.0 o.1 i.1 i.2;
      }
