-- ===== src/Loading/Orders.antt =====
-- The dictionaries of a configuration, and the order of its directives.
use ngx_brotli.Base.{◌≡◌, ap, sym, ◌∙◌, true, false, not, ◌&&◌, Bytes, List, some, All}
use ngx_brotli.Loading.Accepts.{recorded_main, dcb_dict_file-Accepted}
use ngx_brotli.Loading.Load.{
  Main, init_main_conf, is_on, recorded, has_literal, strict_file, open_dict,
}
use ngx_brotli.Loading.Safe.{Owned, Private, foreign_iff, shared_write_iff}
use ngx_brotli.Loading.Trusted.{Vetted, open_dict_strict-Vetted}
use ngx_brotli.Loading.Walk.{foreign, shared_write}
use ngx_brotli.Sha256.{sha256}
use ngx_brotli.Loading.{FdInfo}
use ngx_brotli.Loading.Parse.{Line, Parsed, start, strict_path, trust_hashes, enable, dict_file}
use ngx_brotli.Loading.Records.{
  hash_of-Same, unrecorded, unverified, strict-conditions, literal-has_literal, init_main_conf-some,
}

module _ {D F : Type 0} where
  -- The line's dictionary was opened by the walk, and its file passed the two tests of strict_path.
  pub record Strict (l : Line D F) : Type 0 where
    pub path : Bytes
    pub has_path : l.sys.full_name l.name ≡ some path
    pub fd : F
    pub walked : Vetted l.sys path fd
    pub info : FdInfo
    pub has_info : l.sys.fd_info fd ≡ some info
    pub owned : Owned l.sys info.uid
    pub private_write : Private info.mode

  -- No unrecorded load escapes strict_path.
  Parsed-Strict :
      {m : Main} {lines : List (Line D F)}
      → Parsed D F m lines
      → recorded m.dict_loaded_before_strict_on ≡ false
      → All Strict lines
  Parsed-Strict start h = tt
  Parsed-Strict (strict_path k b unset) h = Parsed-Strict k h
  Parsed-Strict (trust_hashes k b unset) h = Parsed-Strict k h
  Parsed-Strict (enable k) h = Parsed-Strict k h
  Parsed-Strict (dict_file {m} {lines} k sys fuel name text dicts m' ds' call) h =
      let a = dcb_dict_file-Accepted sys fuel name text m dicts m' ds' call in
      let p = a.passed in
      let same =
        hash_of-Same (is_on (recorded_main a.hash a.path m).dcb_dict_trust_hashes) a.hash
          (sha256 sys.evp p.bytes) p.key (recorded_main a.hash a.path m) m' p.keyed in
      let u = unrecorded a.path a.hash m (ap recorded (sym same.0) ∙ h) in
      let file =
        strict-conditions (foreign sys p.info.uid) (shared_write p.info.mode)
          (ap (λ b. strict_file sys b p.info) (sym u.0) ∙ p.strict) in
      (
        record {
          path = a.path;
          has_path = a.has_path;
          fd = p.fd;
          walked =
              open_dict_strict-Vetted sys a.path p.fd
                (ap (λ b. open_dict sys b a.path) (sym u.0) ∙ p.is_open);
          info = p.info;
          has_info = p.has_info;
          owned = (foreign_iff sys p.info.uid).0 file.0;
          private_write = (shared_write_iff p.info.mode).0 file.1;
        },
        Parsed-Strict k u.1,
      )

  -- The line has no literal, or it was trusted.
  abbrev pub Trusting : Line D F → Type 0
  Trusting l = (has_literal l.text && not (is_on l.found.dcb_dict_trust_hashes)) ≡ false

  Parsed-Trusting :
      {m : Main} {lines : List (Line D F)}
      → Parsed D F m lines
      → recorded m.dcb_dict_verified_before_trust_on ≡ false
      → All Trusting lines
  Parsed-Trusting start h = tt
  Parsed-Trusting (strict_path k b unset) h = Parsed-Trusting k h
  Parsed-Trusting (trust_hashes k b unset) h = Parsed-Trusting k h
  Parsed-Trusting (enable k) h = Parsed-Trusting k h
  Parsed-Trusting (dict_file {m} {lines} k sys fuel name text dicts m' ds' call) h =
      let a = dcb_dict_file-Accepted sys fuel name text m dicts m' ds' call in
      let p = a.passed in
      let m1 = recorded_main a.hash a.path m in
      let same =
        hash_of-Same (is_on m1.dcb_dict_trust_hashes) a.hash (sha256 sys.evp p.bytes) p.key m1 m'
          p.keyed in
      let u = unverified a.path a.hash m (ap recorded (sym same.1) ∙ h) in
      (
        sym (
              ap (λ b. b && not (is_on m.dcb_dict_trust_hashes))
                (literal-has_literal text a.hash a.literal))
            ∙ u.0,
        Parsed-Trusting k u.1,
      )

  -- In whatever order the directives stand, if the configuration is accepted and strict_path ends up
  -- on, then every dictionary's path was opened by the vetted walk, and every dictionary's file belongs to root
  -- or to the loading principal and is not writable by group or other.
  pub init_main_conf-Strict :
      {m : Main} {lines : List (Line D F)} (m' : Main)
      → Parsed D F m lines
      → init_main_conf m ≡ some m'
      → is_on m'.dict_strict_path ≡ true
      → All Strict lines
  init_main_conf-Strict {m} m' k h on = Parsed-Strict k ((init_main_conf-some m m' h).0 on)

  -- Likewise, if trust_hashes ends up on, then every hash literal was trusted.
  pub init_main_conf-Trusting :
      {m : Main} {lines : List (Line D F)} (m' : Main)
      → Parsed D F m lines
      → init_main_conf m ≡ some m'
      → is_on m'.dcb_dict_trust_hashes ≡ true
      → All Trusting lines
  init_main_conf-Trusting {m} m' k h on = Parsed-Trusting k ((init_main_conf-some m m' h).1 on)
