-- ===== src/Loading/Load.antt =====
-- `ngx_http_brotli_dcb_dict_file`, `ngx_http_brotli_create_main_conf` and
-- `ngx_http_brotli_init_main_conf`.
use ngx_brotli.Base.{
  ℕ, suc, ◌*◌, Bool, true, false, not, ◌&&◌, ◌||◌, Bytes, List, [], ◌∷◌, ◌++◌, Option, none, some,
  ◌==◌, leb, length, if◌then◌else◌,
}
use ngx_brotli.Dcb.{Dict, same_bytes}
use ngx_brotli.Loading.Hex.{hash_literal}
use ngx_brotli.Loading.Read.{read_dict_file}
use ngx_brotli.Loading.Walk.{foreign, shared_write, open_dict_strict}
use ngx_brotli.Loading.{System, FdInfo, Result, accepted, check, need, behind}
use ngx_brotli.Sha256.{sha256}

-- `ngx_http_brotli_main_conf_t`. A flag is `none` where it is unset. The two ordering records hold
-- the flag together with its file. libcrypto's context is behind `evp`.
pub record Main : Type 0 where
  pub dict_strict_path : Option Bool
  pub dict_loaded_before_strict_on : Option Bytes
  pub dcb_dict_trust_hashes : Option Bool
  pub dcb_dict_verified_before_trust_on : Option Bytes
  pub dcb_dicts_hashed : ℕ
  pub any_enabled : Bool

-- `ngx_http_brotli_create_main_conf`.
abbrev pub create_main_conf : Main
create_main_conf = record {
  dict_strict_path = none;
  dict_loaded_before_strict_on = none;
  dcb_dict_trust_hashes = none;
  dcb_dict_verified_before_trust_on = none;
  dcb_dicts_hashed = 0;
  any_enabled = false;
}

-- The flag reads as the explicit "on".
abbrev pub is_on : Option Bool → Bool
is_on none = false
is_on (some b) = b

-- `ngx_conf_init_value` with the default 0.
abbrev pub or_off : Option Bool → Option Bool
or_off none = some false
or_off (some b) = some b

abbrev pub recorded : Option Bytes → Bool
recorded none = false
recorded (some file) = true

-- `ngx_http_brotli_init_main_conf`; `none` is NGX_CONF_ERROR.
unfoldable pub init_main_conf : Main → Option Main
init_main_conf m =
    let strict = or_off m.dict_strict_path in
    let trust = or_off m.dcb_dict_trust_hashes in
    if is_on strict && recorded m.dict_loaded_before_strict_on
    then none
    else if is_on trust && recorded m.dcb_dict_verified_before_trust_on
    then none
    else some (record m { dict_strict_path = strict; dcb_dict_trust_hashes = trust })

-- The optional second argument of the directive.
abbrev pub literal_of : Option Bytes → Result (Option Bytes)
literal_of none = accepted none
literal_of (some text) = need (hash_literal text) (λ hash. accepted (some hash))

abbrev pub first_of : Option Bytes → Bytes → Option Bytes
first_of none path = some path
first_of (some file) path = some file

-- The load runs while strict_path does not read "on".
abbrev pub record_loaded : Bytes → Main → Main
record_loaded path m =
    if is_on m.dict_strict_path
    then m
    else record m { dict_loaded_before_strict_on = first_of m.dict_loaded_before_strict_on path }

abbrev pub has_literal : Option Bytes → Bool
has_literal none = false
has_literal (some hash) = true

-- A literal is verified while trust_hashes does not read "on".
abbrev pub record_verified : Option Bytes → Bytes → Main → Main
record_verified hash path m =
    if has_literal hash && not (is_on m.dcb_dict_trust_hashes)
    then record m {
      dcb_dict_verified_before_trust_on = first_of m.dcb_dict_verified_before_trust_on path;
    }
    else m

-- 10 MB.
abbrev pub max_dict_size : ℕ
max_dict_size = 10 * 1024 * 1024

-- The two conditions of strict_path on the file itself.
abbrev pub strict_file : {D F : Type 0} → System D F → Bool → FdInfo → Bool
strict_file sys strict info =
    not strict || (not (foreign sys info.uid) && not (shared_write info.mode))

abbrev pub count_hashed : Main → Main
count_hashed m = record m { dcb_dicts_hashed = suc m.dcb_dicts_hashed }

abbrev pub equals_literal : Option Bytes → Bytes → Bool
equals_literal none digest = true
equals_literal (some hash) digest = same_bytes hash digest

-- The hash of the dictionary: computed, counted and compared, or trusted.
abbrev pub computed : Option Bytes → Bytes → Main → Result (Bytes × Main)
computed hash digest m = check (equals_literal hash digest) (accepted (digest, count_hashed m))

abbrev pub hash_of : Bool → Option Bytes → Bytes → Main → Result (Bytes × Main)
hash_of true (some hash) digest m = accepted (hash, m)
hash_of true none digest m = computed none digest m
hash_of false hash digest m = computed hash digest m

-- Whether a dictionary in front of the new one has its hash.
unfoldable pub has_hash : Bytes → List Dict → Bool
has_hash hash [] = false
has_hash hash (d ∷ ds) = same_bytes d.hash hash || has_hash hash ds

abbrev pub dicts_of : Option (List Dict) → List Dict
dicts_of none = []
dicts_of (some ds) = ds

abbrev pub is_unset : Option (List Dict) → Bool
is_unset none = true
is_unset (some ds) = false

module _ {D F : Type 0} (sys : System D F) where
  abbrev pub open_dict : Bool → Bytes → Option F
  open_dict true path = open_dict_strict sys path
  open_dict false path = sys.open_file path

  -- Behind the read: the file is closed, the hash is set, and a second dictionary with it refused.
  abbrev pub keep : Main → List Dict → Bytes → Option Bytes → Bytes → Result (Main × List Dict)
  keep m ds path hash bytes =
      behind (hash_of (is_on m.dcb_dict_trust_hashes) hash (sha256 sys.evp bytes) m) (λ (h, m').
        check (not (has_hash h ds))
          (accepted (m', ds ++ record { file = path; bytes = bytes; hash = h } ∷ [])))

  -- An open file.
  abbrev pub load_file :
      ℕ → Main → List Dict → Bytes → Option Bytes → F → FdInfo → Result (Main × List Dict)
  load_file fuel m ds path hash fd info = check info.is_file (
      check (strict_file sys (is_on m.dict_strict_path) info) (
        check (leb info.size max_dict_size) (
          check (not (info.size == 0)) (
            check sys.dict_pushed (
              check sys.bytes_allocated (
                behind (read_dict_file sys fuel (sys.clear_nonblock fd) info.size) (λ bytes.
                  check (length bytes == info.size)
                    (check (sys.close_file fd) (keep m ds path hash bytes)))))))))

  -- `ngx_http_brotli_dcb_dict_file`: the main configuration and the location's dictionaries.
  unfoldable pub dcb_dict_file :
      ℕ → Bytes → Option Bytes → Main → Option (List Dict) → Result (Main × List Dict)
  unfolding hash_literal open_dict_strict read_dict_file has_hash
  dcb_dict_file fuel name text m dicts = need (sys.full_name name) (λ path.
      behind (literal_of text) (λ hash. check (not (is_unset dicts) || sys.array_created) (
        let m' = record_verified hash path (record_loaded path m) in
        need (open_dict (is_on m.dict_strict_path) path) (λ fd.
          need (sys.fd_info fd) (λ info. load_file fuel m' (dicts_of dicts) path hash fd info)))))
