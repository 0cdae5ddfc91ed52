-- ===== src/Loading/Parse.antt =====
-- The directives of one configuration in order, and what the ordering records guard.

use ngx_brotli.Base.{ℕ, ◌≡◌, Bool, true, Bytes, List, [], ◌∷◌, Option, none, some}
use ngx_brotli.Dcb.{Dict}
use ngx_brotli.Loading.Load.{Main, create_main_conf, dcb_dict_file}
use ngx_brotli.Loading.{System, accepted}

-- One brotli_dcb_dict_file that was accepted: the file system it met, its arguments, and the main
-- configuration as the directive found it.
pub record Line (D F : Type 0) : Type 0 where
  pub sys : System D F
  pub name : Bytes
  pub text : Option Bytes
  pub found : Main

-- The main configuration behind some directives, and the dictionaries loaded so far, the last one
-- first. `ngx_conf_set_flag_slot` refuses a flag that is set already.
pub data Parsed (D F : Type 0) : Main → List (Line D F) → Type 0 where
  start : Parsed D F create_main_conf []
  strict_path :
      {m : Main} {lines : List (Line D F)}
      → Parsed D F m lines
      → (b : Bool) → m.dict_strict_path ≡ none
      → Parsed D F (record m { dict_strict_path = some b }) lines
  trust_hashes :
      {m : Main} {lines : List (Line D F)}
      → Parsed D F m lines
      → (b : Bool) → m.dcb_dict_trust_hashes ≡ none
      → Parsed D F (record m { dcb_dict_trust_hashes = some b }) lines
  enable :
      {m : Main} {lines : List (Line D F)}
      → Parsed D F m lines
      → Parsed D F (record m { any_enabled = true }) lines
  dict_file :
      {m : Main} {lines : List (Line D F)}
      → Parsed D F m lines
      → (sys : System D F) (fuel : ℕ) (name : Bytes) (text : Option Bytes)
        (dicts : Option (List Dict)) (m' : Main) (ds' : List Dict)
      → dcb_dict_file sys fuel name text m dicts ≡ accepted (m', ds')
      → Parsed D F m' (record { sys = sys; name = name; text = text; found = m } ∷ lines)
