-- ===== src/Loading/Tests.antt =====
-- The loading of dictionaries on a concrete file system, and the theorems on it there.
use mathlib.Core.Bool.{false≢true}
use ngx_brotli.Base.{
  ℕ, suc, ◌+◌, ◌≡◌, ◌↔◌, ◌⊎◌, inl, refl, ap, sym, ◌∙◌, Bool, true, false, Bytes, [], ◌∷◌, ◌++◌,
  none, some, All, arith, length, take, drop, take-append-drop, length-take, replicate, codes,
}
use ngx_brotli.Dcb.{Dict, find_dict}
use ngx_brotli.Loading.Digits.{Printed, hash_literal_iff}
use ngx_brotli.Loading.Hex.{hash_literal}
use ngx_brotli.Loading.Keys.{Added, dcb_dict_file-Added}
use ngx_brotli.Loading.Listed.{Listed, unset, added, Listed-find_dict}
use ngx_brotli.Loading.Load.{Main, create_main_conf, init_main_conf, dcb_dict_file}
use ngx_brotli.Loading.Orders.{Strict, Trusting, init_main_conf-Strict, init_main_conf-Trusting}
use ngx_brotli.Loading.Parse.{Parsed, start, strict_path, trust_hashes, dict_file}
use ngx_brotli.Loading.Reaches.{open_dict_strict_iff}
use ngx_brotli.Loading.Read.{read_dict_file}
use ngx_brotli.Loading.Reads.{ReadLaws, read_dict_file-take}
use ngx_brotli.Loading.Trusted.{Vetted}
use ngx_brotli.Loading.Usable.{Usable, dcb_dict_file-Usable}
use ngx_brotli.Loading.Walk.{open_dict_strict}
use ngx_brotli.Loading.{System, Reading, failed, interrupted, got, refused, accepted}

abbrev seven_hash : Bytes
seven_hash = replicate 32 7

-- A file is the bytes from its offset on, a directory its depth; every file holds the same three
-- bytes.
abbrev pub files : System ℕ Bytes
files = record {
  euid = 33;
  max_path = 4096;
  full_name = λ name. some name;
  open_root = some 0;
  open_dir = λ d comp. some (d + 1);
  open_leaf = λ d comp. some (codes "abc");
  dir_info = λ d. some (record { uid = 0; mode = 493 });
  open_file = λ path. some (codes "abc");
  fd_info = λ fd. some (record { uid = 33; mode = 420; is_file = true; size = length fd });
  clear_nonblock = λ fd. fd;
  read_fd = λ fd n. (got (take n fd), drop n fd);
  close_file = λ fd. true;
  evp = λ bytes. some seven_hash;
  array_created = true;
  dict_pushed = true;
  bytes_allocated = true;
}

abbrev seven_text : Bytes
seven_text = codes "0707070707070707070707070707070707070707070707070707070707070707"

abbrev pub file_name : Bytes
file_name = codes "/srv//dict"

abbrev strict_main : Main
strict_main = record create_main_conf {
  dict_strict_path = some true;
  dcb_dict_trust_hashes = some true;
}

abbrev seven_dict : Dict
seven_dict = record { file = file_name; bytes = codes "abc"; hash = seven_hash }

loaded :
    dcb_dict_file files 9 file_name (some seven_text) strict_main none
    ≡ accepted (strict_main, seven_dict ∷ [])
unfolding dcb_dict_file
loaded = refl

abbrev bytes_of : Reading → Bytes
bytes_of failed = []
bytes_of interrupted = []
bytes_of (got xs) = xs

abbrev is_got : Reading → Bool
is_got failed = false
is_got interrupted = false
is_got (got xs) = true

no_more : (fd : Bytes) (n : ℕ) → take (suc n) fd ≡ [] → fd ≡ []
no_more [] n h = refl
no_more (x ∷ xs) n h = absurd (omega (arith, ap length h))

files_laws : ReadLaws files
files_laws = record {
  rest = λ fd. fd;
  patience = λ fd. 0;
  gives = λ fd fd' n xs h.
      let read = ap (λ (x : Reading × Bytes). bytes_of x.0) h in
      (
        sym (take-append-drop n fd)
            ∙ ap (λ c. c ++ drop n fd) read
            ∙ ap (λ (x : Reading × Bytes). xs ++ x.1) h,
        omega (arith, length-take n fd, ap length read),
        omega arith,
      );
  ends = λ fd fd' n h. no_more fd n (ap (λ (x : Reading × Bytes). bytes_of x.0) h);
  stays = λ fd fd' n h. absurd (false≢true (sym (ap (λ (x : Reading × Bytes). is_got x.0) h)));
}

strict-Parsed :
    Parsed ℕ Bytes strict_main
      (record { sys = files; name = file_name; text = some seven_text; found = strict_main } ∷ [])
strict-Parsed =
    dict_file (trust_hashes (strict_path start true refl) true refl) files 9 file_name
      (some seven_text) none strict_main (seven_dict ∷ []) loaded

strict-accepted : init_main_conf strict_main ≡ some strict_main
unfolding init_main_conf
strict-accepted = refl

open_dict_strict_iff_example :
    (open_dict_strict files file_name ≡ some (codes "abc")) ↔ Vetted files file_name (codes "abc")
open_dict_strict_iff_example = open_dict_strict_iff files file_name (codes "abc")

read_dict_file-take_example :
    (read_dict_file files 9 (codes "abc") 2 ≡ refused)
    ⊎ (read_dict_file files 9 (codes "abc") 2 ≡ accepted (take 2 (codes "abc")))
unfolding files_laws
read_dict_file-take_example = read_dict_file-take files_laws 9 (codes "abc") 2 (omega arith)

hash_literal_iff_example :
    (hash_literal seven_text ≡ some seven_hash)
    ↔ ((length seven_hash ≡ 32) × Printed seven_text seven_hash)
hash_literal_iff_example = hash_literal_iff seven_text seven_hash

init_main_conf-Strict_example :
    All Strict
      (record { sys = files; name = file_name; text = some seven_text; found = strict_main } ∷ [])
init_main_conf-Strict_example = init_main_conf-Strict strict_main strict-Parsed strict-accepted refl

init_main_conf-Trusting_example :
    All Trusting
      (record { sys = files; name = file_name; text = some seven_text; found = strict_main } ∷ [])
init_main_conf-Trusting_example =
    init_main_conf-Trusting strict_main strict-Parsed strict-accepted refl

seven-Listed : Listed ℕ Bytes (some (seven_dict ∷ []))
seven-Listed =
    added unset files 9 file_name (some seven_text) strict_main strict_main (seven_dict ∷ []) loaded

Listed-find_dict_example : find_dict seven_hash (seven_dict ∷ []) ≡ some seven_dict
Listed-find_dict_example = Listed-find_dict seven_dict seven-Listed (inl refl)

dcb_dict_file-Added_example : Added files (some seven_text) strict_main [] (seven_dict ∷ [])
dcb_dict_file-Added_example =
    dcb_dict_file-Added files 9 file_name (some seven_text) strict_main none strict_main
      (seven_dict ∷ []) loaded

-- A file that a directive can use: the three bytes under a trusted hash.
seven_usable : Usable files files_laws 9 file_name (some seven_text) strict_main none
unfolding dcb_dict_file files_laws
seven_usable = record {
  path = file_name;
  has_path = refl;
  hash = some seven_hash;
  literal = refl;
  fd = codes "abc";
  is_open = refl;
  info = record { uid = 33; mode = 420; is_file = true; size = 3 };
  has_info = refl;
  regular = refl;
  strict = refl;
  whole = refl;
  non_empty = omega arith;
  bounded = omega arith;
  readable = λ fd fd' n h. false≢true (sym (ap (λ (x : Reading × Bytes). is_got x.0) h));
  fuelled = omega arith;
  matches = inl refl;
  fresh = refl;
  allocates = (refl, refl, refl);
  closes = refl;
}

dcb_dict_file-Usable_example :
    dcb_dict_file files 9 file_name (some seven_text) strict_main none
    ≡ accepted (strict_main, seven_dict ∷ [])
unfolding dcb_dict_file files_laws seven_usable
dcb_dict_file-Usable_example = dcb_dict_file-Usable seven_usable
