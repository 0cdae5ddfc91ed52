-- ===== src/Loading/Walk.antt =====
-- `ngx_http_brotli_check_strict_dir` and `ngx_http_brotli_open_dict_strict`. A path is a C string: it
-- holds no NUL.
use ngx_brotli.Base.{
  ℕ, zero, suc, Bool, true, false, not, ◌&&◌, ◌||◌, Bytes, [], ◌∷◌, Option, none, some, ◌==◌, leb,
  length, drop_while, take_while, bit_and, if◌then◌else◌, ◌>>=◌,
}
use ngx_brotli.Loading.{System, DirInfo}

-- S_IWGRP | S_IWOTH.
abbrev pub shared_write : ℕ → Bool
shared_write mode = not (bit_and mode 18 == 0)

abbrev pub is_slash : ℕ → Bool
is_slash c = c == b'/'

abbrev pub not_slash : ℕ → Bool
not_slash c = not (c == b'/')

abbrev pub is_empty : Bytes → Bool
is_empty [] = true
is_empty (c ∷ cs) = false

-- Only separators follow.
abbrev pub only_slashes : Bytes → Bool
only_slashes [] = true
only_slashes (c ∷ cs) = is_slash c && only_slashes cs

abbrev pub is_dots : Bytes → Bool
is_dots [] = false
is_dots (c ∷ []) = c == b'.'
is_dots (c ∷ d ∷ []) = c == b'.' && d == b'.'
is_dots (c ∷ d ∷ e ∷ cs) = false

module _ {D F : Type 0} (sys : System D F) where
  abbrev pub foreign : ℕ → Bool
  foreign uid = not (uid == 0) && not (uid == sys.euid)

  abbrev pub safe_info : Option DirInfo → Bool
  safe_info none = false
  safe_info (some info) = not (foreign info.uid) && not (shared_write info.mode)

  -- `ngx_http_brotli_check_strict_dir`.
  unfoldable pub check_strict_dir : D → Bool
  check_strict_dir d = safe_info (sys.dir_info d)

  -- A directory is vetted before it is the base of the next call.
  abbrev pub vetted : Bool → (D → Option F) → D → Option F
  vetted true next d = next d
  vetted false next d = none

  -- One component, from `here`: it is refused, or it is the leaf, or it is a directory, from which
  -- `next` goes on behind it.
  abbrev pub component : (D → Bytes → Option F) → D → Bytes → Option F
  component next d here =
      let comp = take_while not_slash here in
      let p = drop_while not_slash here in
      if is_empty here || (leb sys.max_path (length comp) || is_dots comp)
      then none
      else if only_slashes p
      then sys.open_leaf d comp
      else sys.open_dir d comp >>= λ d'. vetted (check_strict_dir d') (λ d. next d p) d'

  -- The walk from an open directory, at `start`.
  unfoldable pub walk : ℕ → D → Bytes → Option F
  unfolding drop_while take_while check_strict_dir
  walk zero d start = none
  walk (suc fuel) d start = component (walk fuel) d (drop_while is_slash start)

  abbrev pub from_root : ℕ → Bytes → D → Option F
  from_root fuel rest root = vetted (check_strict_dir root) (λ d. walk fuel d rest) root

  -- `ngx_http_brotli_open_dict_strict`, with fuel for each byte.
  unfoldable pub open_dict_strict : Bytes → Option F
  unfolding walk
  open_dict_strict [] = none
  open_dict_strict (c ∷ rest) =
      if is_slash c then sys.open_root >>= from_root (suc (length rest)) rest else none
