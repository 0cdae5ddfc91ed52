-- ===== src/Loading/Trusted.antt =====
-- The walk of a path under strict_path on, by the path's components.
use mathlib.Core.Option.{none-ne-some}
use ngx_brotli.Base.{
  if_cases, ℕ, zero, suc, ◌≡◌, refl, ap, sym, subst, Bool, true, false, ◌||◌, Bytes, List, [], ◌∷◌,
  Option, none, some, ==_iff, leb, length, drop_while, take_while, drop_while-Stops, Stops,
  if◌then◌else◌, ◌>>=◌, >>=-some,
}
use ngx_brotli.Loading.Safe.{Proper, SafeDir, guard_iff, check_strict_dir_iff}
use ngx_brotli.Loading.Split.{
  components, components-drop_while, components_first, only_slashes-components,
}
use ngx_brotli.Loading.Walk.{
  is_slash, not_slash, only_slashes, is_dots, check_strict_dir, vetted, component, walk, from_root,
  open_dict_strict,
}
use ngx_brotli.Loading.{System}

module _ {D F : Type 0} (sys : System D F) where
  -- The file is reached from the directory by the components: each of them but the last is opened as
  -- a directory of the one before, without following a link, and is vetted before it is used.
  pub data Follows : D → List Bytes → F → Type 0 where
    leaf :
        (d : D) (comp : Bytes) (f : F)
        → Proper sys comp
        → sys.open_leaf d comp ≡ some f
        → Follows d (comp ∷ []) f
    down :
        (d : D) (comp : Bytes) (comps : List Bytes) (next : D) (f : F)
        → Proper sys comp
        → sys.open_dir d comp ≡ some next
        → SafeDir sys next
        → Follows next comps f
        → Follows d (comp ∷ comps) f

  vetted-some :
      (b : Bool) (next : D → Option F) (d : D) (f : F)
      → vetted sys b next d ≡ some f
      → (b ≡ true) × (next d ≡ some f)
  vetted-some true next d f h = (refl, h)
  vetted-some false next d f h = absurd (none-ne-some f h)

  component-Follows :
      (next : D → Bytes → Option F) (d : D) (here : Bytes) (f : F)
      → ((d : D) (p : Bytes) → next d p ≡ some f → Follows d (components p) f)
      → Stops is_slash here
      → component sys next d here ≡ some f
      → Follows d (components here) f
  component-Follows next d [] f ih stop h = absurd (none-ne-some f h)
  component-Follows next d (c ∷ cs) f ih stop h =
      let comp = take_while not_slash (c ∷ cs) in
      let p = drop_while not_slash (c ∷ cs) in
      let guard = (leb sys.max_path (length comp) || is_dots comp) in
      let dir =
        sys.open_dir d comp >>= λ d'. vetted sys (check_strict_dir sys d') (λ d. next d p) d' in
      subst (λ comps. Follows d comps f) (sym (components_first c cs stop))
        (if_cases (λ x. x ≡ some f → Follows d (comp ∷ components p) f) guard none
          (if only_slashes p then sys.open_leaf d comp else dir) (λ _ h. absurd (none-ne-some f h))
          (λ passed.
            let proper = (guard_iff sys comp).0 passed in
            if_cases (λ x. x ≡ some f → Follows d (comp ∷ components p) f) (only_slashes p)
              (sys.open_leaf d comp) dir
              (λ last h.
                subst (λ comps. Follows d (comp ∷ comps) f) (sym (only_slashes-components p last))
                  (leaf d comp f proper h))
              (λ _ h.
                let open_dict =
                  >>=-some (sys.open_dir d comp)
                    (λ d'. vetted sys (check_strict_dir sys d') (λ d. next d p) d') f h in
                let safe =
                  vetted-some (check_strict_dir sys open_dict.0) (λ d. next d p) open_dict.0 f
                    open_dict.2 in
                down d comp (components p) open_dict.0 f proper open_dict.1
                  ((check_strict_dir_iff sys open_dict.0).0 safe.0) (ih open_dict.0 p safe.1)))
          h)

  walk-Follows :
      (fuel : ℕ) (d : D) (start : Bytes) (f : F)
      → walk sys fuel d start ≡ some f
      → Follows d (components start) f
  unfolding walk
  walk-Follows zero d start f h = absurd (none-ne-some f h)
  walk-Follows (suc fuel) d start f h =
      subst (λ comps. Follows d comps f) (components-drop_while start)
        (component-Follows (walk sys fuel) d (drop_while is_slash start) f
          (λ d p. walk-Follows fuel d p f) (drop_while-Stops is_slash start) h)

  -- What a path must be under strict_path on: absolute, with a vetted root from which its components
  -- lead to the file.
  pub record Vetted (path : Bytes) (f : F) : Type 0 where
    pub rest : Bytes
    pub absolute : path ≡ b'/' ∷ rest
    pub root : D
    pub has_root : sys.open_root ≡ some root
    pub safe : SafeDir sys root
    pub follows : Follows root (components rest) f

  pub open_dict_strict-Vetted :
      (path : Bytes) (f : F) → open_dict_strict sys path ≡ some f → Vetted path f
  unfolding open_dict_strict
  open_dict_strict-Vetted [] f h = absurd (none-ne-some f h)
  open_dict_strict-Vetted (c ∷ rest) f h =
      if_cases (λ x. x ≡ some f → Vetted (c ∷ rest) f) (is_slash c)
        (sys.open_root >>= from_root sys (suc (length rest)) rest) none
        (λ slash h.
          let root = >>=-some sys.open_root (from_root sys (suc (length rest)) rest) f h in
          let safe =
            vetted-some (check_strict_dir sys root.0) (λ d. walk sys (suc (length rest)) d rest)
              root.0 f root.2 in
          record {
            rest = rest;
            absolute = ap (λ c. c ∷ rest) ((==_iff c b'/').0 slash);
            root = root.0;
            has_root = root.1;
            safe = (check_strict_dir_iff sys root.0).0 safe.0;
            follows = walk-Follows (suc (length rest)) root.0 rest f safe.1;
          })
        (λ _ h. absurd (none-ne-some f h)) h
