-- ===== src/Loading/Reaches.antt =====
-- The walk of a path against its components, and its fuel.
use mathlib.Core.List.{cons≢nil, head-eq_of_cons-eq, tail-eq_of_cons-eq}
use ngx_brotli.Base.{
  ℕ, zero, suc, ◌≤◌, ◌<◌, ◌≡◌, refl, ap, sym, subst, ◌∙◌, true, false, ◌||◌, Bytes, List, [], ◌∷◌,
  Option, some, arith, leb, length, drop_while, take_while, length-drop_while-le, drop_while-Stops,
  Stops, ◌↔◌, Bool-cases, inl, inr,
}
use ngx_brotli.Loading.Safe.{Proper, guard_iff, check_strict_dir_iff}
use ngx_brotli.Loading.Split.{
  components, components_slash, components-drop_while, components_first, only_slashes-components,
}
use ngx_brotli.Loading.Trusted.{Follows, leaf, down, Vetted, open_dict_strict-Vetted}
use ngx_brotli.Loading.Walk.{
  is_slash, not_slash, only_slashes, is_dots, check_strict_dir, component, walk, open_dict_strict,
}
use ngx_brotli.Loading.{System}

no_components : (p : Bytes) → components p ≡ [] → only_slashes p ≡ true
no_components [] h = refl
no_components (c ∷ cs) h = elim (Bool-cases (is_slash c)) [
  | inl slash ↦ rw (slash) (no_components cs (sym (components_slash c cs slash) ∙ h))
  | inr stop ↦ absurd (cons≢nil (sym (components_first c cs stop) ∙ h))
]

component_shrinks :
    (c : ℕ) (cs : Bytes)
    → is_slash c ≡ false
    → suc (length (drop_while not_slash (c ∷ cs))) ≤ length (c ∷ cs)
unfolding drop_while
component_shrinks c cs stop =
    let passed : drop_while not_slash (c ∷ cs) ≡ drop_while not_slash cs = rw (stop) refl in
    omega (arith, ap length passed, length-drop_while-le not_slash cs)

module _ {D F : Type 0} (sys : System D F) where
  Proper-comp :
      {comp comp' : Bytes}
      → comp' ≡ comp
      → Proper sys comp'
      → (leb sys.max_path (length comp) || is_dots comp) ≡ false
  Proper-comp {comp} e proper = (guard_iff sys comp).1 (subst (Proper sys) e proper)

  none_follow : (d : D) (comps : List Bytes) (f : F) → comps ≡ [] → Follows sys d comps f → ⊥
  none_follow _ _ _ e (leaf d comp f proper h) = cons≢nil e
  none_follow _ _ _ e (down d comp comps next f proper h safe k) = cons≢nil e

  Follows-some :
      (d : D) (p : Bytes) (f : F) → Follows sys d (components p) f → only_slashes p ≡ false
  Follows-some d p f k = elim (Bool-cases (only_slashes p)) [
    | inl all ↦ absurd (none_follow d (components p) f (only_slashes-components p all) k)
    | inr h ↦ h
  ]

  module _ (next : D → Bytes → Option F) (c : ℕ) (cs : Bytes) where
    component_leaf :
        (d : D)
        → (leb sys.max_path (length (take_while not_slash (c ∷ cs)))
            || is_dots (take_while not_slash (c ∷ cs)))
          ≡ false
        → only_slashes (drop_while not_slash (c ∷ cs)) ≡ true
        → component sys next d (c ∷ cs) ≡ sys.open_leaf d (take_while not_slash (c ∷ cs))
    component_leaf d h k = rw (h, k) refl

    component_down :
        (d d' : D)
        → (leb sys.max_path (length (take_while not_slash (c ∷ cs)))
            || is_dots (take_while not_slash (c ∷ cs)))
          ≡ false
        → only_slashes (drop_while not_slash (c ∷ cs)) ≡ false
        → sys.open_dir d (take_while not_slash (c ∷ cs)) ≡ some d'
        → check_strict_dir sys d' ≡ true
        → component sys next d (c ∷ cs) ≡ next d' (drop_while not_slash (c ∷ cs))
    component_down d d' h k o safe = rw (h, k, o, safe) refl

    component-some :
        (d : D) (comps : List Bytes) (f : F)
        → ((d : D)
            → Follows sys d (components (drop_while not_slash (c ∷ cs))) f
            → next d (drop_while not_slash (c ∷ cs)) ≡ some f)
        → comps ≡ take_while not_slash (c ∷ cs) ∷ components (drop_while not_slash (c ∷ cs))
        → Follows sys d comps f
        → component sys next d (c ∷ cs) ≡ some f
    component-some _ _ _ ih e (leaf d comp f proper h) =
        component_leaf d (Proper-comp (head-eq_of_cons-eq e) proper)
          (no_components (drop_while not_slash (c ∷ cs)) (sym (tail-eq_of_cons-eq e)))
        ∙ ap (sys.open_leaf d) (sym (head-eq_of_cons-eq e))
        ∙ h
    component-some _ _ _ ih e (down d comp comps d' f proper h safe k) =
        let k' = subst (λ comps. Follows sys d' comps f) (tail-eq_of_cons-eq e) k in
        component_down d d' (Proper-comp (head-eq_of_cons-eq e) proper)
          (Follows-some d' (drop_while not_slash (c ∷ cs)) f k')
          (ap (sys.open_dir d) (sym (head-eq_of_cons-eq e)) ∙ h)
          ((check_strict_dir_iff sys d').1 safe)
        ∙ ih d' k'

  here-some :
      (next : D → Bytes → Option F) (d : D) (here : Bytes) (f : F)
      → ((d : D) (p : Bytes)
          → suc (length p) ≤ length here
          → Follows sys d (components p) f
          → next d p ≡ some f)
      → Stops is_slash here
      → Follows sys d (components here) f
      → component sys next d here ≡ some f
  here-some next d [] f ih stop k = absurd (none_follow d [] f refl k)
  here-some next d (c ∷ cs) f ih stop k =
      component-some next c cs d (components (c ∷ cs)) f
        (λ d. ih d (drop_while not_slash (c ∷ cs)) (component_shrinks c cs stop))
        (components_first c cs stop) k

  walk-some :
      (fuel : ℕ) (d : D) (start : Bytes) (f : F)
      → length start < fuel
      → Follows sys d (components start) f
      → walk sys fuel d start ≡ some f
  unfolding walk
  walk-some zero d start f less k = absurd (omega (arith, less))
  walk-some (suc fuel) d start f less k =
      let here = drop_while is_slash start in
      let short = length-drop_while-le is_slash start in
      here-some (walk sys fuel) d here f
        (λ d p le. walk-some fuel d p f (omega (arith, less, short, le)))
        (drop_while-Stops is_slash start)
        (subst (λ comps. Follows sys d comps f) (sym (components-drop_while start)) k)

  Vetted-open_dict_strict :
      (path : Bytes) (f : F) → Vetted sys path f → open_dict_strict sys path ≡ some f
  unfolding open_dict_strict
  Vetted-open_dict_strict path f v =
      ap (open_dict_strict sys) v.absolute
      ∙ rw (v.has_root, (check_strict_dir_iff sys v.root).1 v.safe)
          (walk-some (suc (length v.rest)) v.root v.rest f (omega arith) v.follows)

  -- Under strict_path on a file is opened exactly if the path is absolute and its components lead to
  -- the file from a vetted root directory, each opened without following a link and vetted before it is
  -- used, with no component "." or ".." and none as long as NGX_MAX_PATH.
  pub open_dict_strict_iff :
      (path : Bytes) (f : F) → (open_dict_strict sys path ≡ some f) ↔ Vetted sys path f
  open_dict_strict_iff path f = (open_dict_strict-Vetted sys path f, Vetted-open_dict_strict path f)
