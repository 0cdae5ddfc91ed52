-- ===== src/Loading/Split.antt =====
-- The components of a path, as an independent description of what the walk steps over.
use ngx_brotli.Base.{
  and_left, and_right, ℕ, ◌≡◌, refl, ap, sym, ◌∙◌, true, false, not, Bytes, List, [], ◌∷◌,
  drop_while, take_while, drop_while_stop, if◌then◌else◌, Bool-cases, inl, inr,
}
use ngx_brotli.Loading.Walk.{is_slash, not_slash, only_slashes}

abbrev pub onto_first : ℕ → List Bytes → List Bytes
onto_first c [] = (c ∷ []) ∷ []
onto_first c (p ∷ ps) = (c ∷ p) ∷ ps

-- The pieces between the separators.
abbrev pub pieces : Bytes → List Bytes
pieces [] = [] ∷ []
pieces (c ∷ cs) = let rest = pieces cs in if is_slash c then [] ∷ rest else onto_first c rest

-- Without the empty ones.
abbrev pub non_empty : List Bytes → List Bytes
non_empty [] = []
non_empty ([] ∷ ps) = non_empty ps
non_empty ((c ∷ p) ∷ ps) = (c ∷ p) ∷ non_empty ps

abbrev pub components : Bytes → List Bytes
components path = non_empty (pieces path)

pub components_slash :
    (c : ℕ) (cs : Bytes) → is_slash c ≡ true → components (c ∷ cs) ≡ components cs
components_slash c cs h = rw (h) refl

-- Separators in front are passed over.
pub components-drop_while : (s : Bytes) → components (drop_while is_slash s) ≡ components s
unfolding drop_while
components-drop_while [] = refl
components-drop_while (c ∷ cs) = elim (Bool-cases (is_slash c)) [
  | inl h ↦ rw (h) (components-drop_while cs)
  | inr h ↦ ap components (drop_while_stop is_slash (c ∷ cs) h)
]

-- The pieces of a path: the bytes up to the first separator, and the pieces behind it.
abbrev pub behind_slash : Bytes → List Bytes
behind_slash [] = []
behind_slash (c ∷ cs) = pieces cs

pub pieces-take_while :
    (s : Bytes) → pieces s ≡ take_while not_slash s ∷ behind_slash (drop_while not_slash s)
unfolding drop_while take_while
pieces-take_while [] = refl
pieces-take_while (c ∷ cs) = elim (Bool-cases (is_slash c)) [
  | inl h ↦ rw (h) refl
  | inr h ↦ rw (h) (ap (onto_first c) (pieces-take_while cs))
]

pub components-behind :
    (s : Bytes)
    → non_empty (behind_slash (drop_while not_slash s)) ≡ components (drop_while not_slash s)
unfolding drop_while
components-behind [] = refl
components-behind (c ∷ cs) = elim (Bool-cases (is_slash c)) [
  | inl h ↦
      let stop = drop_while_stop not_slash (c ∷ cs) (ap not h) in
      ap (λ s. non_empty (behind_slash s)) stop
      ∙ sym (components_slash c cs h)
      ∙ sym (ap components stop)
  | inr h ↦ rw (h) (components-behind cs)
]

-- Only separators are left where there is no component.
pub only_slashes-components : (p : Bytes) → only_slashes p ≡ true → components p ≡ []
only_slashes-components [] h = refl
only_slashes-components (c ∷ cs) h =
    components_slash c cs (and_left (is_slash c) (only_slashes cs) h)
    ∙ only_slashes-components cs (and_right (is_slash c) (only_slashes cs) h)

-- The first component of a path that starts with a byte of one.
pub components_first :
    (c : ℕ) (cs : Bytes)
    → is_slash c ≡ false
    → components (c ∷ cs)
      ≡ take_while not_slash (c ∷ cs) ∷ components (drop_while not_slash (c ∷ cs))
unfolding take_while
components_first c cs h =
    ap non_empty (pieces-take_while (c ∷ cs))
    ∙ rw (h) (ap (◌∷◌ (c ∷ take_while not_slash cs)) (components-behind (c ∷ cs)))
