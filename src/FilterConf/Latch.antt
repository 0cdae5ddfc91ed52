-- ===== src/FilterConf/Latch.antt =====
-- The latch `any_enabled` under nested blocks.
use mathlib.Core.Bool.{false≢true}
use mathlib.Core.Option.{some-injective, none-ne-some}
use ngx_brotli.Base.{
  ◌⊎◌, inl, inr, if_cases, ◌≡◌, refl, ap, sym, subst, ◌∙◌, Bool, true, false, Bytes, List, [], ◌∷◌,
  Option, none, some, if◌then◌else◌, codes, >>=-some,
}
use ngx_brotli.Dcb.{same_bytes}
use ngx_brotli.FilterConf.{merged, set_enable, parse_flags, nest, Chains, filter_init}
use ngx_brotli.Loading.Load.{Main}

-- nginx's setter sets the flag, and never to on for the argument "off".
abbrev pub SetsFlag : (Bytes → Option Bool → Option (Option Bool)) → Type 0
SetsFlag set_flag_slot =
    (arg : Bytes) (slot slot' : Option Bool)
    → set_flag_slot arg slot ≡ some slot'
    → (slot' ≡ some false) ⊎ ((slot' ≡ some true) × (same_bytes arg (codes "off") ≡ false))

-- A slot that is on has left its trace in the latch, and the latch is not cleared.
abbrev Grows : Main → Option Bool × Main → Type 0
Grows m (slot, m') =
    (slot ≡ some true → m'.any_enabled ≡ true) × (m.any_enabled ≡ true → m'.any_enabled ≡ true)

off-on : {A : Type 0} → some false ≡ some true → A
off-on h = absurd (false≢true (some-injective false true h))

none-on : {A : Type 0} → none ≡ some true → A
none-on h = absurd (none-ne-some true h)

enable-Grows :
    (arg : Bytes) (slot : Option Bool) (m : Main)
    → (slot ≡ some false) ⊎ ((slot ≡ some true) × (same_bytes arg (codes "off") ≡ false))
    → Grows m (slot, if same_bytes arg (codes "off") then m else record m { any_enabled = true })
enable-Grows arg slot m (inl off) =
    if_cases (λ m'. Grows m (slot, m')) (same_bytes arg (codes "off")) m
      (record m { any_enabled = true }) (λ _. (λ on. off-on (sym off ∙ on), λ h. h))
      (λ _. (λ on. refl, λ h. refl))
enable-Grows arg slot m (inr (on, h)) =
    if_cases (λ m'. Grows m (slot, m')) (same_bytes arg (codes "off")) m
      (record m { any_enabled = true }) (λ k. absurd (false≢true (sym h ∙ k)))
      (λ _. (λ on. refl, λ h. refl))

module _ (set_flag_slot : Bytes → Option Bool → Option (Option Bool))
    (sets : SetsFlag set_flag_slot) where
  set_enable-Grows :
      (arg : Bytes) (slot : Option Bool) (m : Main) (s' : Option Bool × Main)
      → set_enable set_flag_slot arg (slot, m) ≡ some s'
      → Grows m s'
  unfolding set_enable
  set_enable-Grows arg slot m s' h =
      let m' = if same_bytes arg (codes "off") then m else record m { any_enabled = true } in
      let p = >>=-some (set_flag_slot arg slot) (λ slot'. some (slot', m')) s' h in
      subst (Grows m) (some-injective (p.0, m') s' p.2)
        (enable-Grows arg p.0 m (sets arg slot p.0 p.1))

  parse_flags-Grows :
      (args : List Bytes) (slot : Option Bool) (m : Main) (s' : Option Bool × Main)
      → Grows m (slot, m)
      → parse_flags set_flag_slot args (slot, m) ≡ some s'
      → Grows m s'
  unfolding parse_flags
  parse_flags-Grows [] slot m s' g h = subst (Grows m) (some-injective (slot, m) s' h) g
  parse_flags-Grows (arg ∷ args) slot m s' g h =
      let p =
        >>=-some (set_enable set_flag_slot arg (slot, m)) (λ s. parse_flags set_flag_slot args s) s'
          h in
      let first = set_enable-Grows arg slot m p.0 p.1 in
      let rest = parse_flags-Grows args p.0.0 p.0.1 s' (first.0, λ h. h) p.2 in
      (rest.0, λ h. rest.1 (first.1 h))

  merged-on :
      (outer slot : Option Bool)
      → some (merged outer slot false) ≡ some true
      → (slot ≡ some true) ⊎ (outer ≡ some true)
  merged-on outer (some b) h = inl h
  merged-on none none h = off-on h
  merged-on (some b) none h = inr h

  nest-latched :
      (blocks : List (List Bytes)) (outer : Option Bool) (m : Main) (s' : Option Bool × Main)
      → (outer ≡ some true → m.any_enabled ≡ true)
      → nest set_flag_slot blocks (outer, m) ≡ some s'
      → s'.0 ≡ some true
      → s'.1.any_enabled ≡ true
  unfolding nest
  nest-latched [] outer m s' l h on =
      let same = some-injective (outer, m) s' h in
      sym (ap (λ (s : Option Bool × Main). s.1.any_enabled) same)
      ∙ l (ap (λ (s : Option Bool × Main). s.0) same ∙ on)
  nest-latched (block ∷ blocks) outer m s' l h on =
      let p =
        >>=-some (parse_flags set_flag_slot block (none, m))
          (λ s. nest set_flag_slot blocks (some (merged outer s.0 false), s.1)) s' h in
      let g = parse_flags-Grows block none m p.0 (λ h. none-on h, λ h. h) p.1 in
      nest-latched blocks (some (merged outer p.0.0 false)) p.0.1 s'
        (λ k. elim (merged-on outer p.0.0 k) [ inl here ↦ g.0 here | inr above ↦ g.1 (l above) ])
        p.2 on

-- Where nginx's setter sets the flag and never sets it to on for "off": if a location's merged value
-- is on, under any nesting of blocks and whatever else was parsed before, then both filters are
-- installed in front of the chains, and each knows the rest of its chain.
pub filter_init-nest :
    {H B : Type 0} (header : H) (body : B)
    (set_flag_slot : Bytes → Option Bool → Option (Option Bool)) (blocks : List (List Bytes))
    (m m' : Main) (chains : Chains H B)
    → SetsFlag set_flag_slot
    → nest set_flag_slot blocks (none, m) ≡ some (some true, m')
    → filter_init header body m' chains ≡ record {
      top_header = header;
      next_header = some chains.top_header;
      top_body = body;
      next_body = some chains.top_body;
    }
unfolding filter_init
filter_init-nest header body set_flag_slot blocks m m' chains sets h =
    let on =
      nest-latched set_flag_slot sets blocks none m (some true, m') (λ h. none-on h) h refl in
    rw (on) refl
