-- ===== src/Static/Latch.antt =====
-- The latch of `set_enable_slot` is set wherever the handler could serve a file.
use mathlib.Core.Bool.{true≢false}
use mathlib.Core.Option.{some-injective}
use ngx_brotli.Base.{
  ◌≡◌, refl, sym, subst, ◌∙◌, Bool, true, false, Bytes, List, [], ◌∷◌, Option, none, some,
  if◌then◌else◌, codes, >>=-some, Bool-cases, inl, inr,
}
use ngx_brotli.Dcb.Granted.{same_bytes_eq}
use ngx_brotli.Dcb.{same_bytes}
use ngx_brotli.Static.Config.{mode_of, set_enable_slot, merge_conf, parse_block, load, init_handler}
use ngx_brotli.Static.{Mode, off, on, always, is_off}

-- nginx's setter succeeds only with the value that the table gives the argument, in any case.
abbrev pub SetsEnum : (Bytes → Option Mode → Option (Option Mode)) → Type 0
SetsEnum set_enum_slot =
    (arg : Bytes) (slot slot' : Option Mode)
    → set_enum_slot arg slot ≡ some slot'
    → (mode : Mode) × (slot' ≡ some mode) × (mode_of arg ≡ some mode)

-- A slot other than off has left its trace in the latch.
abbrev pub Latched : Option Mode × Bool → Type 0
Latched (none, any_enabled) = Unit
Latched (some off, any_enabled) = Unit
Latched (some on, any_enabled) = any_enabled ≡ true
Latched (some always, any_enabled) = any_enabled ≡ true

Latched-true : (slot : Option Mode) → Latched (slot, true)
Latched-true none = tt
Latched-true (some off) = tt
Latched-true (some on) = refl
Latched-true (some always) = refl

-- The latch is never cleared, and the slot is latched.
abbrev Grows : Bool → Option Mode × Bool → Type 0
Grows any_enabled s = Latched s × (any_enabled ≡ true → s.1 ≡ true)

mode_of-off : (arg : Bytes) → same_bytes arg (codes "off") ≡ true → mode_of arg ≡ some off
unfolding mode_of
mode_of-off arg h =
    subst (λ arg. mode_of arg ≡ some off) (sym (same_bytes_eq arg (codes "off") h)) refl

slot-Grows :
    (arg : Bytes) (mode : Mode) (any_enabled : Bool)
    → mode_of arg ≡ some mode
    → Grows any_enabled (some mode, if same_bytes arg (codes "off") then any_enabled else true)
slot-Grows arg mode any_enabled m = elim (Bool-cases (same_bytes arg (codes "off"))) [
  | inl h ↦
      let is : off ≡ mode = some-injective off mode (sym (mode_of-off arg h) ∙ m) in
      rw (h) (subst (λ mode. Grows any_enabled (some mode, any_enabled)) is (tt, λ e. e))
  | inr h ↦ rw (h) (Latched-true (some mode), λ e. refl)
]

set_enable_slot-Grows :
    (set_enum_slot : Bytes → Option Mode → Option (Option Mode)) (arg : Bytes)
    (s s' : Option Mode × Bool)
    → SetsEnum set_enum_slot
    → set_enable_slot set_enum_slot arg s ≡ some s'
    → Grows s.1 s'
unfolding set_enable_slot
set_enable_slot-Grows set_enum_slot arg (slot, any_enabled) s' h e =
    let (slot', p, f) =
      >>=-some (set_enum_slot arg slot)
        (λ slot'. some (slot', if same_bytes arg (codes "off") then any_enabled else true)) s' e in
    let (mode, same, m) = h arg slot slot' p in
    subst (Grows any_enabled) (some-injective _ _ f) (
      subst
        (λ slot'.
          Grows any_enabled (slot', if same_bytes arg (codes "off") then any_enabled else true))
        (sym same) (slot-Grows arg mode any_enabled m))

merge_conf-Latched :
    (prev slot : Option Mode) (before after : Bool)
    → Latched (prev, before)
    → Grows before (slot, after)
    → Latched (merge_conf prev slot, after)
merge_conf-Latched prev (some mode) before after h k = k.0
merge_conf-Latched none none before after h k = tt
merge_conf-Latched (some off) none before after h k = tt
merge_conf-Latched (some on) none before after h k = k.1 h
merge_conf-Latched (some always) none before after h k = k.1 h

module _ (set_enum_slot : Bytes → Option Mode → Option (Option Mode))
    (sets : SetsEnum set_enum_slot) where
  parse_block-Grows :
      (args : List Bytes) (s s' : Option Mode × Bool)
      → Latched s
      → parse_block set_enum_slot args s ≡ some s'
      → Grows s.1 s'
  unfolding parse_block
  parse_block-Grows [] s s' h e = subst (Grows s.1) (some-injective s s' e) (h, λ e. e)
  parse_block-Grows (arg ∷ args) s s' h e =
      let (s1, p, f) =
        >>=-some (set_enable_slot set_enum_slot arg s) (λ s1. parse_block set_enum_slot args s1) s'
          e in
      let (k, l) = set_enable_slot-Grows set_enum_slot arg s s1 sets p in
      let (k', l') = parse_block-Grows args s1 s' k f in (k', λ t. l' (l t))

  load-Latched :
      (blocks : List (List Bytes)) (s s' : Option Mode × Bool)
      → Latched s
      → load set_enum_slot blocks s ≡ some s'
      → Latched s'
  unfolding load
  load-Latched [] s s' h e = subst Latched (some-injective s s' e) h
  load-Latched (block ∷ blocks) (outer, any_enabled) s' h e =
      let (s1, p, f) =
        >>=-some (parse_block set_enum_slot block (none, any_enabled))
          (λ s. load set_enum_slot blocks (merge_conf outer s.0, s.1)) s' e in
      let k = parse_block-Grows block (none, any_enabled) s1 tt p in
      load-Latched blocks (merge_conf outer s1.0, s1.1) s'
        (merge_conf-Latched outer s1.0 any_enabled s1.1 h k) f

enabled_latch :
    (mode : Mode) (any_enabled : Bool)
    → is_off mode ≡ false
    → Latched (some mode, any_enabled)
    → any_enabled ≡ true
enabled_latch off any_enabled o h = absurd (true≢false o)
enabled_latch on any_enabled o h = h
enabled_latch always any_enabled o h = h

-- Where nginx's setter follows the table, a location whose merged value is on or always, under any
-- nesting of blocks and whatever other directives were parsed before, has the handler appended if
-- there is room for it.
pub init_handler-load :
    (set_enum_slot : Bytes → Option Mode → Option (Option Mode)) (blocks : List (List Bytes))
    (before after : Bool) (mode : Mode)
    → SetsEnum set_enum_slot
    → load set_enum_slot blocks (none, before) ≡ some (some mode, after)
    → is_off mode ≡ false
    → init_handler true after ≡ some true
unfolding init_handler
init_handler-load set_enum_slot blocks before after mode sets e o =
    let h = load-Latched set_enum_slot sets blocks (none, before) (some mode, after) tt e in
    rw (enabled_latch mode after o h) refl
