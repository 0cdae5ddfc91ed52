-- ===== src/Static/Config.antt =====
-- static/ngx_http_brotli_static_module.c: the directive `brotli_static`, the merge of its values and
-- the registration of the handler.
use ngx_brotli.Base.{
  Bool, true, false, not, Bytes, List, [], ◌∷◌, Option, none, some, if◌then◌else◌, codes, ◌>>=◌,
}
use ngx_brotli.AcceptEncoding.Scan.{same_name}
use ngx_brotli.Dcb.{same_bytes}
use ngx_brotli.Static.{Mode, off, on, always}

-- `kBrotliStaticEnum`, whose names nginx compares regardless of case.
unfoldable pub mode_of : Bytes → Option Mode
unfolding same_name
mode_of arg =
    if same_name arg (codes "off")
    then some off
    else if same_name arg (codes "on")
    then some on
    else if same_name arg (codes "always")
    then some always
    else none

-- One parse of the directive: the slot of its location and `any_enabled`; `none` is an error.
-- `set_enum_slot` is nginx's `ngx_conf_set_enum_slot`.
unfoldable pub set_enable_slot :
    (Bytes → Option Mode → Option (Option Mode))
    → Bytes
    → Option Mode × Bool
    → Option (Option Mode × Bool)
unfolding same_bytes
set_enable_slot set_enum_slot arg (slot, any_enabled) = set_enum_slot arg slot >>= λ slot'.
    some (slot', if same_bytes arg (codes "off") then any_enabled else true)

-- `ngx_conf_merge_uint_value` in `merge_conf`: the child's value, else the parent's, else off.
abbrev pub merge_conf : Option Mode → Option Mode → Option Mode
merge_conf prev (some mode) = some mode
merge_conf none none = some off
merge_conf (some mode) none = some mode

module _ (set_enum_slot : Bytes → Option Mode → Option (Option Mode)) where
  -- The directives of one block, from an unset slot.
  unfoldable pub parse_block : List Bytes → Option Mode × Bool → Option (Option Mode × Bool)
  unfolding set_enable_slot
  parse_block [] s = some s
  parse_block (arg ∷ args) s = set_enable_slot set_enum_slot arg s >>= λ s'. parse_block args s'

  -- Nested blocks, the outermost first, and the value of the innermost once they are merged, with
  -- the latch of the cycle.
  unfoldable pub load : List (List Bytes) → Option Mode × Bool → Option (Option Mode × Bool)
  unfolding parse_block
  load [] s = some s
  load (block ∷ blocks) (outer, any_enabled) =
      parse_block block (none, any_enabled) >>= λ s. load blocks (merge_conf outer s.0, s.1)

-- `init`: whether the handler is appended; `pushed` says whether there is room for it, and `none` is
-- NGX_ERROR.
unfoldable pub init_handler : Bool → Bool → Option Bool
init_handler pushed any_enabled =
    if not any_enabled then some false else if pushed then some true else none
