-- ===== src/FilterConf.antt =====
-- filter/ngx_http_brotli_filter_module.c: the location configuration, its merge, the directive
-- `brotli` and the installation of the filters.
pub mod Nearest
pub mod Latch
mod Tests
use ngx_brotli.Base.{
  ℕ, Bool, true, false, not, Bytes, List, [], ◌∷◌, Option, none, some, if◌then◌else◌, codes, ◌>>=◌,
}
use ngx_brotli.Dcb.{Dict, Conf, same_bytes}
use ngx_brotli.Loading.Load.{Main}

-- `ngx_http_brotli_conf_t` while it is parsed and merged: `none` is a slot that is unset. A pointer
-- that is set may still be NULL, the inner `none`.
pub record Slots : Type 0 where
  pub enable : Option Bool
  pub quality : Option ℕ
  pub lg_win : Option ℕ
  pub min_length : Option ℕ
  pub max_length : Option ℕ
  pub bypass : Option (Option (List Bytes))
  pub bypass_vary : Option Bytes
  pub dcb_assume_secure : Option Bool
  pub dcb_dicts : Option (Option (List Dict))

-- `ngx_http_brotli_create_conf`.
abbrev pub create_conf : Slots
create_conf = record {
  enable = none;
  quality = none;
  lg_win = none;
  min_length = none;
  max_length = none;
  bypass = none;
  bypass_vary = none;
  dcb_assume_secure = none;
  dcb_dicts = none;
}

-- nginx's `ngx_conf_merge_value` and its kin: the child's value, the parent's, or the default.
abbrev pub merged : {A : Type 0} → Option A → Option A → A → A
merged prev (some a) default = a
merged (some a) none default = a
merged none none default = default

-- The default of brotli_max_length is the unset value itself.
abbrev pub merged_max : Option ℕ → Option ℕ → Option ℕ
merged_max prev (some n) = some n
merged_max prev none = prev

-- `ngx_http_brotli_merge_conf`, but for the types, which `ngx_http_merge_types` merges.
unfoldable pub merge_slots : Slots → Slots → Slots
merge_slots prev conf = record {
  enable = some (merged prev.enable conf.enable false);
  quality = some (merged prev.quality conf.quality 6);
  lg_win = some (merged prev.lg_win conf.lg_win 19);
  min_length = some (merged prev.min_length conf.min_length 20);
  max_length = merged_max prev.max_length conf.max_length;
  bypass = some (merged prev.bypass conf.bypass none);
  bypass_vary = some (merged prev.bypass_vary conf.bypass_vary []);
  dcb_assume_secure = some (merged prev.dcb_assume_secure conf.dcb_assume_secure false);
  dcb_dicts = some (merged prev.dcb_dicts conf.dcb_dicts none);
}

-- One parse of `brotli on|off`; `none` is an error. `set_flag_slot` is nginx's
-- `ngx_conf_set_flag_slot`.
unfoldable pub set_enable :
    (Bytes → Option Bool → Option (Option Bool))
    → Bytes
    → Option Bool × Main
    → Option (Option Bool × Main)
unfolding same_bytes
set_enable set_flag_slot arg (slot, m) = set_flag_slot arg slot >>= λ slot'.
    some (slot', if same_bytes arg (codes "off") then m else record m { any_enabled = true })

module _ (set_flag_slot : Bytes → Option Bool → Option (Option Bool)) where
  -- The directives `brotli` of one block.
  unfoldable pub parse_flags : List Bytes → Option Bool × Main → Option (Option Bool × Main)
  unfolding set_enable
  parse_flags [] s = some s
  parse_flags (arg ∷ args) s = set_enable set_flag_slot arg s >>= λ s'. parse_flags args s'

  -- Nested blocks, the outermost first; the slot is merged into each inner block.
  unfoldable pub nest : List (List Bytes) → Option Bool × Main → Option (Option Bool × Main)
  unfolding parse_flags
  nest [] s = some s
  nest (block ∷ blocks) (outer, m) =
      parse_flags block (none, m) >>= λ s. nest blocks (some (merged outer s.0 false), s.1)

-- The heads of nginx's two filter chains, and the module's own pointers to the rest of them.
pub record Chains (H B : Type 0) : Type 0 where
  pub top_header : H
  pub next_header : Option H
  pub top_body : B
  pub next_body : Option B

-- `ngx_http_brotli_filter_init`, with the module's two filters.
unfoldable pub filter_init : {H B : Type 0} → H → B → Main → Chains H B → Chains H B
filter_init header body m chains = if not m.any_enabled then chains else record {
  top_header = header;
  next_header = some chains.top_header;
  top_body = body;
  next_body = some chains.top_body;
}
