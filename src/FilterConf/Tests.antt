-- ===== src/FilterConf/Tests.antt =====
-- The filter's configuration on concrete blocks, and the theorems on it there.
use mathlib.Core.Option.{some-injective}
use ngx_brotli.Base.{
  ℕ, ◌≡◌, refl, sym, ◌∙◌, inl, inr, Bool, true, false, Bytes, List, [], ◌∷◌, Option, none, some,
  codes, if◌then◌else◌, Bool-cases,
}
use ngx_brotli.Dcb.{same_bytes}
use ngx_brotli.FilterConf.Latch.{SetsFlag, filter_init-nest}
use ngx_brotli.FilterConf.Nearest.{Inherits, merge_all-Inherits}
use ngx_brotli.FilterConf.{Slots, create_conf, nest, Chains, filter_init}
use ngx_brotli.Loading.Load.{Main, create_main_conf}

-- A setter that takes everything but "off" for on.
abbrev set_flag : Bytes → Option Bool → Option (Option Bool)
set_flag arg slot = some (some (if same_bytes arg (codes "off") then false else true))

set_flag-SetsFlag : SetsFlag set_flag
set_flag-SetsFlag arg slot slot' h = elim (Bool-cases (same_bytes arg (codes "off"))) [
  | inl off ↦ inl (
      sym (some-injective (some (if same_bytes arg (codes "off") then false else true)) slot' h)
      ∙ rw (off) refl)
  | inr on ↦ inr (
    sym (some-injective (some (if same_bytes arg (codes "off") then false else true)) slot' h)
        ∙ rw (on) refl,
    on,
  )
]

abbrev two_blocks : List (List Bytes)
two_blocks = (codes "on" ∷ []) ∷ [] ∷ []

abbrev enabled_main : Main
enabled_main = record create_main_conf { any_enabled = true }

two_blocks-on : nest set_flag two_blocks (none, create_main_conf) ≡ some (some true, enabled_main)
unfolding nest
two_blocks-on = refl

abbrev plain_chains : Chains ℕ ℕ
plain_chains = record { top_header = 1; next_header = none; top_body = 2; next_body = none }

filter_init-nest_example :
    filter_init 3 4 enabled_main plain_chains
    ≡ record { top_header = 3; next_header = some 1; top_body = 4; next_body = some 2 }
filter_init-nest_example =
    filter_init-nest 3 4 set_flag two_blocks create_main_conf enabled_main plain_chains
      set_flag-SetsFlag two_blocks-on

abbrev server_block : Slots
server_block = record create_conf { quality = some 4; bypass_vary = some (codes "Cookie") }

merge_all-Inherits_example : Inherits create_conf (server_block ∷ create_conf ∷ [])
merge_all-Inherits_example = merge_all-Inherits create_conf (server_block ∷ create_conf ∷ [])
