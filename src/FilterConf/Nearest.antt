-- ===== src/FilterConf/Nearest.antt =====
-- The merge of nested blocks, slot by slot.
use ngx_brotli.Base.{ℕ, ◌≡◌, refl, ap, ◌∙◌, false, List, [], ◌∷◌, Option, none, some, map}
use ngx_brotli.FilterConf.{Slots, merged, merged_max, merge_slots}

-- The merges of the blocks inside a block, the outermost first, as nginx walks them.
unfoldable pub merge_all : Slots → List Slots → Slots
unfolding merge_slots
merge_all outer [] = outer
merge_all outer (block ∷ blocks) = merge_all (merge_slots outer block) blocks

-- The last value that is set, or the one in front of all.
abbrev pub nearest : {A : Type 0} → Option A → List (Option A) → Option A
nearest a [] = a
nearest a (none ∷ bs) = nearest a bs
nearest a (some b ∷ bs) = nearest (some b) bs

abbrev pub or_default : {A : Type 0} → A → Option A → A
or_default default none = default
or_default default (some a) = a

nearest-some :
    {A : Type 0} (default : A) (a : Option A) (bs : List (Option A))
    → or_default default (nearest (some (or_default default a)) bs)
      ≡ or_default default (nearest a bs)
nearest-some default none [] = refl
nearest-some default (some a) [] = refl
nearest-some default a (none ∷ bs) = nearest-some default a bs
nearest-some default a (some b ∷ bs) = refl

nearest-merged :
    {A : Type 0} (default : A) (a b : Option A) (bs : List (Option A))
    → or_default default (nearest (some (merged a b default)) bs)
      ≡ or_default default (nearest a (b ∷ bs))
nearest-merged default a (some b) bs = refl
nearest-merged default none none bs = nearest-some default none bs
nearest-merged default (some a) none bs = refl

nearest-max :
    (a b : Option ℕ) (bs : List (Option ℕ)) → nearest (merged_max a b) bs ≡ nearest a (b ∷ bs)
nearest-max a (some b) bs = refl
nearest-max a none bs = refl

-- A slot as the module reads it behind the merges.
slot-nearest :
    {A : Type 0} (slot : Slots → Option A) (default : A)
    → ((prev conf : Slots)
        → slot (merge_slots prev conf) ≡ some (merged (slot prev) (slot conf) default))
    → (outer : Slots) (blocks : List Slots)
    → or_default default (slot (merge_all outer blocks))
      ≡ or_default default (nearest (slot outer) (map slot blocks))
unfolding merge_all
slot-nearest slot default merges outer [] = refl
slot-nearest slot default merges outer (block ∷ blocks) =
    slot-nearest slot default merges (merge_slots outer block) blocks
    ∙ ap (λ a. or_default default (nearest a (map slot blocks))) (merges outer block)
    ∙ nearest-merged default (slot outer) (slot block) (map slot blocks)

max_length-nearest :
    (outer : Slots) (blocks : List Slots)
    → (merge_all outer blocks).max_length
      ≡ nearest outer.max_length (map (λ (s : Slots). s.max_length) blocks)
unfolding merge_all
max_length-nearest outer [] = refl
max_length-nearest outer (block ∷ blocks) =
    max_length-nearest (merge_slots outer block) blocks
    ∙ nearest-max outer.max_length block.max_length (map (λ (s : Slots). s.max_length) blocks)

-- The values that a location has behind the merges.
pub record Inherits (outer : Slots) (blocks : List Slots) : Type 0 where
  pub enable :
      or_default false (merge_all outer blocks).enable
      ≡ or_default false (nearest outer.enable (map (λ (s : Slots). s.enable) blocks))
  pub quality :
      or_default 6 (merge_all outer blocks).quality
      ≡ or_default 6 (nearest outer.quality (map (λ (s : Slots). s.quality) blocks))
  pub lg_win :
      or_default 19 (merge_all outer blocks).lg_win
      ≡ or_default 19 (nearest outer.lg_win (map (λ (s : Slots). s.lg_win) blocks))
  pub min_length :
      or_default 20 (merge_all outer blocks).min_length
      ≡ or_default 20 (nearest outer.min_length (map (λ (s : Slots). s.min_length) blocks))
  pub max_length :
      (merge_all outer blocks).max_length
      ≡ nearest outer.max_length (map (λ (s : Slots). s.max_length) blocks)
  pub bypass :
      or_default none (merge_all outer blocks).bypass
      ≡ or_default none (nearest outer.bypass (map (λ (s : Slots). s.bypass) blocks))
  pub bypass_vary :
      or_default [] (merge_all outer blocks).bypass_vary
      ≡ or_default [] (nearest outer.bypass_vary (map (λ (s : Slots). s.bypass_vary) blocks))
  pub dcb_assume_secure :
      or_default false (merge_all outer blocks).dcb_assume_secure
      ≡ or_default false
          (nearest outer.dcb_assume_secure (map (λ (s : Slots). s.dcb_assume_secure) blocks))
  pub dcb_dicts :
      or_default none (merge_all outer blocks).dcb_dicts
      ≡ or_default none (nearest outer.dcb_dicts (map (λ (s : Slots). s.dcb_dicts) blocks))

-- However deep blocks are nested, each slot has the value of the innermost block that sets it, or else
-- its default; a location's own dictionaries and bypass predicates replace those it would inherit.
pub merge_all-Inherits : (outer : Slots) (blocks : List Slots) → Inherits outer blocks
unfolding merge_slots
merge_all-Inherits outer blocks = record {
  enable = slot-nearest (λ s. s.enable) false (λ prev conf. refl) outer blocks;
  quality = slot-nearest (λ s. s.quality) 6 (λ prev conf. refl) outer blocks;
  lg_win = slot-nearest (λ s. s.lg_win) 19 (λ prev conf. refl) outer blocks;
  min_length = slot-nearest (λ s. s.min_length) 20 (λ prev conf. refl) outer blocks;
  max_length = max_length-nearest outer blocks;
  bypass = slot-nearest (λ s. s.bypass) none (λ prev conf. refl) outer blocks;
  bypass_vary = slot-nearest (λ s. s.bypass_vary) [] (λ prev conf. refl) outer blocks;
  dcb_assume_secure =
      slot-nearest (λ s. s.dcb_assume_secure) false (λ prev conf. refl) outer blocks;
  dcb_dicts = slot-nearest (λ s. s.dcb_dicts) none (λ prev conf. refl) outer blocks;
}
