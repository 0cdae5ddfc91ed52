-- ===== src/Sha256/Update.antt =====
-- `ngx_http_brotli_sha256_update`: pieces of any size give the context of the whole message.
use ngx_brotli.Base.{
  u64, ℕ, zero, suc, ◌+◌, ◌-◌, ◌%◌, ◌≤◌, ◌<◌, ◌≡◌, refl, ap, sym, ◌∙◌, true, false, Bytes, List, [],
  ◌∷◌, ◌++◌, arith, ltb, length, take, drop, length-append, length-take, take-append-drop,
  append_assoc, append-nil, dec_lt,
}
use ngx_brotli.Sha256.Absorb.{absorb, absorb-append, absorb-length, absorb_short, absorb_block}
use ngx_brotli.Sha256.Compress.{Words, compress}
use ngx_brotli.Sha256.{
  Sha256, initial_state, init, keep_rest, whole_blocks, fill_block, room, update,
}

-- The context stands for the bytes absorbed so far.
pub record Represents (msg : Bytes) (c : Sha256) : Type 0 where
  pub absorbed : absorb initial_state msg ≡ (c.state, c.block)
  pub counted : c.total ≡ u64 (length msg)

pub init-Represents : Represents [] init
init-Represents = record { absorbed = absorb_short initial_state [] (omega arith); counted = refl }

-- A pending block is never full.
pub pending-lt : (msg : Bytes) (c : Sha256) → Represents msg c → length c.block ≡ length msg % 64
pending-lt msg c r =
    ap (λ (s : Words × Bytes). length s.1) (sym r.absorbed) ∙ absorb-length initial_state msg

abbrev Absorbs : Sha256 → Words × Bytes → Sha256 → Type 0
Absorbs c s c' = ((c'.state, c'.block) ≡ s) × (c'.total ≡ c.total)

keep_rest-Absorbs : (c : Sha256) (s : Words × Bytes) → Absorbs c s (keep_rest c s)
keep_rest-Absorbs c (state, []) = (refl, refl)
keep_rest-Absorbs c (state, x ∷ rest) = (refl, refl)

whole_blocks-Absorbs :
    (c : Sha256) (rest : Bytes) → Absorbs c (absorb c.state rest) (whole_blocks c rest)
whole_blocks-Absorbs c rest = keep_rest-Absorbs c (absorb c.state rest)

take_short : (n : ℕ) (xs : Bytes) → length xs ≤ n → take n xs ≡ xs
take_short zero [] h = refl
take_short zero (x ∷ xs) h = absurd (omega arith)
take_short (suc n) [] h = refl
take_short (suc n) (x ∷ xs) h = ap (◌∷◌ x) (take_short n xs (omega arith))

fill_block-Absorbs :
    (c : Sha256) (rest : Bytes)
    → length c.block < 64
    → Absorbs c (absorb c.state (c.block ++ rest)) (fill_block c (room c rest) rest)
fill_block-Absorbs c rest h = elim (dec_lt (length rest) (64 - length c.block)) [
  | yes short ↦
      let all : room c rest ≡ length rest = ground arith in
      let same : take (length rest) rest ≡ rest = take_short (length rest) rest (omega arith) in
      let below : ltb (length (c.block ++ rest)) 64 ≡ true =
        ground (arith, length-append c.block rest) in
      rw (all, same, below)
        (
          sym (absorb_short c.state (c.block ++ rest) (omega (arith, length-append c.block rest))),
          refl,
        )
  | no long ↦
      let n = 64 - length c.block in
      let all : room c rest ≡ n = ground arith in
      let full : length (c.block ++ take n rest) ≡ 64 =
        omega (arith, length-append c.block (take n rest), length-take n rest) in
      let reached : ltb (length (c.block ++ take n rest)) 64 ≡ false = ground arith in
      let split : c.block ++ rest ≡ (c.block ++ take n rest) ++ drop n rest =
        ap (◌++◌ c.block) (sym (take-append-drop n rest))
        ∙ sym (append_assoc c.block (take n rest) (drop n rest)) in
      let block = c.block ++ take n rest in
      let w =
        whole_blocks-Absorbs (record c { state = compress c.state block; block = [] })
          (drop n rest) in
      rw (all, reached)
        (
          w.0
              ∙ sym (absorb_block c.state block (drop n rest) full)
              ∙ ap (absorb c.state) (sym split),
          w.1,
        )
]

nil_of_length : (xs : Bytes) → ¬ (0 < length xs) → xs ≡ []
nil_of_length [] h = refl
nil_of_length (x ∷ xs) h = absurd (h (omega arith))

update-Absorbs :
    (c : Sha256) (rest : Bytes)
    → length c.block < 64
    → let c' = record c { total = u64 (c.total + length rest) } in
      Absorbs c' (absorb c.state (c.block ++ rest)) (update c rest)
unfolding update
update-Absorbs c rest h = elim (dec_lt 0 (length c.block)) [
  | yes pending ↦
      let test : ltb 0 (length c.block) ≡ true = ground arith in
      rw test (fill_block-Absorbs (record c { total = u64 (c.total + length rest) }) rest h)
  | no clear ↦
      let test : ltb 0 (length c.block) ≡ false = ground arith in
      let w = whole_blocks-Absorbs (record c { total = u64 (c.total + length rest) }) rest in
      let none =
        ap (λ (b : Bytes). absorb c.state (b ++ rest)) (sym (nil_of_length c.block clear)) in
      rw test (w.0 ∙ none, w.1)
]

-- Feeding more bytes gives the context of the longer message.
update-Represents :
    (msg rest : Bytes) (c : Sha256) → Represents msg c → Represents (msg ++ rest) (update c rest)
update-Represents msg rest c r =
    let k = update-Absorbs c rest (omega (arith, pending-lt msg c r)) in
    record {
      absorbed =
          absorb-append initial_state msg rest
          ∙ ap (λ (s : Words × Bytes). absorb s.0 (s.1 ++ rest)) r.absorbed
          ∙ sym k.0;
      counted = k.1 ∙ omega (arith, r.counted, length-append msg rest);
    }

abbrev pub update_all : Sha256 → List Bytes → Sha256
update_all c [] = c
update_all c (piece ∷ pieces) = update_all (update c piece) pieces

abbrev pub concat : List Bytes → Bytes
concat [] = []
concat (piece ∷ pieces) = piece ++ concat pieces

pub update_all-Represents :
    (msg : Bytes) (pieces : List Bytes) (c : Sha256)
    → Represents msg c
    → Represents (msg ++ concat pieces) (update_all c pieces)
update_all-Represents msg [] c r = rw (append-nil msg) r
update_all-Represents msg (piece ∷ pieces) c r =
    rw (← append_assoc msg piece (concat pieces)) (
      update_all-Represents (msg ++ piece) pieces (update c piece)
        (update-Represents msg piece c r))
