-- ===== src/Sha256/Tests.antt =====
-- FIPS 180-4's examples.
use ngx_brotli.Base.{Bytes, [], ◌∷◌, ◌≡◌, refl, codes}
use ngx_brotli.Sha256.Compress.{compress}
use ngx_brotli.Sha256.Absorb.{absorb}
use ngx_brotli.Sha256.Compress.{Words}
use ngx_brotli.Sha256.Final.{padded, final-update_all}
use ngx_brotli.Sha256.Update.{concat, update_all}
use ngx_brotli.Sha256.{portable, init, initial_state, final, digest_bytes}

abbrev pub abc_digest : Bytes
abc_digest =
    0xba ∷ 0x78 ∷ 0x16 ∷ 0xbf ∷ 0x8f ∷ 0x01 ∷ 0xcf ∷ 0xea ∷ 0x41 ∷ 0x41 ∷ 0x40 ∷ 0xde ∷ 0x5d ∷ 0xae
    ∷ 0x22 ∷ 0x23 ∷ 0xb0 ∷ 0x03 ∷ 0x61 ∷ 0xa3 ∷ 0x96 ∷ 0x17 ∷ 0x7a ∷ 0x9c ∷ 0xb4 ∷ 0x10 ∷ 0xff
    ∷ 0x61 ∷ 0xf2 ∷ 0x00 ∷ 0x15 ∷ 0xad ∷ []

abc : portable (codes "abc") ≡ abc_digest
unfolding portable compress
abc = refl

final-update_all_example :
    (state : Words) × (absorb initial_state (padded (concat (codes "ab" ∷ codes "c" ∷ [])))
      ≡ (state, []))
    × (final (update_all init (codes "ab" ∷ codes "c" ∷ [])) ≡ digest_bytes state)
final-update_all_example = final-update_all (codes "ab" ∷ codes "c" ∷ [])
