-- ===== src/Sha256/Digest.antt =====
-- What a SHA-256 digest is, and that `ngx_http_brotli_sha256` gives it with libcrypto and without.
use ngx_brotli.Base.{◌≡◌, subst, Bytes, [], ◌∷◌, Option, some, append-nil, Option-cases, inl, inr}
use ngx_brotli.Sha256.Absorb.{absorb}
use ngx_brotli.Sha256.Compress.{Words}
use ngx_brotli.Sha256.Final.{padded, final-update_all}
use ngx_brotli.Sha256.{initial_state, digest_bytes, portable, sha256}

-- The message, padded, is a whole number of blocks, and the hash is the state behind the last.
abbrev pub IsDigest : Bytes → Bytes → Type 0
IsDigest msg hash =
    (state : Words) × (absorb initial_state (padded msg) ≡ (state, []))
    × (hash ≡ digest_bytes state)

-- What libcrypto documents: a digest that it gives is the SHA-256 of the message.
abbrev pub Computes : (Bytes → Option Bytes) → Type 0
Computes evp = (msg hash : Bytes) → evp msg ≡ some hash → IsDigest msg hash

portable-IsDigest : (msg : Bytes) → IsDigest msg (portable msg)
unfolding portable
portable-IsDigest msg =
    subst (λ (xs : Bytes). IsDigest xs (portable msg)) (append-nil msg)
      (final-update_all (msg ∷ []))

pub sha256-IsDigest :
    (evp : Bytes → Option Bytes) (msg : Bytes) → Computes evp → IsDigest msg (sha256 evp msg)
unfolding sha256
sha256-IsDigest evp msg laws = elim (Option-cases (evp msg)) [
  | inl e ↦ rw (e, sha256) (portable-IsDigest msg)
  | inr (hash, e) ↦ rw (e, sha256) (laws msg hash e)
]
