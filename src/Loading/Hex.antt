-- ===== src/Loading/Hex.antt =====
-- The hash literal of brotli_dcb_dict_file.
use ngx_brotli.Base.{
  ℕ, ◌+◌, ◌-◌, ◌*◌, ◌&&◌, Bytes, [], ◌∷◌, Option, none, some, ◌==◌, leb, length, if◌then◌else◌,
}

-- The value of a hexadecimal digit; `none` is 0xff.
unfoldable pub nibble : ℕ → Option ℕ
nibble c =
    if leb b'0' c && leb c b'9'
    then some (c - b'0')
    else if leb b'a' c && leb c b'f'
    then some (c - b'a' + 10)
    else if leb b'A' c && leb c b'F'
    then some (c - b'A' + 10)
    else none

abbrev pub byte_of : Option ℕ → Option ℕ → Option Bytes → Option Bytes
byte_of (some hi) (some lo) (some rest) = some ((hi * 16 + lo) ∷ rest)
byte_of (some hi) (some lo) none = none
byte_of (some hi) none rest = none
byte_of none lo rest = none

-- The loop over the pairs of digits.
unfoldable pub hex_bytes : Bytes → Option Bytes
unfolding nibble
hex_bytes [] = some []
hex_bytes (c ∷ []) = none
hex_bytes (c ∷ d ∷ cs) = byte_of (nibble c) (nibble d) (hex_bytes cs)

-- The test of the length, and the loop.
unfoldable pub hash_literal : Bytes → Option Bytes
unfolding hex_bytes
hash_literal text = if length text == 64 then hex_bytes text else none
