-- ===== src/AcceptEncoding/Scan.antt =====
-- ngx_http_brotli_common.h: the byte scans below the walker, and the two string helpers it takes
-- from nginx, as fuzz/ngx_shim.h writes them. A pointer `p` with its `end` is the list of the bytes
-- that remain, so `p < end` is "not empty" and `p++` drops the head.
use ngx_brotli.Base.{
  ℕ, zero, suc, Bool, true, false, ◌&&◌, ◌||◌, Bytes, [], ◌∷◌, Option, none, some, ◌==◌, leb,
  length, if◌then◌else◌, bit_or,
}

abbrev pub is_ows : ℕ → Bool
is_ows c = c == b' ' || c == b'\t'

-- `ngx_tolower`.
unfoldable pub lower : ℕ → ℕ
lower c = if leb b'A' c && leb c b'Z' then bit_or c 0x20 else c

-- `ngx_strncasecmp(s1, s2, n) == 0`; a byte past the end of a list is no byte of the string.
unfoldable pub strncase_eq : Bytes → Bytes → ℕ → Bool
strncase_eq s1 s2 zero = true
strncase_eq [] s2 (suc n) = false
strncase_eq (x ∷ xs) [] (suc n) = false
strncase_eq (x ∷ xs) (y ∷ ys) (suc n) =
    let rest = strncase_eq xs ys n in
    if lower x == lower y then if lower x == 0 then true else rest else false

-- The test for a name: its length, then its bytes regardless of case.
unfoldable pub same_name : Bytes → Bytes → Bool
unfolding strncase_eq lower
same_name name coding = length name == length coding && strncase_eq name coding (length coding)

-- The inner loop of `skip_quoted`, up to the closing DQUOTE or the end.
unfoldable pub in_quote : Bytes → Bytes
in_quote [] = []
in_quote (c ∷ []) = if c == b'"' then c ∷ [] else []
in_quote (c ∷ d ∷ ds) =
    let escaped = in_quote ds in
    let next = in_quote (d ∷ ds) in
    if c == b'"' then c ∷ d ∷ ds else if c == b'\\' then escaped else next

abbrev pub past_quote : Bytes → Bytes
past_quote [] = []
past_quote (c ∷ cs) = cs

unfoldable pub skip_quoted : Bytes → Bytes
skip_quoted [] = []
skip_quoted (c ∷ cs) = if c == b'"' then past_quote (in_quote cs) else c ∷ cs

-- One round of the loops that step over quoted strings.
unfoldable pub step_over : ℕ → Bytes → Bytes
unfolding skip_quoted
step_over c cs = if c == b'"' then skip_quoted (c ∷ cs) else cs

-- `while (p < end && !stop(*p))`, with quoted strings stepped over; `none` is the end of the fuel.
unfoldable pub skip_fuel : ℕ → (ℕ → Bool) → Bytes → Option Bytes
skip_fuel zero stop p = none
skip_fuel (suc n) stop [] = some []
skip_fuel (suc n) stop (c ∷ cs) =
    let rest = skip_fuel n stop (step_over c cs) in if stop c then some (c ∷ cs) else rest

unfoldable pub skip_to : (ℕ → Bool) → Bytes → Option Bytes
unfolding skip_fuel step_over in_quote
skip_to stop p = skip_fuel (suc (length p)) stop p

-- `p >= end`, or `*p` is one of the bytes of the test.
abbrev pub at_end_or : (ℕ → Bool) → Bytes → Bool
at_end_or test [] = true
at_end_or test (c ∷ cs) = test c
