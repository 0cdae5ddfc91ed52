-- ===== src/AcceptEncoding/Grammar.antt =====
-- The grammar of Accept-Encoding (RFC 9110, sections 12.5.3 and 12.4.2) as data: what a field says,
-- the text that says it, and what it means. Nothing here is taken from the walker but the
-- comparison of names.
use ngx_brotli.Base.{
  ℕ, ◌+◌, ◌*◌, ◌/◌, ◌≤◌, ◌<◌, ◌≡◌, ◌≢◌, Bool, true, false, not, ◌&&◌, ◌||◌, Bytes, List, [], ◌∷◌,
  ◌++◌, Option, none, some, ◌==◌, if◌then◌else◌, length, All, replicate,
}
use ngx_brotli.AcceptEncoding.Scan.{same_name}

-- "0", "0." and up to three digits, "1", "1." and up to three zeros.
pub data Qvalue : Type 0 where
  bare_zero bare_one : Qvalue
  zero_point : List ℕ → Qvalue
  one_point : ℕ → Qvalue

-- A byte of a quoted-string, or a quoted-pair.
pub data Item : Type 0 where
  octet pair : ℕ → Item

pub data Value : Type 0 where
  flag : Value
  token : Bytes → Value
  quoted : List Item → Value
  weight : Qvalue → Value

-- A parameter with the blanks before and behind its ';'.
pub record Param : Type 0 where
  pub before : Bytes
  pub after : Bytes
  pub name : Bytes
  pub value : Value

-- A list element with the separators before it and the blanks behind it.
pub record Element : Type 0 where
  pub lead : Bytes
  pub name : Bytes
  pub params : List Param
  pub trail : Bytes

-- The text of each, in front of what follows it.
abbrev pub digits_text : List ℕ → Bytes → Bytes
digits_text [] rest = rest
digits_text (d ∷ ds) rest = (b'0' + d) ∷ digits_text ds rest

abbrev pub qvalue_text : Qvalue → Bytes → Bytes
qvalue_text bare_zero rest = b'0' ∷ rest
qvalue_text bare_one rest = b'1' ∷ rest
qvalue_text (zero_point ds) rest = b'0' ∷ b'.' ∷ digits_text ds rest
qvalue_text (one_point k) rest = b'1' ∷ b'.' ∷ (replicate k b'0' ++ rest)

abbrev pub items_text : List Item → Bytes → Bytes
items_text [] rest = rest
items_text (octet c ∷ is) rest = c ∷ items_text is rest
items_text (pair c ∷ is) rest = b'\\' ∷ c ∷ items_text is rest

abbrev pub value_text : Value → Bytes → Bytes
value_text flag rest = rest
value_text (token v) rest = b'=' ∷ (v ++ rest)
value_text (quoted is) rest = b'=' ∷ b'"' ∷ items_text is (b'"' ∷ rest)
value_text (weight q) rest = b'=' ∷ qvalue_text q rest

abbrev pub blanks : List Param → Bytes → Bytes
blanks [] trail = trail
blanks (p ∷ ps) trail = p.before

abbrev pub params_text : Bytes → List Param → Bytes → Bytes
params_text trail [] rest = rest
params_text trail (p ∷ ps) rest =
    b';'
    ∷ (p.after ++ (p.name ++ value_text p.value (blanks ps trail ++ params_text trail ps rest)))

abbrev pub element_text : Element → Bytes → Bytes
element_text e rest = e.name ++ (blanks e.params e.trail ++ params_text e.trail e.params rest)

abbrev pub comma_before : List Element → Bytes → Bytes
comma_before [] more = []
comma_before (e ∷ es) more = b',' ∷ more

abbrev pub field_text : List Element → Bytes
field_text [] = []
field_text (e ∷ es) = e.lead ++ element_text e (comma_before es (field_text es))

-- What is well formed.
abbrev pub is_blank : ℕ → Bool
is_blank c = c == b' ' || c == b'\t'

abbrev pub is_token_byte : ℕ → Bool
is_token_byte c = not (c == b' ' || c == b'\t' || c == b';' || c == b',' || c == b'"' || c == b'=')

abbrev pub AreBlank : Bytes → Type 0
AreBlank = All λ c. is_blank c ≡ true

abbrev pub IsToken : Bytes → Type 0
IsToken = All λ c. is_token_byte c ≡ true

abbrev pub IsQvalue : Qvalue → Type 0
IsQvalue (zero_point ds) = (length ds ≤ 3) × All (λ d. d < 10) ds
IsQvalue (one_point k) = k ≤ 3
IsQvalue _ = Unit

abbrev pub IsItem : Item → Type 0
IsItem (octet c) = (c == b'"' || c == b'\\') ≡ false
IsItem (pair c) = Unit

abbrev pub is_q : Bytes → Bool
is_q [] = false
is_q (c ∷ []) = c == b'q' || c == b'Q'
is_q (c ∷ d ∷ ds) = false

-- A parameter is a weight exactly when its name is q.
abbrev pub IsValue : Bytes → Value → Type 0
IsValue name flag = is_q name ≡ false
IsValue name (token v) = (is_q name ≡ false) × IsToken v
IsValue name (quoted is) = (is_q name ≡ false) × All IsItem is
IsValue name (weight q) = (is_q name ≡ true) × IsQvalue q

pub record IsParam (p : Param) : Type 0 where
  pub before_blank : AreBlank p.before
  pub after_blank : AreBlank p.after
  pub name_token : IsToken p.name
  pub name_ne_nil : p.name ≢ []
  pub value_fits : IsValue p.name p.value

abbrev pub is_weight : Value → Bool
is_weight (weight q) = true
is_weight _ = false

-- At most one weight; the flag says that one came before.
abbrev pub OneWeight : Bool → List Param → Type 0
OneWeight seen [] = Unit
OneWeight seen (p ∷ ps) =
    ((is_weight p.value && seen) ≡ false) × OneWeight (is_weight p.value || seen) ps

pub record IsElement (e : Element) : Type 0 where
  pub lead_separates : All (λ c. (c == b' ' || c == b'\t' || c == b',') ≡ true) e.lead
  pub name_token : IsToken e.name
  pub name_ne_nil : e.name ≢ []
  pub params_fit : All IsParam e.params
  pub one_weight : OneWeight false e.params
  pub trail_blank : AreBlank e.trail

-- What a field means.
abbrev pub digits_milli : ℕ → List ℕ → ℕ
digits_milli scale [] = 0
digits_milli scale (d ∷ ds) = d * scale + digits_milli (scale / 10) ds

abbrev pub milli : Qvalue → ℕ
milli bare_zero = 0
milli (zero_point ds) = digits_milli 100 ds
milli _ = 1000

abbrev pub value_weight : ℕ → Value → ℕ
value_weight q (weight v) = milli v
value_weight q _ = q

abbrev pub params_weight : ℕ → List Param → ℕ
params_weight q [] = q
params_weight q (p ∷ ps) = params_weight (value_weight q p.value) ps

-- An element's weight: that of its weight parameter, else 1.
abbrev pub element_milli : Element → ℕ
element_milli e = params_weight 1000 e.params

abbrev pub is_star : Bytes → Bool
is_star [] = false
is_star (c ∷ []) = c == b'*'
is_star (c ∷ d ∷ ds) = false

abbrev pub or_else : Option ℕ → Option ℕ → Option ℕ
or_else none b = b
or_else (some a) b = some a

-- The weight of the last element whose name passes the test.
abbrev pub last_weight : (Bytes → Bool) → List Element → Option ℕ
last_weight test [] = none
last_weight test (e ∷ es) =
    or_else (last_weight test es) (if test e.name then some (element_milli e) else none)

abbrev pub names : Bytes → Bytes → Bool
names coding name = same_name name coding

-- "*", where the coding asked for is not itself called so.
abbrev pub wildcard : Bytes → Bytes → Bool
wildcard coding name = not (same_name name coding) && is_star name
