-- ===== src/Client/Parse.antt =====
-- `parseResp`
--
-- bluepy/btle.py, lines 327 to 347.
pub mod Numbers
pub mod Split
pub mod RoundTrip
pub mod Plain
use bluepy.Common.{
  ℕ, ◌+◌, ◌*◌, Bool, true, false, ◌&&◌, ◌||◌, Option, none, some, List, [], ◌∷◌, ◌++◌, Text, ◌==◌,
  leb, same_text, if◌then◌else◌,
}
use bluepy.Common.Hex.{hex_value}
use bluepy.Common.Int.{ℤ, pos, neg}

-- A Python value, or the exception that is raised.
pub data Result {ℓ} (A : Type ℓ) : Type ℓ where
  ok : A → Result A
  value_error : Result A
  internal_error : Result A

infixl 5 ◌>>=◌
abbrev pub ◌>>=◌ {ℓ κ} : {A : Type ℓ} {B : Type κ} → Result A → (A → Result B) → Result B
ok a >>= f = f a
value_error >>= f = value_error
internal_error >>= f = internal_error

-- What a tag is mapped to: None, a str, an int, or bytes.
pub data PyValue : Type 0 where
  nothing : PyValue
  text : Text → PyValue
  int : ℤ → PyValue
  bytes : Text → PyValue

-- `str.isspace` of an ASCII character: the separators 0x1c to 0x1f count.
abbrev pub is_py_space : ℕ → Bool
is_py_space c = c == 32 || (leb 9 c && leb c 13) || (leb 28 c && leb c 31)

abbrev pub strip_head : ℕ → Text → Text
strip_head c [] = if is_py_space c then [] else c ∷ []
strip_head c (d ∷ s) = c ∷ d ∷ s

unfoldable pub rstrip : Text → Text
rstrip [] = []
rstrip (c ∷ s) = strip_head c (rstrip s)

unfoldable pub lstrip : Text → Text
lstrip [] = []
lstrip (c ∷ s) = let rest = lstrip s in if is_py_space c then rest else c ∷ s

-- `str.split` with a separator of one character
abbrev pub cons_head : ℕ → List Text → List Text
cons_head c [] = (c ∷ []) ∷ []
cons_head c (s ∷ ss) = (c ∷ s) ∷ ss

unfoldable pub split : ℕ → Text → List Text
split d [] = [] ∷ []
split d (c ∷ s) = let rest = split d s in if c == d then [] ∷ rest else cons_head c rest

-- The digits of `int(s, 16)`. A single underscore may stand between two digits: the flag tells
-- whether the character before was a digit.
unfoldable pub py_digits : ℕ → Bool → Text → Option ℕ
py_digits acc true [] = some acc
py_digits acc false [] = none
py_digits acc after_digit (c ∷ s) = elim (hex_value c) [
  | some d ↦ py_digits (acc * 16 + d) true s
  | none ↦ let rest = py_digits acc false s in if c == b'_' && after_digit then rest else none
]

-- A sign, and what follows it.
unfoldable pub py_sign : Text → Bool × Text
py_sign [] = (false, [])
py_sign (c ∷ s) = if c == b'-' then (true, s) else if c == b'+' then (false, s) else (false, c ∷ s)

-- An underscore may stand behind the prefix.
abbrev pub skip_underscore : Text → Text
skip_underscore [] = []
skip_underscore (c ∷ s) = if c == b'_' then s else c ∷ s

unfoldable pub py_prefix : Text → Text
py_prefix (c ∷ d ∷ s) =
    if c == b'0' && (d == b'x' || d == b'X') then skip_underscore s else c ∷ d ∷ s
py_prefix s = s

abbrev pub py_signed : Bool → Option ℕ → Result ℤ
py_signed minus none = value_error
py_signed false (some n) = ok (pos n)
py_signed true (some n) = ok (neg n)

-- `int(s, 16)`
unfoldable pub py_int : Text → Result ℤ
py_int s =
    let (minus, t) = py_sign (lstrip (rstrip s)) in
    py_signed minus (py_digits 0 false (py_prefix t))

-- `binascii.a2b_hex`
unfoldable pub a2b_hex : Text → Result Text
a2b_hex [] = ok []
a2b_hex (c ∷ []) = value_error
a2b_hex (c ∷ d ∷ s) = elim (hex_value c) [
  | none ↦ value_error
  | some hi ↦ elim (hex_value d) [
    | none ↦ value_error
    | some lo ↦ a2b_hex s >>= λ rest. ok ((hi * 16 + lo) ∷ rest)
  ]
]

abbrev pub map_result {ℓ κ} : {A : Type ℓ} {B : Type κ} → (A → B) → Result A → Result B
map_result f r = r >>= λ a. ok (f a)

-- The branches on `tval`.
unfoldable pub parse_value : Text → Result PyValue
parse_value [] = ok nothing
parse_value (c ∷ s) =
    if c == b'$' || c == b'\''
    then ok (text s)
    else if c == b'h'
    then map_result int (py_int s)
    else if c == b'b'
    then map_result bytes (a2b_hex s)
    else internal_error

-- A dictionary of lists, in insertion order.
abbrev pub Resp : Type 0
Resp = List (Text × List PyValue)

-- `resp[tag] = [val]`, or `resp[tag].append(val)`
unfoldable pub add_value : Text → PyValue → Resp → Resp
add_value tag val [] = (tag, val ∷ []) ∷ []
add_value tag val ((t, vals) ∷ resp) =
    if same_text t tag then (t, vals ++ (val ∷ [])) ∷ resp else (t, vals) ∷ add_value tag val resp

-- `(tag, tval) = item.split('=')`, which wants two parts.
unfoldable pub parse_item : List Text → Result (Text × PyValue)
parse_item (tag ∷ tval ∷ []) = parse_value tval >>= λ v. ok (tag, v)
parse_item _ = value_error

unfoldable pub parse_items : List Text → Resp → Result Resp
parse_items [] resp = ok resp
parse_items (item ∷ items) resp =
    parse_item (split b'=' item) >>= λ (tag, v). parse_items items (add_value tag v resp)

unfoldable pub parse_resp : Text → Result Resp
parse_resp line = parse_items (split 0x1e (rstrip line)) []
