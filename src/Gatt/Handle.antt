-- ===== src/Gatt/Handle.antt =====
-- Reading an attribute handle: `strtohandle`, and the `strtoll` of base 16 that it calls.
--
-- bluepy/bluepy-helper.c, lines 891 to 902.
pub mod RoundTrip
pub mod Value
use bluepy.Common.{
  ℕ, ◌+◌, ◌-◌, ◌*◌, ◌^◌, Bool, true, false, not, ◌&&◌, ◌||◌, none, some, [], ◌∷◌, Text, ◌==◌, ltb,
  leb, if◌then◌else◌,
}
use bluepy.Common.Hex.{hex_value}
use bluepy.Common.Int.{ℤ, pos, negsuc, neg, to_int}

-- `isspace` in the C locale
abbrev pub is_space : ℕ → Bool
is_space c = c == 32 || (leb 9 c && leb c 13)

unfoldable pub skip_space : Text → Text
skip_space [] = []
skip_space (c ∷ s) = let rest = skip_space s in if is_space c then rest else c ∷ s

abbrev pub is_hex : ℕ → Bool
is_hex c = elim (hex_value c) [ none ↦ false | some d ↦ true ]

abbrev pub starts_hex : Text → Bool
starts_hex [] = false
starts_hex (c ∷ s) = is_hex c

-- A minus sign, and what follows an optional sign.
unfoldable pub take_sign : Text → Bool × Text
take_sign [] = (false, [])
take_sign (c ∷ s) =
    if c == b'-' then (true, s) else if c == b'+' then (false, s) else (false, c ∷ s)

-- "0x" is taken only if a digit follows.
unfoldable pub skip_0x : Text → Text
skip_0x (c ∷ d ∷ s) = if c == b'0' && (d == b'x' || d == b'X') && starts_hex s then s else c ∷ d ∷ s
skip_0x s = s

-- The number that the leading digits write, and the rest.
unfoldable pub scan_digits : ℕ → Text → ℕ × Text
scan_digits acc [] = (acc, [])
scan_digits acc (c ∷ s) = elim (hex_value c) [
  | none ↦ (acc, c ∷ s)
  | some d ↦ scan_digits (acc * 16 + d) s
]

pub record Scanned : Type 0 where
  pub value : ℤ
  -- errno is ERANGE
  pub out_of_range : Bool
  -- the text from `*e` on
  pub rest : Text

-- The result as a `long long`, which is clamped if it does not fit.
unfoldable pub clamp_ll : Bool → ℕ × Text → Scanned
clamp_ll false (n, rest) =
    if ltb n (2 ^ 63)
    then record { value = pos n; out_of_range = false; rest = rest }
    else record { value = pos (2 ^ 63 - 1); out_of_range = true; rest = rest }
clamp_ll true (n, rest) =
    if leb n (2 ^ 63)
    then record { value = neg n; out_of_range = false; rest = rest }
    else record { value = negsuc (2 ^ 63 - 1); out_of_range = true; rest = rest }

-- `strtoll(src, &e, 16)` with errno cleared before: with no digit the value is 0 and `e` is `src`.
unfoldable pub strtoll : Text → Scanned
strtoll src =
    let (minus, s) = take_sign (skip_space src) in
    let t = skip_0x s in
    if starts_hex t
    then clamp_ll minus (scan_digits 0 t)
    else record { value = pos 0; out_of_range = false; rest = src }

abbrev pub is_empty : Text → Bool
is_empty [] = true
is_empty (c ∷ s) = false

-- -EINVAL
abbrev pub minus_einval : ℤ
minus_einval = negsuc 21

unfoldable pub strtohandle : Text → ℤ
strtohandle src =
    let r = strtoll src in
    if r.out_of_range || not (is_empty r.rest) then minus_einval else to_int r.value
