-- ===== src/Client/Uuid.antt =====
-- `UUID`: its bytes, made from a text, and the text that it is shown as.
--
-- bluepy/btle.py, lines 88 to 115, for a value that is a text. The common names are data that the build generates.
use bluepy.Client.Scanner.{b2a_hex}
use bluepy.Client.Parse.{value_error, ok, a2b_hex, Result, ◌>>=◌}
pub mod Shown
pub mod Digits
use bluepy.Common.{
  drop, replicate, length, ◌-◌, take, ◌==◌, leb, ◌++◌, ℕ, codes, if◌then◌else◌, Text, [], ◌∷◌,
}

-- `val.replace("-", "")`
unfoldable pub remove_dashes : Text → Text
remove_dashes [] = []
remove_dashes (c ∷ s) = let rest = remove_dashes s in if c == b'-' then rest else c ∷ rest

-- What stands behind the first eight digits of a short form.
abbrev pub base_text : Text
base_text = codes "00001000800000805F9B34FB"

-- A short form has at most eight digits.
unfoldable pub expand : Text → Text
expand val = if leb (length val) 8 then replicate (8 - length val) b'0' ++ val ++ base_text else val

-- `UUID(val).binVal` for a text; `binascii.Error` is a ValueError.
unfoldable pub make_uuid : Text → Result Text
make_uuid val = a2b_hex (expand (remove_dashes val)) >>= λ bin_val.
    if length bin_val == 16 then ok bin_val else value_error

-- `s[i:j]`
abbrev pub slice : Text → ℕ → ℕ → Text
slice s i j = take (j - i) (drop i s)

abbrev pub dashed : Text → Text
dashed s =
    slice s 0 8
    ++ b'-'
      ∷ (slice s 8 12 ++ b'-' ∷ (slice s 12 16 ++ b'-' ∷ (slice s 16 20 ++ b'-' ∷ slice s 20 32)))

-- `str(uuid)`
unfoldable pub uuid_text : Text → Text
uuid_text bin_val = dashed (b2a_hex bin_val)
