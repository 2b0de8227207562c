-- ===== src/Common/Hex.antt =====
-- `printf` of `%X` and `%02X`, and the hexadecimal digits that both ends read back.
pub mod Digits
use Prim.Native.Nat.{ℕ, zero, suc, ◌+◌, ◌-◌, ◌*◌, ◌/◌, ◌%◌, ◌^◌, ◌≤◌, ◌<◌}
use mathlib.Core.Path.{◌≡◌, refl}
use mathlib.Core.Bool.{Bool, true, false, ◌&&◌}
use mathlib.Core.Option.{Option, none, some}
use mathlib.Core.List.{List, [], ◌∷◌, ◌++◌}
use native.Mathlib.Omega.{arith}
use bluepy.Common.Tests.{◌==◌, ltb, leb, if◌then◌else◌}
use bluepy.Common.Lists.{Text}

unfoldable pub hex_digit : ℕ → ℕ
hex_digit d = if ltb d 10 then b'0' + d else b'A' + (d - 10)

-- The value of a hexadecimal digit, of either case.
unfoldable pub hex_value : ℕ → Option ℕ
hex_value c =
    if leb b'0' c && leb c b'9'
    then some (c - b'0')
    else if leb b'A' c && leb c b'F'
    then some (c - b'A' + 10)
    else if leb b'a' c && leb c b'f'
    then some (c - b'a' + 10)
    else none

pub hex_value-hex_digit : (d : ℕ) → d < 16 → hex_value (hex_digit d) ≡ some d
unfolding hex_value hex_digit
hex_value-hex_digit d h = ground arith

-- The digits of `n`, most significant first, before `acc`. Eight digits hold an unsigned int.
unfoldable pub hex_loop : ℕ → ℕ → Text → Text
hex_loop zero n acc = acc
hex_loop (suc fuel) n acc =
    let rest = hex_loop fuel (n / 16) (hex_digit (n % 16) ∷ acc) in
    if n / 16 == 0 then hex_digit (n % 16) ∷ acc else rest

-- `%X` of an unsigned int
unfoldable pub show_hex : ℕ → Text
show_hex n = hex_loop 8 n []

-- `%02X` of an unsigned char
unfoldable pub show_byte : ℕ → Text
show_byte b = hex_digit (b / 16) ∷ hex_digit (b % 16) ∷ []
