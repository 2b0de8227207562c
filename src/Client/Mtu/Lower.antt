-- ===== src/Client/Mtu/Lower.antt =====
-- Numbers that the client prints with "%x" are read back by `strtoll`.
use bluepy.Common.Int.{pos}
use bluepy.Client.Mtu.{lower_hex}
use bluepy.Common.Hex.Digits.{show_hex-IsUpperHex, show_hex-cons, read-show_hex, All, IsUpperHex}
use bluepy.Common.Hex.{hex_digit, hex_value}
use bluepy.Gatt.Handle.{starts_hex, take_sign, skip_space, skip_0x, clamp_ll, strtoll, scan_digits}
use bluepy.Common.{
  refl, ◌+◌, ◌*◌, some, false, arith, true, ◌⊎◌, to_lower, ◌≡◌, ◌^◌, map, ◌<◌, ◌≤◌, ℕ, Text, [],
  ◌∷◌,
}

-- A lower-case hexadecimal digit.
abbrev IsLowerHex : ℕ → Type 0
IsLowerHex c = (b'0' ≤ c × c ≤ b'9') ⊎ (b'a' ≤ c × c ≤ b'f')

to_lower-IsLowerHex : (c : ℕ) → IsUpperHex c → IsLowerHex (to_lower c)
to_lower-IsLowerHex c h = ground arith

lower-IsLowerHex : (s : Text) → All IsUpperHex s → All IsLowerHex (map to_lower s)
lower-IsLowerHex [] h = tt
lower-IsLowerHex (c ∷ s) (h, hs) = (to_lower-IsLowerHex c h, lower-IsLowerHex s hs)

module _ (c : ℕ) (s : Text) (h : All IsLowerHex (c ∷ s)) where
  skip_space-lower : skip_space (c ∷ s) ≡ c ∷ s
  unfolding skip_space
  skip_space-lower = ground arith

  take_sign-lower : take_sign (c ∷ s) ≡ (false, c ∷ s)
  unfolding take_sign
  take_sign-lower = ground arith

  starts_hex-lower : starts_hex (c ∷ s) ≡ true
  unfolding hex_value
  starts_hex-lower = ground arith

skip_0x-lower : (c : ℕ) (s : Text) → All IsLowerHex (c ∷ s) → skip_0x (c ∷ s) ≡ c ∷ s
unfolding skip_0x
skip_0x-lower c [] h = refl
skip_0x-lower c (d ∷ s) h = ground arith

strtoll-lower :
    (c : ℕ) (s : Text)
    → All IsLowerHex (c ∷ s)
    → strtoll (c ∷ s) ≡ clamp_ll false (scan_digits 0 (c ∷ s))
unfolding strtoll
strtoll-lower c s h =
    rw (skip_space-lower c s h, take_sign-lower c s h, skip_0x-lower c s h, starts_hex-lower c s h)

hex_value-lower : (d : ℕ) → d < 16 → hex_value (to_lower (hex_digit d)) ≡ some d
unfolding hex_value hex_digit
hex_value-lower d h = ground arith

scan_digits-step :
    (acc d : ℕ) (s : Text)
    → d < 16
    → scan_digits acc (map to_lower (hex_digit d ∷ s)) ≡ scan_digits (acc * 16 + d) (map to_lower s)
unfolding scan_digits
scan_digits-step acc d s h = rw (hex_value-lower d h, scan_digits)

scan_digits-lower_hex : (n : ℕ) → n < 2 ^ 32 → scan_digits 0 (lower_hex n) ≡ (n, [])
unfolding scan_digits lower_hex
scan_digits-lower_hex n h =
    read-show_hex (λ acc s. scan_digits acc (map to_lower s)) scan_digits-step n h

pub strtoll-lower_hex :
    (n : ℕ)
    → n < 2 ^ 32
    → strtoll (lower_hex n) ≡ record { value = pos n; out_of_range = false; rest = [] }
unfolding clamp_ll lower_hex
strtoll-lower_hex n h =
    let (c, s, e) = show_hex-cons n in
    let digits : All IsUpperHex (c ∷ s) = rw e at (show_hex-IsUpperHex n) in
    let scanned : scan_digits 0 (map to_lower (c ∷ s)) ≡ (n, []) =
      rw e at (scan_digits-lower_hex n h) in
    rw (e, strtoll-lower (to_lower c) (map to_lower s) (lower-IsLowerHex (c ∷ s) digits), scanned)
      (ground arith)
