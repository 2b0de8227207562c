-- ===== src/Gatt/Handle/RoundTrip.antt =====
-- Handles that the client prints with "%X" are read back by `strtohandle`.
use bluepy.Common.{ℕ, ◌+◌, ◌*◌, ◌^◌, ◌<◌, true, false, [], ◌∷◌, ◌≡◌, refl, Text, arith}
use bluepy.Common.Hex.{hex_digit, hex_value, hex_value-hex_digit, show_hex}
use bluepy.Common.Hex.Digits.{IsUpperHex, All, show_hex-IsUpperHex, show_hex-cons, read-show_hex}
use bluepy.Common.Int.{pos, to_int-pos}
use bluepy.Gatt.Handle.{
  skip_space, take_sign, starts_hex, skip_0x, scan_digits, clamp_ll, strtoll, strtohandle,
}

scan_digits-hex_digit :
    (acc d : ℕ) (s : Text)
    → d < 16
    → scan_digits acc (hex_digit d ∷ s) ≡ scan_digits (acc * 16 + d) s
unfolding scan_digits
scan_digits-hex_digit acc d s h = rw (hex_value-hex_digit d h, scan_digits)

scan_digits-show_hex : (n : ℕ) → n < 2 ^ 32 → scan_digits 0 (show_hex n) ≡ (n, [])
unfolding scan_digits
scan_digits-show_hex n h = read-show_hex scan_digits scan_digits-hex_digit n h

module _ (c : ℕ) (s : Text) (h : All IsUpperHex (c ∷ s)) where
  skip_space-digits : skip_space (c ∷ s) ≡ c ∷ s
  unfolding skip_space
  skip_space-digits = ground arith

  take_sign-digits : take_sign (c ∷ s) ≡ (false, c ∷ s)
  unfolding take_sign
  take_sign-digits = ground arith

  starts_hex-digits : starts_hex (c ∷ s) ≡ true
  unfolding hex_value
  starts_hex-digits = ground arith

skip_0x-digits : (c : ℕ) (s : Text) → All IsUpperHex (c ∷ s) → skip_0x (c ∷ s) ≡ c ∷ s
unfolding skip_0x
skip_0x-digits c [] h = refl
skip_0x-digits c (d ∷ s) h = ground arith

-- On digits the value is what the digits write.
strtoll-digits :
    (c : ℕ) (s : Text)
    → All IsUpperHex (c ∷ s)
    → strtoll (c ∷ s) ≡ clamp_ll false (scan_digits 0 (c ∷ s))
unfolding strtoll
strtoll-digits c s h =
    rw (
      skip_space-digits c s h,
      take_sign-digits c s h,
      skip_0x-digits c s h,
      starts_hex-digits c s h,
    )

pub strtoll-show_hex :
    (n : ℕ)
    → n < 2 ^ 32
    → strtoll (show_hex n) ≡ record { value = pos n; out_of_range = false; rest = [] }
unfolding clamp_ll
strtoll-show_hex n h =
    let (c, s, e) = show_hex-cons n in
    let digits : All IsUpperHex (c ∷ s) = rw e at (show_hex-IsUpperHex n) in
    let scanned : scan_digits 0 (c ∷ s) ≡ (n, []) = rw e at (scan_digits-show_hex n h) in
    rw (e, strtoll-digits c s digits, scanned) (ground arith)

-- A number below 2^31 that is printed in hexadecimal is read back as it was.
pub strtohandle-show_hex : (n : ℕ) → n < 2 ^ 31 → strtohandle (show_hex n) ≡ pos n
unfolding strtohandle
strtohandle-show_hex n h = rw (strtoll-show_hex n (omega arith)) (to_int-pos n h)
