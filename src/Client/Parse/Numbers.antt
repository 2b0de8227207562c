-- ===== src/Client/Parse/Numbers.antt =====
-- Numbers and bytes that the helper prints are read back by `int(…, 16)` and `a2b_hex`.
use bluepy.Common.{
  ℕ, ◌+◌, ◌*◌, ◌/◌, ◌%◌, ◌^◌, ◌<◌, true, false, some, [], ◌∷◌, ◌≡◌, refl, Text, arith,
}
use bluepy.Common.Hex.{hex_digit, hex_value, hex_value-hex_digit, show_hex, show_byte}
use bluepy.Common.Hex.Digits.{IsUpperHex, All, show_hex-IsUpperHex, show_hex-cons, read-show_hex}
use bluepy.Common.Int.{pos}
use bluepy.Protocol.Wire.{hex_bytes}
use bluepy.Client.Parse.{
  ok, rstrip, lstrip, py_digits, py_sign, py_prefix, py_signed, py_int, a2b_hex,
}

py_digits-hex_digit :
    (acc d : ℕ) (s : Text)
    → d < 16
    → py_digits acc true (hex_digit d ∷ s) ≡ py_digits (acc * 16 + d) true s
unfolding py_digits
py_digits-hex_digit acc d s h = rw (hex_value-hex_digit d h, py_digits)

-- The flag is of no account where a digit comes first.
py_digits-first :
    (c : ℕ) (s : Text) → IsUpperHex c → py_digits 0 false (c ∷ s) ≡ py_digits 0 true (c ∷ s)
unfolding py_digits hex_value
py_digits-first c s h = ground arith

module _ (c : ℕ) (s : Text) (h : All IsUpperHex (c ∷ s)) where
  lstrip-digits : lstrip (c ∷ s) ≡ c ∷ s
  unfolding lstrip
  lstrip-digits = ground arith

  py_sign-digits : py_sign (c ∷ s) ≡ (false, c ∷ s)
  unfolding py_sign
  py_sign-digits = ground arith

pub rstrip-digits : (s : Text) → All IsUpperHex s → rstrip s ≡ s
unfolding rstrip
rstrip-digits [] h = refl
rstrip-digits (c ∷ []) h = ground arith
rstrip-digits (c ∷ d ∷ s) h = rw (rstrip-digits (d ∷ s) h.1)

py_prefix-digits : (c : ℕ) (s : Text) → All IsUpperHex (c ∷ s) → py_prefix (c ∷ s) ≡ c ∷ s
unfolding py_prefix
py_prefix-digits c [] h = refl
py_prefix-digits c (d ∷ s) h = ground arith

py_int-digits :
    (c : ℕ) (s : Text)
    → All IsUpperHex (c ∷ s)
    → py_int (c ∷ s) ≡ py_signed false (py_digits 0 true (c ∷ s))
unfolding py_int
py_int-digits c s h = rw (
  rstrip-digits (c ∷ s) h,
  lstrip-digits c s h,
  py_sign-digits c s h,
  py_prefix-digits c s h,
  py_digits-first c s h.0,
)

pub py_int-show_hex : (n : ℕ) → n < 2 ^ 32 → py_int (show_hex n) ≡ ok (pos n)
unfolding py_digits
py_int-show_hex n h =
    let (c, s, e) = show_hex-cons n in
    let digits : All IsUpperHex (c ∷ s) = rw e at (show_hex-IsUpperHex n) in
    let read : py_digits 0 true (c ∷ s) ≡ some n =
      rw e at (read-show_hex (λ acc. py_digits acc true) py_digits-hex_digit n h) in
    rw (e, py_int-digits c s digits, read)

pub IsByte : ℕ → Type 0
IsByte b = b < 256

pub a2b_hex-hex_bytes : (s : Text) → All (λ b. b < 256) s → a2b_hex (hex_bytes s) ≡ ok s
unfolding a2b_hex show_byte
a2b_hex-hex_bytes [] h = refl
a2b_hex-hex_bytes (b ∷ s) h =
    let q : b / 16 * 16 + b % 16 ≡ b = omega arith in
    rw
      (
        hex_value-hex_digit (b / 16) (omega arith),
        hex_value-hex_digit (b % 16) (omega arith),
        a2b_hex-hex_bytes s h.1,
        a2b_hex,
      )
      (rw q)
