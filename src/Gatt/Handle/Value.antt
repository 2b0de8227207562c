-- ===== src/Gatt/Handle/Value.antt =====
-- The number that hexadecimal digits write, by the place of each digit.
use native.Mathlib.Nat.{pow-succ', add-mul, mul_assoc}
use bluepy.Common.Hex.{hex_value}
use bluepy.Gatt.Handle.{scan_digits}
use bluepy.Common.{
  inr, inl, Option-cases, arith, some, length, suc, ap, none, ◌^◌, ◌+◌, ◌∙◌, ◌≡◌, ◌*◌, ℕ, List,
  Text, [], ◌∷◌,
}

-- The values of the leading hexadecimal digits.
abbrev pub digits_of : Text → List ℕ
digits_of [] = []
digits_of (c ∷ s) = elim (hex_value c) [ none ↦ [] | some d ↦ d ∷ digits_of s ]

-- The text behind them.
abbrev pub after_digits : Text → Text
after_digits [] = []
after_digits (c ∷ s) = elim (hex_value c) [ none ↦ c ∷ s | some d ↦ after_digits s ]

-- Each digit counts the power of 16 of its place.
abbrev pub positional : List ℕ → ℕ
positional [] = 0
positional (d ∷ ds) = d * 16 ^ length ds + positional ds

shift : (acc d k p : ℕ) → (acc * 16 + d) * 16 ^ k + p ≡ acc * 16 ^ (suc k) + (d * 16 ^ k + p)
shift acc d k p =
    rw (pow-succ' 16 k, add-mul (acc * 16) d (16 ^ k), mul_assoc acc 16 (16 ^ k)) (omega arith)

scan_digits-from :
    (acc : ℕ) (s : Text)
    → scan_digits acc s
      ≡ (acc * 16 ^ length (digits_of s) + positional (digits_of s), after_digits s)
unfolding scan_digits
scan_digits-from acc [] = ap (λ n. (n, [])) (omega arith)
scan_digits-from acc (c ∷ s) = elim (Option-cases (hex_value c)) [
  | inl e ↦ rw (scan_digits, digits_of, after_digits, e) (ap (λ n. (n, c ∷ s)) (omega arith))
  | inr (d, e) ↦
      rw (scan_digits, digits_of, after_digits, e, scan_digits-from (acc * 16 + d) s, shift)
]

-- The loop of `strtoll` over the digits of any text gives the number that they write by their
-- places, and stops at the first character that is no digit.
pub scan_digits-positional :
    (s : Text) → scan_digits 0 s ≡ (positional (digits_of s), after_digits s)
scan_digits-positional s = scan_digits-from 0 s ∙ ap (λ n. (n, after_digits s)) (omega arith)
