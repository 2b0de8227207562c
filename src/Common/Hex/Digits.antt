-- ===== src/Common/Hex/Digits.antt =====
-- What `%X` prints is upper case digits, and reading them back gives the number.
use bluepy.Common.{◌++◌}
use Prim.Native.Nat.{ℕ, zero, suc, ◌+◌, ◌*◌, ◌/◌, ◌%◌, ◌^◌, ◌≤◌, ◌<◌}
use mathlib.Core.Path.{◌≡◌, refl, ap, ◌∙◌}
use mathlib.Core.Logic.{◌⊎◌, inl, inr}
use mathlib.Core.Bool.{true}
use mathlib.Core.List.{List, [], ◌∷◌}
use native.Mathlib.Omega.{arith}
use native.Mathlib.Nat.{pow-suc}
use bluepy.Common.Tests.{◌==◌, Bool-cases, ==_iff}
use bluepy.Common.Lists.{Text}
use bluepy.Common.Hex.{hex_digit, hex_loop, show_hex}

abbrev pub IsUpperHex : ℕ → Type 0
IsUpperHex c = ((48 ≤ c) × (c ≤ 57)) ⊎ ((65 ≤ c) × (c ≤ 70))

-- Every character has the property.
abbrev pub All {ℓ} : {A : Type ℓ} → (A → Type 0) → List A → Type 0
All P [] = Unit
All P (c ∷ s) = P c × All P s

pub All-append {ℓ} :
    {A : Type ℓ} (P : A → Type 0) (xs ys : List A) → All P xs → All P ys → All P (xs ++ ys)
All-append P [] ys h k = k
All-append P (x ∷ xs) ys h k = (h.0, All-append P xs ys h.1 k)

pub hex_digit-IsUpperHex : (d : ℕ) → d < 16 → IsUpperHex (hex_digit d)
unfolding hex_digit
hex_digit-IsUpperHex d h = ground arith

pub hex_loop-IsUpperHex : (f n : ℕ) (t : Text) → All IsUpperHex t → All IsUpperHex (hex_loop f n t)
unfolding hex_loop
hex_loop-IsUpperHex zero n t h = h
hex_loop-IsUpperHex (suc f) n t h =
    let d = hex_digit-IsUpperHex (n % 16) (omega arith) in
    elim (Bool-cases (n / 16 == 0)) [
      | inl e ↦ rw e (d, h)
      | inr e ↦ rw e (hex_loop-IsUpperHex f (n / 16) _ (d, h))
    ]

pub show_hex-IsUpperHex : (n : ℕ) → All IsUpperHex (show_hex n)
unfolding show_hex
show_hex-IsUpperHex n = hex_loop-IsUpperHex 8 n [] tt

hex_loop-cons : (f n c : ℕ) (t : Text) → (d : ℕ) × (s : Text) × (hex_loop f n (c ∷ t) ≡ d ∷ s)
unfolding hex_loop
hex_loop-cons zero n c t = (c, t, refl)
hex_loop-cons (suc f) n c t = elim (Bool-cases (n / 16 == 0)) [
  | inl e ↦ (hex_digit (n % 16), c ∷ t, rw e refl)
  | inr e ↦ rw e (hex_loop-cons f (n / 16) (hex_digit (n % 16)) (c ∷ t))
]

-- At least one digit is printed.
pub show_hex-cons : (n : ℕ) → (d : ℕ) × (s : Text) × (show_hex n ≡ d ∷ s)
unfolding show_hex hex_loop
show_hex-cons n = elim (Bool-cases (n / 16 == 0)) [
  | inl e ↦ (hex_digit (n % 16), [], rw e refl)
  | inr e ↦ rw e (hex_loop-cons 7 (n / 16) (hex_digit (n % 16)) [])
]

-- A reader that takes one digit at a time reads the number that was printed.
module _ {ℓ} {B : Type ℓ} (read : ℕ → Text → B)
    (step : (acc d : ℕ) (s : Text)
      → d < 16
      → read acc (hex_digit d ∷ s) ≡ read (acc * 16 + d) s) where
  read-first : (n : ℕ) (t : Text) → n < 16 → read 0 (hex_digit n ∷ t) ≡ read n t
  read-first n t h = let z : 0 * 16 + n ≡ n = omega arith in step 0 n t h ∙ ap (λ k. read k t) z

  read-hex_loop : (f n : ℕ) (t : Text) → n < 16 ^ suc f → read 0 (hex_loop (suc f) n t) ≡ read n t
  unfolding hex_loop
  read-hex_loop zero n t h =
      let e : (n / 16 == 0) ≡ true = (==_iff _ _).1 (omega arith) in
      let m : n % 16 ≡ n = omega arith in rw (e, m) (read-first n t (omega arith))
  read-hex_loop (suc f) n t h = elim (Bool-cases (n / 16 == 0)) [
    | inl e ↦
        let m : n % 16 ≡ n = omega (arith, (==_iff _ _).0 e) in
        rw (e, m) (read-first n t (omega (arith, (==_iff _ _).0 e)))
    | inr e ↦
        let q : n / 16 * 16 + n % 16 ≡ n = omega arith in
        rw e (
          read-hex_loop f (n / 16) (hex_digit (n % 16) ∷ t) (omega (arith, pow-suc 16 (suc f)))
          ∙ step (n / 16) (n % 16) t (omega arith)
          ∙ rw q)
  ]

  pub read-show_hex : (n : ℕ) → n < 2 ^ 32 → read 0 (show_hex n) ≡ read n []
  unfolding show_hex
  read-show_hex n h = read-hex_loop 7 n [] h
