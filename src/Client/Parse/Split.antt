-- ===== src/Client/Parse/Split.antt =====
-- `split` undoes joining, and `rstrip` takes the newline of a response off.
use bluepy.Common.{ℕ, false, [], ◌∷◌, ◌++◌, ◌≡◌, ◌≢◌, refl, ◌∙◌, Text, arith}
use bluepy.Common.Hex.Digits.{All}
use bluepy.Client.Parse.{is_py_space, rstrip, split}

-- The character does not stand in the text.
abbrev pub Lacks : ℕ → Text → Type 0
Lacks d s = All (λ c. c ≢ d) s

pub split-Lacks : (d : ℕ) (s : Text) → Lacks d s → split d s ≡ s ∷ []
unfolding split
split-Lacks d [] h = refl
split-Lacks d (c ∷ s) h = rw (split-Lacks d s h.1) (ground arith)

pub split-append : (d : ℕ) (s t : Text) → Lacks d s → split d (s ++ d ∷ t) ≡ s ∷ split d t
unfolding split
split-append d [] t h = ground arith
split-append d (c ∷ s) t h = rw (split-append d s t h.1) (ground arith)

-- A text that does not end in white space, and is not empty.
abbrev pub IsSolid : Text → Type 0
IsSolid s = (rstrip s ≡ s) × (s ≢ [])

rstrip-cons : (c : ℕ) (s : Text) → IsSolid s → rstrip (c ∷ s) ≡ c ∷ s
unfolding rstrip
rstrip-cons c [] h = absurd (h.1 refl)
rstrip-cons c (d ∷ s) h = rw (h.0, rstrip)

pub append-IsSolid : (s t : Text) → IsSolid t → IsSolid (s ++ t)
append-IsSolid [] t h = h
append-IsSolid (c ∷ s) t h = (rstrip-cons c (s ++ t) (append-IsSolid s t h), λ e. cc)

rstrip-newline : (s : Text) → rstrip (s ++ 10 ∷ []) ≡ rstrip s
unfolding rstrip
rstrip-newline [] = refl
rstrip-newline (c ∷ s) = rw (rstrip-newline s)

pub rstrip-line : (s : Text) → IsSolid s → rstrip (s ++ 10 ∷ []) ≡ s
rstrip-line s h = rstrip-newline s ∙ h.0

-- A character that is not white space holds the end of a text without white space at its end.
pub cons-IsSolid : (c : ℕ) (s : Text) → is_py_space c ≡ false → rstrip s ≡ s → IsSolid (c ∷ s)
unfolding rstrip
cons-IsSolid c [] p h = (rw p refl, λ e. cc)
cons-IsSolid c (d ∷ s) p h = (rw (h, rstrip), λ e. cc)

pub append-Lacks : (d : ℕ) (s t : Text) → Lacks d s → Lacks d t → Lacks d (s ++ t)
append-Lacks d [] t h k = k
append-Lacks d (c ∷ s) t h k = (h.0, append-Lacks d s t h.1 k)
