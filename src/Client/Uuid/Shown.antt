-- ===== src/Client/Uuid/Shown.antt =====
-- A UUID that is shown as text is made from that text.
use bluepy.Common.Hex.Digits.{All}
use bluepy.Client.Scanner.{lower_digit, b2a_hex}
use bluepy.Client.Parse.{ok, a2b_hex}
use bluepy.Common.Hex.{hex_value}
use bluepy.Client.Uuid.{dashed, uuid_text, make_uuid, remove_dashes, expand}
use bluepy.Common.{
  length-drop, take-drop, take_all, drop, true, inr, ap, false, refl, inl, ◌∙◌, ◌%◌, ◌==◌, leb, ◌/◌,
  sym, ◌*◌, arith, zero, Bool-cases, some, ◌≢◌, ◌+◌, ◌≡◌, suc, length, ◌<◌, ◌++◌, take, ℕ, Text, [],
  ◌∷◌,
}

pub remove_dashes-append :
    (s t : Text) → remove_dashes (s ++ t) ≡ remove_dashes s ++ remove_dashes t
unfolding remove_dashes
remove_dashes-append [] t = refl
remove_dashes-append (c ∷ s) t = elim (Bool-cases (c == b'-')) [
  | inl e ↦ rw e (remove_dashes-append s t)
  | inr e ↦ rw e (ap (λ u. c ∷ u) (remove_dashes-append s t))
]

remove_dashes-dash :
    (s t : Text) → remove_dashes (s ++ b'-' ∷ t) ≡ remove_dashes s ++ remove_dashes t
unfolding remove_dashes
remove_dashes-dash s t = remove_dashes-append s (b'-' ∷ t)

pub remove_dashes-IsUndashed : (s : Text) → All (λ c. c ≢ b'-') s → remove_dashes s ≡ s
unfolding remove_dashes
remove_dashes-IsUndashed [] h = refl
remove_dashes-IsUndashed (c ∷ s) (h, hs) =
    let other : (c == b'-') ≡ false = ground arith in
    rw other (ap (λ u. c ∷ u) (remove_dashes-IsUndashed s hs))

lower_digit-undashed : (d : ℕ) → d < 16 → lower_digit d ≢ b'-'
unfolding lower_digit
lower_digit-undashed d h = ground arith

b2a_hex-undashed : (s : Text) → All (λ b. b < 256) s → All (λ c. c ≢ b'-') (b2a_hex s)
unfolding b2a_hex
b2a_hex-undashed [] h = tt
b2a_hex-undashed (b ∷ s) (h, hs) = (
  lower_digit-undashed (b / 16) (omega arith),
  (lower_digit-undashed (b % 16) (omega arith), b2a_hex-undashed s hs),
)

length-b2a_hex : (s : Text) → length (b2a_hex s) ≡ 2 * length s
unfolding b2a_hex
length-b2a_hex [] = refl
length-b2a_hex (b ∷ s) = let e = length-b2a_hex s in omega arith

hex_value-lower_digit : (d : ℕ) → d < 16 → hex_value (lower_digit d) ≡ some d
unfolding hex_value lower_digit
hex_value-lower_digit d h = ground arith

a2b_hex-b2a_hex : (s : Text) → All (λ b. b < 256) s → a2b_hex (b2a_hex s) ≡ ok s
unfolding a2b_hex b2a_hex
a2b_hex-b2a_hex [] h = refl
a2b_hex-b2a_hex (b ∷ s) (h, hs) =
    let whole : b / 16 * 16 + b % 16 ≡ b = omega arith in
    rw
      (
        b2a_hex,
        a2b_hex,
        hex_value-lower_digit (b / 16) (omega arith),
        hex_value-lower_digit (b % 16) (omega arith),
        a2b_hex-b2a_hex s hs,
        whole,
      )
      refl

drop-drop : (m n : ℕ) (s : Text) → drop m (drop n s) ≡ drop (n + m) s
drop-drop m zero s = let e : 0 + m ≡ m = omega arith in rw e refl
drop-drop zero (suc n) [] = let e : suc n + 0 ≡ suc n = omega arith in rw e refl
drop-drop (suc m) (suc n) [] = let e : suc n + suc m ≡ suc (n + suc m) = omega arith in rw e refl
drop-drop m (suc n) (c ∷ s) =
    let e : suc n + m ≡ suc (n + m) = omega arith in rw e (drop-drop m n s)

next_cut : (m n : ℕ) (s : Text) → take m (drop n s) ++ drop (n + m) s ≡ drop n s
next_cut m n s = rw (sym (drop-drop m n s)) (take-drop m (drop n s))

All-take : (P : ℕ → Type 0) (n : ℕ) (s : Text) → All P s → All P (take n s)
All-take P zero s h = tt
All-take P (suc n) [] h = tt
All-take P (suc n) (c ∷ s) (h, hs) = (h, All-take P n s hs)

All-drop : (P : ℕ → Type 0) (n : ℕ) (s : Text) → All P s → All P (drop n s)
All-drop P zero s h = h
All-drop P (suc n) [] h = tt
All-drop P (suc n) (c ∷ s) (h, hs) = All-drop P n s hs

module _ (s : Text) (undashed : All (λ c. c ≢ b'-') s) where
  cut : (m n : ℕ) → remove_dashes (take m (drop n s)) ≡ take m (drop n s)
  cut m n = remove_dashes-IsUndashed _ (All-take _ m _ (All-drop _ n s undashed))

  last_cut : length s ≡ 32 → take 12 (drop 20 s) ≡ drop 20 s
  last_cut e = take_all 12 (drop 20 s) (omega (arith, length-drop 20 s))

  -- The text without the dashes that were put in.
  remove_dashes-dashed : length s ≡ 32 → remove_dashes (dashed s) ≡ s
  remove_dashes-dashed e =
      rw
        (
          remove_dashes-dash,
          remove_dashes-dash,
          remove_dashes-dash,
          remove_dashes-dash,
          cut 8 0,
          cut 4 8,
          cut 4 12,
          cut 4 16,
          cut 12 20,
          last_cut e,
          next_cut 4 16 s,
          next_cut 4 12 s,
          next_cut 4 8 s,
        )
        (take-drop 8 s)

expand-long : (s : Text) → length s ≡ 32 → expand s ≡ s
unfolding expand
expand-long s e = let long : leb (length s) 8 ≡ false = ground arith in rw long refl

-- The text that a UUID of 16 bytes is shown as makes the same UUID.
pub make_uuid-uuid_text :
    (u : Text) → length u ≡ 16 → All (λ b. b < 256) u → make_uuid (uuid_text u) ≡ ok u
unfolding make_uuid uuid_text
make_uuid-uuid_text u e h =
    let digits : length (b2a_hex u) ≡ 32 = length-b2a_hex u ∙ ap (λ n. 2 * n) e in
    let whole : (length u == 16) ≡ true = ground arith in
    rw (
      remove_dashes-dashed (b2a_hex u) (b2a_hex-undashed u h) digits,
      expand-long (b2a_hex u) digits,
      a2b_hex-b2a_hex u h,
      whole,
    )
