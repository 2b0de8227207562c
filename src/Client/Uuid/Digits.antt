-- ===== src/Client/Uuid/Digits.antt =====
-- UUIDs that are written in digits, in the short form or in full.
use bluepy.Client.Parse.Numbers.{a2b_hex-hex_bytes}
use bluepy.Client.Uuid.Shown.{remove_dashes-IsUndashed}
use bluepy.Protocol.Wire.{hex_bytes}
use bluepy.Common.Hex.{show_byte, hex_digit}
use bluepy.Client.Uuid.{base_text, make_uuid, expand}
use bluepy.Common.Hex.Digits.{All-append, All}
use bluepy.Client.Parse.{ok}
use bluepy.Common.{
  ==_iff, false, length-append, append_assoc, true, ◌%◌, inr, ◌-◌, sym, ap, refl, ◌/◌, ◌*◌, inl,
  zero, ◌==◌, ◌++◌, suc, ◌+◌, ◌≢◌, arith, ◌≡◌, Bool-cases, ◌⊎◌, leb, if◌then◌else◌, ◌≤◌, replicate,
  length, ◌<◌, Text, ℕ, [], ◌∷◌,
}

-- The bytes that stand behind the first four of a short UUID.
abbrev pub base_bytes : Text
base_bytes = 0 ∷ 0 ∷ 0x10 ∷ 0 ∷ 0x80 ∷ 0 ∷ 0 ∷ 0x80 ∷ 0x5f ∷ 0x9b ∷ 0x34 ∷ 0xfb ∷ []

-- The 16 bytes of a UUID that is given by its first bytes, or by all of them.
abbrev pub wide : Text → Text
wide b = if leb (length b) 4 then replicate (4 - length b) 0 ++ b ++ base_bytes else b

hex_bytes-append : (s t : Text) → hex_bytes (s ++ t) ≡ hex_bytes s ++ hex_bytes t
hex_bytes-append [] t = refl
hex_bytes-append (b ∷ s) t =
    rw (hex_bytes-append s t) (sym (append_assoc (show_byte b) (hex_bytes s) (hex_bytes t)))

length-hex_bytes : (s : Text) → length (hex_bytes s) ≡ 2 * length s
unfolding show_byte
length-hex_bytes [] = refl
length-hex_bytes (b ∷ s) = let e = length-hex_bytes s in omega arith

hex_digit-undashed : (d : ℕ) → d < 16 → hex_digit d ≢ b'-'
unfolding hex_digit
hex_digit-undashed d h = ground arith

hex_bytes-undashed : (s : Text) → All (λ b. b < 256) s → All (λ c. c ≢ b'-') (hex_bytes s)
unfolding show_byte
hex_bytes-undashed [] h = tt
hex_bytes-undashed (b ∷ s) (h, hs) = (
  hex_digit-undashed (b / 16) (omega arith),
  (hex_digit-undashed (b % 16) (omega arith), hex_bytes-undashed s hs),
)

zeros-hex_bytes : (n : ℕ) → replicate (n + n) b'0' ≡ hex_bytes (replicate n 0)
unfolding show_byte hex_digit
zeros-hex_bytes zero = refl
zeros-hex_bytes (suc n) =
    let e : suc n + suc n ≡ suc (suc (n + n)) = omega arith in rw (e, zeros-hex_bytes n) refl

base-hex_bytes : base_text ≡ hex_bytes base_bytes
unfolding show_byte hex_digit
base-hex_bytes = refl

-- A UUID of at most four bytes or of sixteen.
abbrev pub IsUuidSize : ℕ → Type 0
IsUuidSize n = (n ≤ 4) ⊎ (n ≡ 16)

expand-hex_bytes : (r : Text) → IsUuidSize (length r) → expand (hex_bytes r) ≡ hex_bytes (wide r)
unfolding expand
expand-hex_bytes r (inl short) =
    let digits = length-hex_bytes r in
    let small : leb (length (hex_bytes r)) 8 ≡ true = ground arith in
    let few : leb (length r) 4 ≡ true = ground arith in
    let pad : 8 - length (hex_bytes r) ≡ (4 - length r) + (4 - length r) = omega arith in
    rw
      (
        small,
        few,
        pad,
        zeros-hex_bytes (4 - length r),
        hex_bytes-append (replicate (4 - length r) 0 ++ r) base_bytes,
        hex_bytes-append (replicate (4 - length r) 0) r,
        base-hex_bytes,
      )
      refl
expand-hex_bytes r (inr whole) =
    let digits = length-hex_bytes r in
    let small : leb (length (hex_bytes r)) 8 ≡ false = ground arith in
    let few : leb (length r) 4 ≡ false = ground arith in rw (small, few) refl

length-replicate : (n a : ℕ) → length (replicate n a) ≡ n
length-replicate zero a = refl
length-replicate (suc n) a = ap suc (length-replicate n a)

pub length-wide : (r : Text) → IsUuidSize (length r) → length (wide r) ≡ 16
length-wide r (inl short) =
    let few : leb (length r) 4 ≡ true = ground arith in
    rw
      (
        few,
        length-append (replicate (4 - length r) 0 ++ r) base_bytes,
        length-append (replicate (4 - length r) 0) r,
        length-replicate (4 - length r) 0,
      )
      (omega arith)
length-wide r (inr whole) = let few : leb (length r) 4 ≡ false = ground arith in rw few whole

All-zeros : (n : ℕ) → All (λ b. b < 256) (replicate n 0)
All-zeros zero = tt
All-zeros (suc n) = (omega arith, All-zeros n)

base-bytes : All (λ b. b < 256) base_bytes
base-bytes = ground arith

pub All-wide : (r : Text) → All (λ b. b < 256) r → All (λ b. b < 256) (wide r)
All-wide r h = elim (Bool-cases (leb (length r) 4)) [
  | inl e ↦ rw e (
      All-append (λ b. b < 256) (replicate (4 - length r) 0 ++ r) base_bytes
        (All-append (λ b. b < 256) (replicate (4 - length r) 0) r (All-zeros (4 - length r)) h)
        base-bytes)
  | inr e ↦ rw e h
]

-- A UUID that is written in upper-case digits, two for each byte, without dashes.
pub make_uuid-hex_bytes :
    (r : Text)
    → IsUuidSize (length r)
    → All (λ b. b < 256) r
    → make_uuid (hex_bytes r) ≡ ok (wide r)
unfolding make_uuid
make_uuid-hex_bytes r size h =
    let whole : (length (wide r) == 16) ≡ true = (==_iff _ _).1 (length-wide r size) in
    rw (
      remove_dashes-IsUndashed (hex_bytes r) (hex_bytes-undashed r h),
      expand-hex_bytes r size,
      a2b_hex-hex_bytes (wide r) (All-wide r h),
      whole,
    )
