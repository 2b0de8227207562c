-- ===== src/Client/Scan/Values/Services.antt =====
-- The services that a device advertises are those that the client shows.
use bluepy.Client.Uuid.Shown.{make_uuid-uuid_text}
use bluepy.Client.Uuid.{uuid_text, make_uuid}
use bluepy.Client.Scan.{ScanData, set_item}
use bluepy.Protocol.Wire.{hex_bytes}
use bluepy.Client.Uuid.Digits.{All-wide, length-wide, make_uuid-hex_bytes, IsUuidSize, wide}
use bluepy.Common.Hex.Digits.{All}
use bluepy.Client.Scan.Values.{
  decode_uuid_list, decode_value, uuids, get_value, uuid_size, is_name, get_item, decode_from,
  big_endian, decode_uuid,
}
use bluepy.Client.Parse.{◌>>=◌, ok}
use bluepy.Common.{
  inr, inl, Bool-cases, Option, ◌==◌, subst, zero, drop_all, append_assoc, true, take_all,
  length-append, take-append, false, drop-append, leb, ltb, suc, map, sym, arith, ◌+◌, take, ◌∙◌,
  ◌≤◌, refl, drop, some, ◌≡◌, ◌<◌, ◌++◌, length, List, Text, ℕ, [], ◌∷◌,
}

-- The bytes in the other order.
abbrev pub reverse_onto : Text → Text → Text
reverse_onto [] acc = acc
reverse_onto (b ∷ bs) acc = reverse_onto bs (b ∷ acc)

length-reverse_onto : (bs acc : Text) → length (reverse_onto bs acc) ≡ length bs + length acc
length-reverse_onto [] acc = omega arith
length-reverse_onto (b ∷ bs) acc = length-reverse_onto bs (b ∷ acc) ∙ omega arith

All-reverse_onto :
    (bs acc : Text)
    → All (λ b. b < 256) bs
    → All (λ b. b < 256) acc
    → All (λ b. b < 256) (reverse_onto bs acc)
All-reverse_onto [] acc h k = k
All-reverse_onto (b ∷ bs) acc (h, hs) k = All-reverse_onto bs (b ∷ acc) hs (h, k)

big_endian-hex_bytes :
    (bs acc : Text) → big_endian bs (hex_bytes acc) ≡ hex_bytes (reverse_onto bs acc)
unfolding big_endian
big_endian-hex_bytes [] acc = refl
big_endian-hex_bytes (b ∷ bs) acc = big_endian-hex_bytes bs (b ∷ acc)

-- The UUID that is sent as those bytes, last byte first.
abbrev pub uuid_of : Text → Text
uuid_of c = wide (reverse_onto c [])

-- The bytes of one UUID.
abbrev pub IsChunk : ℕ → Text → Type 0
IsChunk n c = (length c ≡ n) × All (λ b. b < 256) c

length-reversed : (c : Text) → length (reverse_onto c []) ≡ length c
length-reversed c = length-reverse_onto c [] ∙ omega arith

decode_uuid-chunk :
    (n : ℕ) (c : Text) → IsUuidSize n → IsChunk n c → decode_uuid c n ≡ ok (some (uuid_of c))
unfolding decode_uuid
decode_uuid-chunk n c size (e, h) =
    let enough : ltb (length c) n ≡ false = ground arith in
    rw
      (
        enough,
        take_all n c (omega arith),
        big_endian-hex_bytes c [],
        make_uuid-hex_bytes (reverse_onto c [])
            (subst IsUuidSize (sym e ∙ sym (length-reversed c)) size) (All-reverse_onto c [] h tt),
      )
      refl

-- The chunks one behind the other.
abbrev pub concat : List Text → Text
concat [] = []
concat (c ∷ cs) = c ++ concat cs

take-chunk : (n : ℕ) (c t : Text) → length c ≡ n → take n (c ++ t) ≡ c
take-chunk n c t e = rw (sym e) (take-append c t)

drop-chunk : (n : ℕ) (c t : Text) → length c ≡ n → drop n (c ++ t) ≡ t
drop-chunk n c t e = rw (sym e) (drop-append c t)

module _ (n : ℕ) (size : IsUuidSize n) (some_bytes : 0 < n) where
  decode_from-round :
      (fuel : ℕ) (b : ℕ) (bs t : Text)
      → IsChunk n (b ∷ bs)
      → decode_from (suc fuel) ((b ∷ bs) ++ t) n
        ≡ (decode_from fuel t n >>= λ us. ok (some (uuid_of (b ∷ bs)) ∷ us))
  unfolding decode_from
  decode_from-round fuel b bs t (e, h) =
      let enough : leb n (length ((b ∷ bs) ++ t)) ≡ true =
        let k = length-append bs t in ground arith in
      rw
        (
          decode_from,
          enough,
          take-chunk n (b ∷ bs) t e,
          drop-chunk n (b ∷ bs) t e,
          decode_uuid-chunk n (b ∷ bs) size (e, h),
        )
        refl

  decode_from-end : (fuel : ℕ) (t : Text) → length t < n → decode_from fuel t n ≡ ok []
  unfolding decode_from
  decode_from-end zero t h = refl
  decode_from-end (suc fuel) [] h = refl
  decode_from-end (suc fuel) (b ∷ bs) h =
      let short : leb n (length (b ∷ bs)) ≡ false = ground arith in
      let nothing_left : drop n (b ∷ bs) ≡ [] = drop_all n (b ∷ bs) (omega arith) in
      rw (decode_from, short, nothing_left) (decode_from-end fuel [] some_bytes)

  -- With a byte of fuel for each byte, all chunks are decoded, in their order.
  decode_from-chunks :
      (fuel : ℕ) (cs : List Text) (t : Text)
      → length (concat cs ++ t) ≤ fuel
      → All (IsChunk n) cs
      → length t < n
      → decode_from fuel (concat cs ++ t) n ≡ ok (map (λ c. some (uuid_of c)) cs)
  decode_from-chunks fuel [] t f h r = decode_from-end fuel t r
  decode_from-chunks fuel ([] ∷ cs) t f (h, hs) r = absurd (omega (arith, h.0))
  decode_from-chunks zero ((b ∷ bs) ∷ cs) t f (h, hs) r = absurd (omega arith)
  decode_from-chunks (suc fuel) ((b ∷ bs) ∷ cs) t f (h, hs) r =
      let less : length (concat cs ++ t) ≤ fuel = omega (
        arith,
        length-append (bs ++ concat cs) t,
        length-append bs (concat cs),
        length-append (concat cs) t,
      ) in
      rw
        (
          append_assoc (b ∷ bs) (concat cs) t,
          decode_from-round fuel b bs (concat cs ++ t) h,
          decode_from-chunks fuel cs t less hs r,
        )
        refl

same_number : (n : ℕ) → (n == n) ≡ true
same_number n = ground arith

get_item-set_item :
    (sdid : ℕ) (val : Text) (scan_data : ScanData)
    → get_item sdid (set_item sdid val scan_data) ≡ some val
unfolding get_item set_item
get_item-set_item sdid val [] = rw (same_number sdid) refl
get_item-set_item sdid val ((k, v) ∷ scan_data) = elim (Bool-cases (k == sdid)) [
  | inl e ↦ rw (set_item, e, get_item, e) refl
  | inr e ↦ rw (set_item, e, get_item, e) (get_item-set_item sdid val scan_data)
]

uuid_size-sizes : (sdid n : ℕ) → uuid_size sdid ≡ some n → IsUuidSize n × (0 < n)
uuid_size-sizes sdid n h = ground arith

shown_again :
    (n : ℕ)
    → IsUuidSize n
    → (cs : List Text) → All (IsChunk n) cs
    → All (λ c. make_uuid (uuid_text (uuid_of c)) ≡ ok (uuid_of c)) cs
shown_again n size [] h = tt
shown_again n size (c ∷ cs) ((e, h), hs) =
    let fits = subst IsUuidSize (sym e ∙ sym (length-reversed c)) size in
    (
      make_uuid-uuid_text (uuid_of c) (length-wide (reverse_onto c []) fits)
          (All-wide (reverse_onto c []) (All-reverse_onto c [] h tt)),
      shown_again n size cs hs,
    )

-- A structure whose type stands for a list of UUIDs of n bytes is set to UUIDs of n bytes each, last
-- byte first, with less than n bytes behind them. Then the value that the client gives of it is those
-- UUIDs, all of them, in their order, each with the bytes that the base of a short UUID supplies; and
-- each is shown as a text that makes the same UUID again.
pub get_value-services :
    (utf8 : Text → Option Text) (sdid n : ℕ) (cs : List Text) (t : Text) (scan_data : ScanData)
    → is_name sdid ≡ false
    → uuid_size sdid ≡ some n
    → All (IsChunk n) cs
    → length t < n
    → (get_value utf8 sdid (set_item sdid (concat cs ++ t) scan_data)
        ≡ ok (uuids (map (λ c. some (uuid_of c)) cs)))
      × All (λ c. make_uuid (uuid_text (uuid_of c)) ≡ ok (uuid_of c)) cs
unfolding get_value decode_value decode_uuid_list
get_value-services utf8 sdid n cs t scan_data other list h r =
    let (size, some_bytes) = uuid_size-sizes sdid n list in
    (
      rw
          (
            get_value,
            get_item-set_item sdid (concat cs ++ t) scan_data,
            decode_value,
            other,
            list,
            decode_uuid_list,
            decode_from-chunks n size some_bytes (length (concat cs ++ t)) cs t (omega arith) h r,
          )
          refl,
      shown_again n size cs h,
    )
