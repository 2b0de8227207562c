-- ===== src/Client/Parse/RoundTrip.antt =====
-- What the helper prints as a response, `parse_resp` reads as the same tags and values.
use bluepy.Common.{
  ◌%◌, ◌≢◌, ◌/◌, ℕ, ◌^◌, ◌<◌, false, List, [], ◌∷◌, ◌++◌, ◌≡◌, refl, Text, arith, append-nil,
}
use bluepy.Common.Hex.{show_hex, show_byte}
use bluepy.Common.Hex.Digits.{IsUpperHex, All, show_hex-IsUpperHex, hex_digit-IsUpperHex}
use bluepy.Common.Int.{pos}
use bluepy.Protocol.Wire.{
  Value, sym, uint, str, bytes, Field, hex_bytes, encode_value, encode_field, encode_more, encode,
}
use bluepy.Client.Parse.{
  ok, PyValue, text, int, Resp, is_py_space, rstrip, split, parse_value, add_value, parse_item,
  parse_items, parse_resp,
}
use bluepy.Client.Parse.Numbers.{py_int-show_hex, a2b_hex-hex_bytes, rstrip-digits}
use bluepy.Client.Parse.Split.{
  append-Lacks, Lacks, IsSolid, split-Lacks, split-append, append-IsSolid, cons-IsSolid,
  rstrip-line,
}

-- A text that survives the protocol: no delimiter, no equals sign, no white space at its end.
pub record IsCleanText (s : Text) : Type 0 where
  pub no_delim : Lacks 0x1e s
  pub no_equals : Lacks b'=' s
  pub stripped : rstrip s ≡ s

abbrev pub IsClean : Value → Type 0
IsClean (sym s) = IsCleanText s
IsClean (uint n) = n < 2 ^ 32
IsClean (str s) = IsCleanText s
IsClean (bytes s) = All (λ b. b < 256) s

abbrev pub IsCleanField : Field → Type 0
IsCleanField f = IsCleanText f.tag × IsClean f.value

abbrev pub decode : Value → PyValue
decode (sym s) = text s
decode (uint n) = int (pos n)
decode (str s) = text s
decode (bytes s) = PyValue.bytes s

-- The dictionary of a list of fields: the values of one tag in their order.
abbrev pub collect : List Field → Resp → Resp
collect [] resp = resp
collect (f ∷ fs) resp = collect fs (add_value f.tag (decode f.value) resp)

hex_bytes-IsUpperHex : (s : Text) → All (λ b. b < 256) s → All IsUpperHex (hex_bytes s)
unfolding show_byte
hex_bytes-IsUpperHex [] h = tt
hex_bytes-IsUpperHex (b ∷ s) h = (
  hex_digit-IsUpperHex (b / 16) (omega arith),
  (hex_digit-IsUpperHex (b % 16) (omega arith), hex_bytes-IsUpperHex s h.1),
)

digits-Lacks_delim : (s : Text) → All IsUpperHex s → Lacks 0x1e s
digits-Lacks_delim [] h = tt
digits-Lacks_delim (c ∷ s) h = (ground arith, digits-Lacks_delim s h.1)

digits-Lacks_equals : (s : Text) → All IsUpperHex s → Lacks b'=' s
digits-Lacks_equals [] h = tt
digits-Lacks_equals (c ∷ s) h = (ground arith, digits-Lacks_equals s h.1)

digits-IsCleanText : (s : Text) → All IsUpperHex s → IsCleanText s
digits-IsCleanText s h = record {
  no_delim = digits-Lacks_delim s h;
  no_equals = digits-Lacks_equals s h;
  stripped = rstrip-digits s h;
}

-- One more character in front, which is neither special nor white space.
cons-IsCleanText :
    (c : ℕ) (s : Text)
    → c ≢ 0x1e
    → c ≢ b'='
    → is_py_space c ≡ false
    → IsCleanText s
    → IsCleanText (c ∷ s) × IsSolid (c ∷ s)
cons-IsCleanText c s d e p h =
    let solid = cons-IsSolid c s p h.stripped in
    (record { no_delim = (d, h.no_delim); no_equals = (e, h.no_equals); stripped = solid.0 }, solid)

value-IsCleanText :
    (v : Value) → IsClean v → IsCleanText (encode_value v) × IsSolid (encode_value v)
value-IsCleanText (sym s) h = cons-IsCleanText b'$' s (omega arith) (omega arith) refl h
value-IsCleanText (uint n) h =
    cons-IsCleanText b'h' (show_hex n) (omega arith) (omega arith) refl
      (digits-IsCleanText (show_hex n) (show_hex-IsUpperHex n))
value-IsCleanText (str s) h = cons-IsCleanText b'\'' s (omega arith) (omega arith) refl h
value-IsCleanText (bytes s) h =
    cons-IsCleanText b'b' (hex_bytes s) (omega arith) (omega arith) refl
      (digits-IsCleanText (hex_bytes s) (hex_bytes-IsUpperHex s h))

parse_value-encode_value : (v : Value) → IsClean v → parse_value (encode_value v) ≡ ok (decode v)
unfolding parse_value
parse_value-encode_value (sym s) h = refl
parse_value-encode_value (uint n) h = rw (py_int-show_hex n h)
parse_value-encode_value (str s) h = refl
parse_value-encode_value (bytes s) h = rw (a2b_hex-hex_bytes s h)

parse_item-encode_field :
    (f : Field)
    → IsCleanField f
    → parse_item (split b'=' (encode_field f)) ≡ ok (f.tag, decode f.value)
unfolding parse_item
parse_item-encode_field f h = rw (
  split-append b'=' f.tag (encode_value f.value) h.0.no_equals,
  split-Lacks b'=' (encode_value f.value) (value-IsCleanText f.value h.1).0.no_equals,
  parse_value-encode_value f.value h.1,
)

field-IsSolid : (f : Field) → IsCleanField f → IsSolid (encode_field f)
field-IsSolid f h =
    append-IsSolid f.tag (b'=' ∷ encode_value f.value)
      (append-IsSolid (b'=' ∷ []) (encode_value f.value) (value-IsCleanText f.value h.1).1)

field-Lacks_delim : (f : Field) → IsCleanField f → Lacks 0x1e (encode_field f)
field-Lacks_delim f h =
    append-Lacks 0x1e f.tag (b'=' ∷ encode_value f.value) h.0.no_delim
      (omega arith, (value-IsCleanText f.value h.1).0.no_delim)

encode-IsSolid :
    (f : Field) (fs : List Field) → IsCleanField f → All IsCleanField fs → IsSolid (encode f fs)
encode-IsSolid f [] h hs = rw append-nil (field-IsSolid f h)
encode-IsSolid f (g ∷ gs) h hs =
    append-IsSolid (encode_field f) (encode_more (g ∷ gs))
      (append-IsSolid (0x1e ∷ []) (encode g gs) (encode-IsSolid g gs hs.0 hs.1))

parse_items-encode :
    (f : Field) (fs : List Field) (resp : Resp)
    → IsCleanField f
    → All IsCleanField fs
    → parse_items (split 0x1e (encode f fs)) resp ≡ ok (collect (f ∷ fs) resp)
unfolding parse_items
parse_items-encode f [] resp h hs = rw (
  append-nil,
  split-Lacks 0x1e (encode_field f) (field-Lacks_delim f h),
  parse_items,
  parse_item-encode_field f h,
)
parse_items-encode f (g ∷ gs) resp h hs =
    rw
      (
        split-append 0x1e (encode_field f) (encode g gs) (field-Lacks_delim f h),
        parse_items,
        parse_item-encode_field f h,
      )
      (parse_items-encode g gs (add_value f.tag (decode f.value) resp) hs.0 hs.1)

-- A line of fields whose texts have no delimiter, no equals sign and no white space at their end,
-- whose numbers are below 2^32 and whose bytes are below 256 is parsed into the dictionary that
-- `add_value` makes of its fields.
pub parse_resp-encode :
    (f : Field) (fs : List Field)
    → IsCleanField f
    → All IsCleanField fs
    → parse_resp (encode f fs ++ 10 ∷ []) ≡ ok (collect (f ∷ fs) [])
unfolding parse_resp
parse_resp-encode f fs h hs =
    rw (rstrip-line (encode f fs) (encode-IsSolid f fs h hs)) (parse_items-encode f fs [] h hs)
