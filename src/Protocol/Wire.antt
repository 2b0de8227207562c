-- ===== src/Protocol/Wire.antt =====
-- The wire format as data: a response is a list of tagged values.
use bluepy.Common.{ℕ, List, [], ◌∷◌, ◌++◌, Text}
use bluepy.Common.Hex.{show_hex, show_byte}

-- What `send_sym`, `send_uint`, `send_str` and `send_data` put after a tag.
pub data Value : Type 0 where
  sym : Text → Value
  uint : ℕ → Value
  str : Text → Value
  bytes : Text → Value

pub record Field : Type 0 where
  pub tag : Text
  pub value : Value

abbrev pub hex_bytes : Text → Text
hex_bytes [] = []
hex_bytes (b ∷ bs) = show_byte b ++ hex_bytes bs

abbrev pub encode_value : Value → Text
encode_value (sym s) = b'$' ∷ s
encode_value (uint n) = b'h' ∷ show_hex n
encode_value (str s) = b'\'' ∷ s
encode_value (bytes s) = b'b' ∷ hex_bytes s

abbrev pub encode_field : Field → Text
encode_field f = f.tag ++ b'=' ∷ encode_value f.value

-- The fields behind the first, each behind a delimiter.
abbrev pub encode_more : List Field → Text
encode_more [] = []
encode_more (f ∷ fs) = 0x1e ∷ (encode_field f ++ encode_more fs)

-- A response without its newline.
abbrev pub encode : Field → List Field → Text
encode f fs = encode_field f ++ encode_more fs
