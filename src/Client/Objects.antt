-- ===== src/Client/Objects.antt =====
-- `Descriptor` and `Characteristic`: the objects that are made of what was discovered.
--
-- bluepy/btle.py, lines 89 to 100 and 170 to 252. A call that ends with an exception gives no object.
-- `failed crashed` is an exception of Python: a value that is no UUID, or a handle that is no number;
-- where an item is missing behind such a value, the missing item is reported. The helper sends no
-- negative number.
use bluepy.Client.Wait.{crashed}
use bluepy.Client.Peripheral.Methods.{expect}
use bluepy.Client.Scanner.{number_of}
use bluepy.Common.Int.{pos}
use bluepy.Client.Peripheral.Discovery.{
  descs_of_resp, chars_of_resp, descriptors_command, characteristics_command, FoundDesc, FoundChar,
}
use bluepy.Client.Uuid.{make_uuid}
use bluepy.Common.Hex.{show_hex}
use bluepy.Client.Peripheral.{failed, fetched, read_command, write_command, Fetched}
pub mod Service
pub mod Dictionary
pub mod Kept
pub mod Found
pub mod Discovered
use bluepy.Common.{
  length, ◌==◌, ◌-◌, ◌^◌, none, ◌%◌, false, ◌++◌, ◌/◌, same_text, some, leb, replicate,
  if◌then◌else◌, ◌||◌, ◌+◌, codes, not, Bool, ℕ, List, Option, Text, [], ◌∷◌,
}
use bluepy.Client.Parse.{value_error, ok, Resp, Result, text, int, bytes, PyValue}
use bluepy.Client.Talk.{value_of, with_outcome, write, done, Talk, ◌>>=◌, ◌>>◌}

-- `"%04X"` of a number of 32 bits
unfoldable pub show_short : ℕ → Text
show_short n = let digits = show_hex n in replicate (4 - length digits) b'0' ++ digits

-- `UUID(val).binVal`; the text of None or of bytes has no hexadecimal form.
unfoldable pub uuid_of_value : PyValue → Result Text
uuid_of_value (text s) = make_uuid s
uuid_of_value (int (pos n)) = if leb (2 ^ 32) n then value_error else make_uuid (show_short n)
uuid_of_value _ = value_error

abbrev pub fetched_uuid : Result Text → Fetched Text
fetched_uuid (ok u) = fetched u
fetched_uuid _ = failed crashed

abbrev pub uuid_from : PyValue → Talk Text
uuid_from v = with_outcome (fetched_uuid (uuid_of_value v))

abbrev fetched_number : Option ℕ → Fetched ℕ
fetched_number (some n) = fetched n
fetched_number none = failed crashed

abbrev pub number_from : PyValue → Talk ℕ
number_from v = with_outcome (fetched_number (number_of (some v)))

abbrev equals : Text → Result Text → Bool
equals u (ok v) = same_text u v
equals u _ = false

-- `uuid == n`
unfoldable pub is_uuid : ℕ → Text → Bool
is_uuid n u = equals u (uuid_of_value (int (pos n)))

pub record Descriptor : Type 0 where
  pub uuid : Text
  pub handle : PyValue

unfoldable pub make_descriptors : List FoundDesc → Talk (List Descriptor)
make_descriptors [] = done []
make_descriptors (d ∷ ds) = do
  u ← uuid_from d.uuid
  rest ← make_descriptors ds
  done (record { uuid = u; handle = d.handle } ∷ rest)

-- `Peripheral.getDescriptors`
unfoldable pub peripheral_descriptors : ℕ → ℕ → Talk (List Descriptor)
peripheral_descriptors start end = do
  write (descriptors_command start end)
  resp ← expect (codes "desc")
  items ← with_outcome (descs_of_resp resp)
  make_descriptors items

-- The descriptors that were discovered before; none is also what there is at first.
pub record Characteristic : Type 0 where
  pub uuid : Text
  pub handle : PyValue
  pub properties : PyValue
  pub val_handle : PyValue
  pub descs : List Descriptor

unfoldable pub make_characteristics : List FoundChar → Talk (List Characteristic)
make_characteristics [] = done []
make_characteristics (c ∷ cs) = do
  u ← uuid_from c.uuid
  rest ← make_characteristics cs
  done (
      record {
        uuid = u;
        handle = c.handle;
        properties = c.properties;
        val_handle = c.val_handle;
        descs = [];
      }
      ∷ rest)

-- `Peripheral.getCharacteristics`
unfoldable pub peripheral_characteristics : ℕ → ℕ → Option Text → Talk (List Characteristic)
peripheral_characteristics start end uuid = do
  write (characteristics_command start end uuid)
  resp ← expect (codes "find")
  items ← with_outcome (chars_of_resp resp)
  make_characteristics items

-- `desc.uuid in (0x2800, 0x2801, 0x2803)`
abbrev pub is_declaration : Text → Bool
is_declaration u = is_uuid 0x2800 u || (is_uuid 0x2801 u || is_uuid 0x2803 u)

-- The loop that stops at another characteristic or service.
unfoldable pub until_declaration : List Descriptor → List Descriptor
until_declaration [] = []
until_declaration (d ∷ ds) =
    let rest = until_declaration ds in if is_declaration d.uuid then [] else d ∷ rest

-- The first half of `Characteristic.getDescriptors`: they are discovered if there are none.
unfoldable pub fill_descriptors : ℕ → Characteristic → Talk Characteristic
fill_descriptors end char = elim char.descs [
  | [] ↦ do
    h ← number_from char.val_handle
    found ← peripheral_descriptors (h + 1) end
    done (record char { descs = until_declaration found })
  | d ∷ ds ↦ done char
]

-- `[desc for desc in self.descs if desc.uuid == u]`
unfoldable pub with_uuid : Text → List Descriptor → List Descriptor
with_uuid u [] = []
with_uuid u (d ∷ ds) = let rest = with_uuid u ds in if same_text d.uuid u then d ∷ rest else rest

-- The descriptors for the UUID, or all.
unfoldable pub choose_descriptors : Option PyValue → List Descriptor → Talk (List Descriptor)
choose_descriptors none descs = done descs
choose_descriptors (some v) descs = do u ← uuid_from v; done (with_uuid u descs)

-- `Characteristic.getDescriptors`
unfoldable pub char_descriptors :
    Option PyValue → ℕ → Characteristic → Talk (Characteristic × List Descriptor)
char_descriptors for_uuid end char = do
  char' ← fill_descriptors end char
  descs ← choose_descriptors for_uuid char'.descs
  done (char', descs)

-- `Peripheral.readCharacteristic`, `Characteristic.read` and `Descriptor.read`
unfoldable pub read_handle : PyValue → Talk PyValue
read_handle handle = do
  h ← number_from handle
  write (read_command h)
  resp ← expect (codes "rd")
  value_of (codes "d") resp

-- `Characteristic.write`
unfoldable pub write_handle : Bool → PyValue → Text → Talk Resp
write_handle with_response handle val = do
  h ← number_from handle
  write (write_command with_response h val)
  expect (codes "wr")

-- `self.properties & p`, for a power of two
abbrev has_property : ℕ → ℕ → Bool
has_property properties p = not ((properties / p) % 2 == 0)

-- `Characteristic.supportsRead`
unfoldable pub supports_read : ℕ → Bool
supports_read properties = has_property properties 0x02

-- `propNames`
abbrev prop_names : List (ℕ × Text)
prop_names =
    (0x01, codes "BROADCAST")
    ∷ (0x02, codes "READ")
    ∷ (0x04, codes "WRITE NO RESPONSE")
    ∷ (0x08, codes "WRITE")
    ∷ (0x10, codes "NOTIFY")
    ∷ (0x20, codes "INDICATE")
    ∷ (0x40, codes "WRITE SIGNED")
    ∷ (0x80, codes "EXTENDED PROPERTIES")
    ∷ []

unfoldable pub prop_str : ℕ → List (ℕ × Text) → Text
prop_str properties [] = []
prop_str properties ((p, name) ∷ names) =
    let rest = prop_str properties names in
    if has_property properties p then name ++ codes " " ++ rest else rest

-- `Characteristic.propertiesToString`
unfoldable pub properties_to_string : ℕ → Text
properties_to_string properties = prop_str properties prop_names
