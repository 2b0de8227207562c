-- ===== src/Client/Scan/Values.antt =====
-- `ScanEntry`: the values of the structures that a device has advertised, and their texts.
--
-- bluepy/btle.py, lines 751 to 802. Python's decoder of UTF-8 is a parameter, which is none where it
-- raises an error.
use bluepy.Client.Scanner.{b2a_hex}
use bluepy.Client.Uuid.{make_uuid, uuid_text}
use bluepy.Client.Scan.{ScanData}
use bluepy.Common.Hex.{show_byte}
pub mod Services
use bluepy.Client.Parse.{◌>>=◌, Result, ok}
use bluepy.Common.{
  ◌&&◌, ◌||◌, take, leb, ltb, drop, ◌==◌, map, some, suc, Bool, length, none, if◌then◌else◌, codes,
  ◌++◌, Option, List, Text, ℕ, [], ◌∷◌,
}

-- The loop of `_decodeUUID` over the bytes, the digits of each before those of the last.
unfoldable pub big_endian : Text → Text → Text
big_endian [] rs = rs
big_endian (b ∷ bs) rs = big_endian bs (show_byte b ++ rs)

-- `_decodeUUID`, for at most as many bytes as there are
unfoldable pub decode_uuid : Text → ℕ → Result (Option Text)
decode_uuid val nbytes =
    if ltb (length val) nbytes
    then ok none
    else make_uuid (big_endian (take nbytes val) []) >>= λ uuid. ok (some uuid)

-- The loop of `_decodeUUIDlist`, on the bytes from the index on.
unfoldable pub decode_from : ℕ → Text → ℕ → Result (List (Option Text))
decode_from (suc fuel) (b ∷ bs) nbytes =
    let val = b ∷ bs in
    let rest = decode_from fuel (drop nbytes val) nbytes in
    if leb nbytes (length val)
    then (decode_uuid (take nbytes val) nbytes >>= λ uuid. rest >>= λ us. ok (uuid ∷ us))
    else rest
decode_from _ _ nbytes = ok []

-- `_decodeUUIDlist`; each round passes one byte at least.
unfoldable pub decode_uuid_list : Text → ℕ → Result (List (Option Text))
decode_uuid_list val nbytes = decode_from (length val) val nbytes

-- What `getValue` returns.
pub data ScanValue : Type 0 where
  absent : ScanValue
  name : Text → ScanValue
  uuids : List (Option Text) → ScanValue
  raw : Text → ScanValue

-- `self.scanData.get(sdid, None)`
unfoldable pub get_item : ℕ → ScanData → Option Text
get_item sdid [] = none
get_item sdid ((k, v) ∷ scan_data) =
    let rest = get_item sdid scan_data in if k == sdid then some v else rest

-- `[SHORT_LOCAL_NAME, COMPLETE_LOCAL_NAME]`
abbrev pub is_name : ℕ → Bool
is_name sdid = sdid == 0x08 || sdid == 0x09

-- How many bytes a UUID has in a structure of that type, if it is a list of services.
abbrev pub uuid_size : ℕ → Option ℕ
uuid_size sdid =
    if sdid == 0x02 || sdid == 0x03
    then some 2
    else if sdid == 0x04 || sdid == 0x05
    then some 4
    else if sdid == 0x06 || sdid == 0x07
    then some 16
    else none

-- `chr(x) if (x>=32 and x<=127) else '?'`
abbrev pub printable : ℕ → ℕ
printable x = if leb 32 x && leb x 127 then x else b'?'

-- `','.join(…)`
unfoldable pub join_commas : List Text → Text
join_commas [] = []
join_commas (s ∷ []) = s
join_commas (s ∷ t ∷ ts) = s ++ b',' ∷ join_commas (t ∷ ts)

-- `str(v)` of a UUID or of None
abbrev pub uuid_str : Option Text → Text
uuid_str none = codes "None"
uuid_str (some uuid) = uuid_text uuid

-- `getValueText` of a value
unfoldable pub value_text : ScanValue → Option Text
value_text absent = none
value_text (name s) = some s
value_text (uuids us) = some (join_commas (map uuid_str us))
value_text (raw val) = some (b2a_hex val)

module _ (utf8 : Text → Option Text) where
  unfoldable pub decode_name : Text → Text
  decode_name val = elim (utf8 val) [ some s ↦ s | none ↦ map printable val ]

  unfoldable pub decode_value : ℕ → Text → Result ScanValue
  decode_value sdid val =
      if is_name sdid then ok (name (decode_name val)) else elim (uuid_size sdid) [
        | some nbytes ↦ decode_uuid_list val nbytes >>= λ us. ok (uuids us)
        | none ↦ ok (raw val)
      ]

  -- `getValue`
  unfoldable pub get_value : ℕ → ScanData → Result ScanValue
  get_value sdid scan_data = elim (get_item sdid scan_data) [
    | none ↦ ok absent
    | some val ↦ decode_value sdid val
  ]

  -- `getValueText`
  unfoldable pub get_value_text : ℕ → ScanData → Result (Option Text)
  get_value_text sdid scan_data = get_value sdid scan_data >>= λ value. ok (value_text value)
