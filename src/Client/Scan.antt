-- ===== src/Client/Scan.antt =====
-- `ScanEntry`: what is kept of a device that was found.
--
-- bluepy/btle.py, lines 715 to 753. A report has the values that the helper sends: numbers for the
-- type of the address, the signal strength and the flags, and bytes for the data, if there are any.
use bluepy.Common.Int.{neg, ℤ}
pub mod Structures
pub mod Repeats
pub mod Values
pub mod Dictionary
use bluepy.Common.{
  ◌||◌, ◌+◌, take, ◌%◌, ◌/◌, drop, same_text, true, ◌==◌, not, suc, if◌then◌else◌, length, Text,
  some, false, Option, ℕ, Bool, none, List, [], ◌∷◌,
}

-- A dictionary from the type of a structure to its bytes, in insertion order.
abbrev pub ScanData : Type 0
ScanData = List (ℕ × Text)

-- `scanData[sdid] = val`
unfoldable pub set_item : ℕ → Text → ScanData → ScanData
set_item sdid val [] = (sdid, val) ∷ []
set_item sdid val ((k, v) ∷ scan_data) =
    let rest = set_item sdid val scan_data in
    if k == sdid then (k, val) ∷ scan_data else (k, v) ∷ rest

-- `sdid in scanData and val == scanData[sdid]`
unfoldable pub has_item : ℕ → Text → ScanData → Bool
has_item sdid val [] = false
has_item sdid val ((k, v) ∷ scan_data) =
    if k == sdid then same_text val v else has_item sdid val scan_data

-- The loop over `data`, with `isNewData`. Each round drops a byte at least.
unfoldable pub update_data : ℕ → Text → ScanData → Bool → ScanData × Bool
update_data (suc fuel) (sdlen ∷ sdid ∷ rest) scan_data is_new =
    let data' = sdlen ∷ sdid ∷ rest in
    let val = drop 2 (take (sdlen + 1) data') in
    update_data fuel (drop (sdlen + 1) data') (set_item sdid val scan_data)
      (not (has_item sdid val scan_data) || is_new)
update_data _ data' scan_data is_new = (scan_data, is_new)

-- `ADDR_TYPE_PUBLIC` and `ADDR_TYPE_RANDOM`
pub data AddrType : Type 0 where
  public random : AddrType

-- `addrTypes.get(type, None)`
unfoldable pub addr_type_of : ℕ → Option AddrType
addr_type_of t =
    if t == 1 then some AddrType.public else if t == 2 then some AddrType.random else none

-- The values of a response that `_update` takes.
pub record Report : Type 0 where
  pub type_number : ℕ
  pub rssi : ℕ
  pub flag : ℕ
  pub payload : Option Text

pub record ScanEntry : Type 0 where
  pub addr_type : Option AddrType
  pub rssi : Option ℤ
  pub connectable : Bool
  pub raw_data : Option Text
  pub scan_data : ScanData
  pub update_count : ℕ

-- The entry that `__init__` makes.
abbrev pub new_entry : ScanEntry
new_entry = record {
  addr_type = none;
  rssi = none;
  connectable = false;
  raw_data = none;
  scan_data = [];
  update_count = 0;
}

abbrev same_type : AddrType → Option AddrType → Bool
same_type AddrType.public (some AddrType.public) = true
same_type AddrType.random (some AddrType.random) = true
same_type _ _ = false

-- `self.addrType is not None and addrType != self.addrType`
abbrev pub type_changed : Option AddrType → Option AddrType → Bool
type_changed none new = false
type_changed (some old) new = not (same_type old new)

-- `resp.get('d', [''])[0]`
abbrev pub data_of : Option Text → Text
data_of none = []
data_of (some s) = s

-- What `_update` does behind its test: the new entry, and whether there is new data.
unfoldable pub take_report : Report → ScanEntry → ScanEntry × Bool
take_report r entry =
    let data' = data_of r.payload in
    let (scan_data, is_new) = update_data (length data') data' entry.scan_data false in
    (
      record {
        addr_type = addr_type_of r.type_number;
        rssi = some (neg r.rssi);
        connectable = (r.flag / 4) % 2 == 0;
        raw_data = some data';
        scan_data = scan_data;
        update_count = entry.update_count + 1;
      },
      is_new,
    )

-- `_update`; `none` where it raises an error.
unfoldable pub update : Report → ScanEntry → Option (ScanEntry × Bool)
update r entry =
    if type_changed entry.addr_type (addr_type_of r.type_number)
    then none
    else some (take_report r entry)
