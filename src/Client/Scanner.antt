-- ===== src/Client/Scanner.antt =====
-- `Scanner.process`: what a scan response does to the devices that are known.
--
-- bluepy/btle.py, lines 864 to 875. A response that `_update` raises an error for, or that lacks a
-- value of the kind that the helper sends, is told apart from the others, and not how it fails.
use bluepy.Client.Parse.{PyValue, int, bytes, Resp}
use bluepy.Common.Int.{pos}
use bluepy.Client.Wait.{first_value}
use bluepy.Client.Scan.{update, Report, new_entry, ScanEntry}
pub mod Devices
pub mod Reports
pub mod Control
use bluepy.Common.{
  ◌-◌, ◌+◌, leb, some, same_text, drop, codes, ltb, ◌%◌, take, ◌/◌, Bool, ◌++◌, if◌then◌else◌, none,
  Text, List, ℕ, Option, [], ◌∷◌,
}

unfoldable pub lower_digit : ℕ → ℕ
lower_digit d = if ltb d 10 then b'0' + d else b'a' + (d - 10)

-- `binascii.b2a_hex`
unfoldable pub b2a_hex : Text → Text
b2a_hex [] = []
b2a_hex (b ∷ bs) = lower_digit (b / 16) ∷ lower_digit (b % 16) ∷ b2a_hex bs

-- `addr[i:i+2]`
abbrev slice : Text → ℕ → Text
slice s i = take 2 (drop i s)

-- `':'.join([addr[i:i+2] for i in range(0,12,2)])`
abbrev join_slices : Text → Text
join_slices s =
    slice s 0
    ++ b':'
      ∷ (slice s 2
          ++ b':' ∷ (slice s 4 ++ b':' ∷ (slice s 6 ++ b':' ∷ (slice s 8 ++ b':' ∷ slice s 10))))

unfoldable pub addr_text : Text → Text
addr_text bdaddr = join_slices (b2a_hex bdaddr)

abbrev pub number_of : Option PyValue → Option ℕ
number_of (some (int (pos n))) = some n
number_of _ = none

abbrev bytes_of : Option PyValue → Option Text
bytes_of (some (bytes s)) = some s
bytes_of _ = none

-- The data of a response that has any, and none of one that has no such key.
abbrev payload_of : Option PyValue → Option (Option Text)
payload_of none = some none
payload_of (some (bytes s)) = some (some s)
payload_of (some v) = none

abbrev make_report : Option ℕ → Option ℕ → Option ℕ → Option (Option Text) → Option Report
make_report (some type_number) (some rssi) (some flag) (some payload) =
    some (record { type_number = type_number; rssi = rssi; flag = flag; payload = payload })
make_report _ _ _ _ = none

-- The values of the response that `_update` takes.
unfoldable pub report_of : Resp → Option Report
report_of resp =
    make_report (number_of (first_value (codes "type") resp))
      (number_of (first_value (codes "rssi") resp)) (number_of (first_value (codes "flag") resp))
      (payload_of (first_value (codes "d") resp))

-- `self.scanned`
abbrev pub ScannedDevices : Type 0
ScannedDevices = List (Text × ScanEntry)

-- `self.scanned[addr]`, where it is there.
unfoldable pub find_device : Text → ScannedDevices → Option ScanEntry
find_device addr [] = none
find_device addr ((a, dev) ∷ scanned) =
    if same_text a addr then some dev else find_device addr scanned

-- The device with its new state.
unfoldable pub put_device : Text → ScanEntry → ScannedDevices → ScannedDevices
put_device addr dev [] = (addr, dev) ∷ []
put_device addr dev ((a, old) ∷ scanned) =
    if same_text a addr then (a, dev) ∷ scanned else (a, old) ∷ put_device addr dev scanned

-- The arguments of `handleDiscovery`.
pub record Discovery : Type 0 where
  pub dev : ScanEntry
  pub is_new_dev : Bool
  pub is_new_data : Bool

abbrev pub known_or_new : Option ScanEntry → ScanEntry
known_or_new none = new_entry
known_or_new (some dev) = dev

abbrev discovered :
    Text → ScannedDevices → Option (ScanEntry × Bool) → Option (ScannedDevices × Discovery)
discovered addr scanned none = none
discovered addr scanned (some (dev, is_new_data)) = some (
  put_device addr dev scanned,
  record { dev = dev; is_new_dev = leb dev.update_count 1; is_new_data = is_new_data },
)

unfoldable pub take_scan : Text → Report → ScannedDevices → Option (ScannedDevices × Discovery)
take_scan addr r scanned =
    discovered addr scanned (update r (known_or_new (find_device addr scanned)))

abbrev on_report :
    Option Text → Option Report → ScannedDevices → Option (ScannedDevices × Discovery)
on_report (some bdaddr) (some r) scanned = take_scan (addr_text bdaddr) r scanned
on_report _ _ scanned = none

-- The branch on a scan response.
unfoldable pub on_scan : Resp → ScannedDevices → Option (ScannedDevices × Discovery)
on_scan resp scanned =
    on_report (bytes_of (first_value (codes "addr") resp)) (report_of resp) scanned
