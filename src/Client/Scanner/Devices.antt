-- ===== src/Client/Scanner/Devices.antt =====
-- A device that the helper reports is known to the client.
use bluepy.Client.Parse.Plain.{plain-IsCleanText}
use bluepy.Client.Peripheral.Lines.{resp_of}
use bluepy.Protocol.Responses.{line, addr_fields, field, reversed_bytes}
use bluepy.Client.Parse.RoundTrip.{parse_resp-encode, IsCleanField}
use bluepy.Common.Hex.Digits.{All}
use bluepy.Client.Wait.{lookup, first_value}
use bluepy.Common.Int.{negate, negsuc, to_u32}
use bluepy.Client.Scan.{Report}
use bluepy.Protocol.{
  tag_response, tag_flag, tag_type, tag_rssi, tag_data, tag_addr, rsp_scan, AddrInfo,
}
use bluepy.Mgmt.Notices.{DeviceFound}
use bluepy.Protocol.Wire.{sym as symbol, uint, bytes, Field}
use bluepy.Client.Parse.{ok, parse_resp, PyValue, add_value}
use bluepy.Client.Scanner.{ScannedDevices, addr_text, take_scan, report_of, on_scan}
use bluepy.Common.{
  refl, false, ltb, ◌%◌, none, ◌++◌, true, zero, arith, some, ◌-◌, gather, suc, codes, List, ◌^◌,
  if◌then◌else◌, byte_at, Bool, ◌≡◌, Text, ◌<◌, ℕ, [], ◌∷◌,
}

module _ (addr : AddrInfo) (rssi flags : ℕ) (payload : Text) where
  -- The fields of a scan response, with or without data.
  abbrev pub fields_if : Bool → List Field
  fields_if has_data =
      addr_fields addr
      ++ field tag_rssi (uint rssi)
        ∷ field tag_flag (uint flags)
        ∷ ((if has_data then field tag_data (bytes payload) ∷ [] else []) ++ [])

  -- The values that the client takes from them.
  abbrev pub report_if : Bool → Report
  report_if has_data = record {
    type_number = addr.addr_type;
    rssi = rssi;
    flag = flags;
    payload = if has_data then some payload else none;
  }

  report_of-fields :
      (has_data : Bool)
      → report_of (resp_of rsp_scan (fields_if has_data)) ≡ some (report_if has_data)
  unfolding report_of first_value lookup add_value
  report_of-fields true = refl
  report_of-fields false = refl

  addr-fields :
      (has_data : Bool)
      → first_value (codes "addr") (resp_of rsp_scan (fields_if has_data))
        ≡ some (PyValue.bytes (reversed_bytes addr.bdaddr 6))
  unfolding first_value lookup add_value
  addr-fields true = refl
  addr-fields false = refl

  pub on_scan-fields :
      (has_data : Bool) (scanned : ScannedDevices)
      → on_scan (resp_of rsp_scan (fields_if has_data)) scanned
        ≡ take_scan (addr_text (reversed_bytes addr.bdaddr 6)) (report_if has_data) scanned
  unfolding on_scan
  on_scan-fields has_data scanned = rw (on_scan, addr-fields has_data, report_of-fields has_data)

  byte_at-bound : (s : Text) (i : ℕ) → All (λ b. b < 256) s → byte_at s i < 256
  byte_at-bound [] i h = omega arith
  byte_at-bound (c ∷ s) zero h = h.0
  byte_at-bound (c ∷ s) (suc i) h = byte_at-bound s i h.1

  reversed-bound :
      (s : Text) (n : ℕ) → All (λ b. b < 256) s → All (λ b. b < 256) (reversed_bytes s n)
  reversed-bound s zero h = tt
  reversed-bound s (suc n) h = (byte_at-bound s n h, reversed-bound s n h)

  data-IsCleanField :
      (has_data : Bool)
      → All (λ b. b < 256) payload
      → All IsCleanField ((if has_data then field tag_data (bytes payload) ∷ [] else []) ++ [])
  data-IsCleanField true h = ((plain-IsCleanText tag_data refl, h), tt)
  data-IsCleanField false h = tt

  pub fields-IsCleanField :
      (has_data : Bool)
      → All (λ b. b < 256) addr.bdaddr
      → addr.addr_type < 2 ^ 32
      → rssi < 2 ^ 32
      → flags < 2 ^ 32
      → All (λ b. b < 256) payload
      → All IsCleanField (fields_if has_data)
  fields-IsCleanField has_data a t r f p = (
    (plain-IsCleanText tag_addr refl, reversed-bound addr.bdaddr 6 a),
    (
      (plain-IsCleanText tag_type refl, t),
      (
        (plain-IsCleanText tag_rssi refl, r),
        ((plain-IsCleanText tag_flag refl, f), data-IsCleanField has_data p),
      ),
    ),
  )

  pub parse_resp-fields :
      (has_data : Bool)
      → All (λ b. b < 256) addr.bdaddr
      → addr.addr_type < 2 ^ 32
      → rssi < 2 ^ 32
      → flags < 2 ^ 32
      → All (λ b. b < 256) payload
      → parse_resp (line rsp_scan (fields_if has_data)) ≡ ok (resp_of rsp_scan (fields_if has_data))
  parse_resp-fields has_data a t r f p =
      parse_resp-encode (field tag_response (symbol rsp_scan)) (fields_if has_data)
        (plain-IsCleanText (codes "rsp") refl, plain-IsCleanText rsp_scan refl)
        (fields-IsCleanField has_data a t r f p)

-- The device as the management interface reports it: its strength is a negative number of a byte,
-- and its address, flags and data are of the sizes that they have there.
pub record IsReport (ev : DeviceFound) : Type 0 where
  pub strength : (n : ℕ) × (ev.rssi ≡ negsuc n) × (n < 128)
  pub address : All (λ b. b < 256) ev.addr.bdaddr
  pub address_type : ev.addr.addr_type < 256
  pub some_flags : ev.flags < 2 ^ 32
  pub eir_bytes : All (λ b. b < 256) (gather ev.eir 0 ev.eir_len)

-- What the client takes from the response to such a device.
abbrev pub report_on : DeviceFound → Report
report_on ev =
    report_if ev.addr (to_u32 (negate ev.rssi)) ((2 ^ 32 - ev.flags) % 2 ^ 32)
      (gather ev.eir 0 ev.eir_len) (ltb 0 ev.eir_len)
