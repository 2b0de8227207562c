-- ===== src/Client/Scanner/Reports.antt =====
-- A device that the controller finds, from the management interface to the devices of the client.
use bluepy.Protocol.{rsp_scan}
use bluepy.Client.Peripheral.Lines.{resp_of}
use bluepy.Hci.Lines.{report_device-line}
use bluepy.Protocol.Responses.{reversed_bytes}
use bluepy.Client.Scan.{addr_type_of, update, type_changed, ScanEntry, take_report}
use bluepy.Common.Int.{to_u32-bound, negate, to_u32}
use bluepy.Client.Scanner.Devices.{
  on_scan-fields, parse_resp-fields, fields_if, report_on, IsReport,
}
use bluepy.Client.Scanner.{
  on_scan, take_scan, known_or_new, addr_text, Discovery, ScannedDevices, put_device, find_device,
}
use bluepy.Mgmt.Notices.{device_found_size, mgmt_device_found, DeviceFound}
use bluepy.Common.{
  ◌∙◌, true, ◌++◌, refl, ◌+◌, not, arith, ◌==◌, ◌/◌, List, ◌%◌, gather, false, ◌-◌, ltb, leb, some,
  ◌^◌, ◌≡◌, if◌then◌else◌, Text, ◌<◌, ℕ,
}
use bluepy.Client.Parse.{ok, parse_resp, Resp}
use bluepy.World.{printed_text, ret, assert, Event, get, scanning, World, ◌>>=◌, ◌>>◌}

-- The address of the device, as the client writes it.
abbrev pub address_of : DeviceFound → Text
address_of ev = addr_text (reversed_bytes ev.addr.bdaddr 6)

-- What the client knows of the device, which may be nothing.
abbrev pub known_device : DeviceFound → ScannedDevices → ScanEntry
known_device ev scanned = known_or_new (find_device (address_of ev) scanned)

-- The device has the type of address that is known of it, if one is.
abbrev pub KeepsType : DeviceFound → ScannedDevices → Type 0
KeepsType ev scanned =
    type_changed (known_device ev scanned).addr_type (addr_type_of ev.addr.addr_type) ≡ false

abbrev learnt : DeviceFound → ScannedDevices → ScanEntry
learnt ev scanned = (take_report (report_on ev) (known_device ev scanned)).0

abbrev told_of : DeviceFound → ScannedDevices → Discovery
told_of ev scanned = record {
  dev = learnt ev scanned;
  is_new_dev = leb (learnt ev scanned).update_count 1;
  is_new_data = (take_report (report_on ev) (known_device ev scanned)).1;
}

module _ (ev : DeviceFound) (v : World) (scanned : ScannedDevices) (h : IsReport ev)
    (c : v.conn_state ≡ scanning) (kept : KeepsType ev scanned) where
  -- The response of the helper, and what the client does with it.
  device-taken :
      (es : List Event) × (resp : Resp) × (mgmt_device_found (device_found_size + ev.eir_len) ev v
        ≡ ret tt (record v { trace = es ++ v.trace }))
      × (parse_resp (printed_text es) ≡ ok resp)
      × (on_scan resp scanned
          ≡ some (put_device (address_of ev) (learnt ev scanned) scanned, told_of ev scanned))
  unfolding mgmt_device_found ◌>>=◌ ◌>>◌ get assert take_scan update
  device-taken =
      let (es, eq, shown, only) =
        (report_device-line ev).emits (record v { conn_state = scanning }) in
      let rssi = to_u32 (negate ev.rssi) in
      let flags = (2 ^ 32 - ev.flags) % 2 ^ 32 in
      let payload = gather ev.eir 0 ev.eir_len in
      let small : ev.addr.addr_type < 2 ^ 32 = let t = h.address_type in omega arith in
      let same : (device_found_size + ev.eir_len == device_found_size + ev.eir_len) ≡ true =
        ground arith in
      (
        es,
        resp_of rsp_scan (fields_if ev.addr rssi flags payload (ltb 0 ev.eir_len)),
        rw (same, c) eq,
        rw shown (
            parse_resp-fields ev.addr rssi flags payload (ltb 0 ev.eir_len) h.address small
              (to_u32-bound (negate ev.rssi)) (omega arith) h.eir_bytes),
        on_scan-fields ev.addr rssi flags payload (ltb 0 ev.eir_len) scanned
            ∙ rw (take_scan, update, kept) refl,
      )

-- Bit 2 of the negated flags.
negated_bit :
    (f : ℕ)
    → f < 8
    → ((2 ^ 32 - f) % 2 ^ 32 / 4 % 2 == 0)
      ≡ (if f % 4 == 0 then f / 4 % 2 == 0 else not (f / 4 % 2 == 0))
negated_bit f h = ground arith

-- For such a device with flags below 8, of which bit 2 tells that it cannot be connected, what the
-- client makes of the response of the helper and tells the delegate about whether it can be connected
-- is right if the other two bits are 0, and is the opposite of what is right if one of them is set.
pub on_scan-flags :
    (ev : DeviceFound) (v : World) (scanned : ScannedDevices)
    → IsReport ev
    → v.conn_state ≡ scanning
    → KeepsType ev scanned
    → ev.flags < 8
    → (es : List Event) × (resp : Resp) × (now : ScannedDevices) × (told : Discovery)
      × (mgmt_device_found (device_found_size + ev.eir_len) ev v
          ≡ ret tt (record v { trace = es ++ v.trace }))
      × (parse_resp (printed_text es) ≡ ok resp)
      × (on_scan resp scanned ≡ some (now, told))
      × (told.dev.connectable
          ≡ (if ev.flags % 4 == 0 then ev.flags / 4 % 2 == 0 else not (ev.flags / 4 % 2 == 0)))
unfolding take_report
on_scan-flags ev v scanned h c kept low =
    let (es, resp, ran, parsed, taken) = device-taken ev v scanned h c kept in
    (
      es,
      resp,
      put_device (address_of ev) (learnt ev scanned) scanned,
      told_of ev scanned,
      ran,
      parsed,
      taken,
      negated_bit ev.flags low,
    )
