-- ===== src/Client/Scanner/Control/Processing.antt =====
-- How `process` goes with the devices that the helper reports.
use bluepy.Status.Lines.{status_fields}
use bluepy.Client.Parse.Plain.{plain-IsCleanText}
use bluepy.Client.Talk.Lines.{wait_resp-line}
use bluepy.Client.Peripheral.{fetched}
use bluepy.Client.Scanner.Control.Starting.{mgmt_cmd-succeeded, succeeded, AllIgnored}
use bluepy.Client.Peripheral.Connect.Handshake.{state-value, status-IsCleanField, IsCleanStatus}
use bluepy.Client.Peripheral.Lines.{first_value-resp_of, resp_of}
use bluepy.Common.Int.{to_u32-bound, negate, to_u32}
use bluepy.Client.Parse.RoundTrip.{IsCleanField}
use bluepy.Protocol.{rsp_status, rsp_scan}
use bluepy.Protocol.Responses.{reversed_bytes, line}
use bluepy.Client.Wait.{wait_rest, response, wait_resp}
use bluepy.Common.Hex.Digits.{All}
use bluepy.Client.Scanner.Devices.{
  fields-IsCleanField, on_scan-fields, report_on, fields_if, IsReport,
}
use bluepy.Client.Scanner.{take_scan, addr_text, on_scan, Discovery, ScannedDevices}
use bluepy.Protocol.Wire.{Field}
use bluepy.Mgmt.Notices.{DeviceFound}
use bluepy.Client.Scanner.Control.{scan_word, process_types, on_stat, Seen, on_process, process}
use bluepy.Client.Talk.{value_of}
use bluepy.Common.{
  zero, ◌∙◌, inr, inl, Option-cases, codes, refl, ltb, gather, ◌%◌, arith, ◌-◌, ◌^◌, suc, map, none,
  ◌≡◌, ◌<◌, length, ◌++◌, some, Text, ℕ, Bool, List, Option, [], ◌∷◌,
}
use bluepy.World.{World, disconnected}

-- The response in which the helper reports a device.
abbrev pub device_fields : DeviceFound → List Field
device_fields ev =
    fields_if ev.addr (to_u32 (negate ev.rssi)) ((2 ^ 32 - ev.flags) % 2 ^ 32)
      (gather ev.eir 0 ev.eir_len) (ltb 0 ev.eir_len)

abbrev pub device_line : DeviceFound → Text
device_line ev = line rsp_scan (device_fields ev)

-- The text of the address of a device.
abbrev pub device_addr : DeviceFound → Text
device_addr ev = addr_text (reversed_bytes ev.addr.bdaddr 6)

abbrev after_scan :
    Option (ScannedDevices × Discovery) → List Discovery → (Seen → Option Seen) → Option Seen
after_scan none told next = none
after_scan (some (scanned, found)) told next = next (scanned, told ++ (found ∷ []))

-- One device after the other is looked up, updated and told to the delegate; none if the type of an
-- address changes.
abbrev pub take_devices : List DeviceFound → Seen → Option Seen
take_devices [] seen = some seen
take_devices (ev ∷ evs) (scanned, told) =
    after_scan (take_scan (device_addr ev) (report_on ev) scanned) told (take_devices evs)

device-IsCleanField : (ev : DeviceFound) → IsReport ev → All IsCleanField (device_fields ev)
device-IsCleanField ev h =
    let small : ev.addr.addr_type < 2 ^ 32 = let t = h.address_type in omega arith in
    fields-IsCleanField ev.addr (to_u32 (negate ev.rssi)) ((2 ^ 32 - ev.flags) % 2 ^ 32)
      (gather ev.eir 0 ev.eir_len) (ltb 0 ev.eir_len) h.address small
      (to_u32-bound (negate ev.rssi)) (omega arith) h.eir_bytes

device-wait :
    (ev : DeviceFound) (rest : List Text)
    → IsReport ev
    → (wait_resp process_types (device_line ev ∷ rest)
        ≡ response (resp_of rsp_scan (device_fields ev)))
      × (wait_rest process_types (device_line ev ∷ rest) ≡ rest)
device-wait ev rest h =
    wait_resp-line process_types rsp_scan (device_fields ev) [] rest
      (plain-IsCleanText rsp_scan refl) (device-IsCleanField ev h) refl tt

on_scan-device :
    (ev : DeviceFound) (scanned : ScannedDevices)
    → on_scan (resp_of rsp_scan (device_fields ev)) scanned
      ≡ take_scan (device_addr ev) (report_on ev) scanned
on_scan-device ev scanned =
    on_scan-fields ev.addr (to_u32 (negate ev.rssi)) ((2 ^ 32 - ev.flags) % 2 ^ 32)
      (gather ev.eir 0 ev.eir_len) (ltb 0 ev.eir_len) scanned

-- One round with the report of a device.
process-device :
    (passive : Bool) (rounds : ℕ) (ev : DeviceFound) (rest : List Text)
    (scanned now : ScannedDevices) (told : List Discovery) (found : Discovery)
    → IsReport ev
    → take_scan (device_addr ev) (report_on ev) scanned ≡ some (now, found)
    → process passive (suc rounds) (scanned, told) (device_line ev ∷ rest)
      ≡ process passive rounds (now, told ++ (found ∷ [])) rest
unfolding process on_process value_of
process-device passive rounds ev rest scanned now told found h e =
    rw
      (
        process,
        (device-wait ev rest h).0,
        (device-wait ev rest h).1,
        on_process,
        value_of,
        first_value-resp_of rsp_scan (device_fields ev),
        on_scan-device ev scanned,
        e,
      )
      refl

some-injective : (s t : Seen) → some s ≡ some t → s ≡ t
some-injective s t e = cc

-- The helper reports the devices one after the other, and nothing else, and there are more rounds
-- than devices. Where no address changes its type, `process` returns when no line is left, writes
-- nothing, and has looked up, updated and told the delegate each device, in their order.
pub process-devices :
    (passive : Bool) (rounds : ℕ) (evs : List DeviceFound) (seen now : Seen)
    → All IsReport evs
    → length evs < rounds
    → take_devices evs seen ≡ some now
    → process passive rounds seen (map device_line evs)
      ≡ record { outcome = fetched now; written = []; left = [] }
unfolding process wait_resp wait_rest
process-devices passive zero evs seen now h enough e = absurd (omega arith)
process-devices passive (suc rounds) [] seen now h enough e = rw (some-injective seen now e) refl
process-devices passive (suc rounds) (ev ∷ evs) (scanned, told) now (h, hs) enough e =
    elim (Option-cases (take_scan (device_addr ev) (report_on ev) scanned)) [
      | inl f ↦ let missing : none ≡ some now = rw f at e in cc
      | inr ((next, found), f) ↦
          process-device passive rounds ev (map device_line evs) scanned next told found h f
          ∙ process-devices passive rounds evs (next, told ++ (found ∷ [])) now hs (omega arith)
              (rw f at e)
    ]

-- A scan that ends while the client processes it is started again: where the helper reports that it
-- is disconnected and answers the command with success, behind lines that are skipped, the command to
-- scan is written, and the rounds go on behind these lines with the same devices.
pub process-restarts :
    (passive : Bool) (rounds : ℕ) (w : World) (seen : Seen) (before after : List Text)
    → w.conn_state ≡ disconnected
    → IsCleanStatus w
    → AllIgnored before
    → process passive (suc rounds) seen (line rsp_status (status_fields w) ∷ succeeded before after)
      ≡ (let r = process passive rounds seen after in
          record {
            outcome = r.outcome;
            written = (scan_word passive ++ codes "\n") ∷ r.written;
            left = r.left;
          })
unfolding process on_process on_stat value_of
process-restarts passive rounds w seen before after c clean ignored =
    let lines = succeeded before after in
    let (r, l) =
      wait_resp-line process_types rsp_status (status_fields w) [] lines
        (plain-IsCleanText rsp_status refl) (status-IsCleanField w clean) refl tt in
    rw
      (
        process,
        r,
        l,
        on_process,
        value_of,
        first_value-resp_of rsp_status (status_fields w),
        on_stat,
        value_of,
        state-value w disconnected c,
        mgmt_cmd-succeeded (scan_word passive) before after ignored,
      )
      refl
