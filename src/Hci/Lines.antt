-- ===== src/Hci/Lines.antt =====
-- The two responses that report a device: by the management interface, and by the HCI socket.
use bluepy.Common.{ℕ, ◌-◌, ◌%◌, ◌^◌, List, [], ◌∷◌, ◌++◌, Text, gather, ltb, if◌then◌else◌}
use bluepy.Common.Int.{negate, to_u32}
use bluepy.Protocol.{AddrInfo, rsp_scan, tag_rssi, tag_flag, tag_data}
use bluepy.Protocol.Wire.{Field, uint, bytes}
use bluepy.Protocol.Responses.{
  field, addr_fields, Sends-skip, Sends-if, Sends-uint, Sends-data, Sends-addr, Finishes->>,
  Finishes-end, Prints, Prints-response,
}
use bluepy.Mgmt.Notices.{DeviceFound, report_device}
use bluepy.Hci.Monitor.{Advertising, report_advertising}

-- The fields of a scan response; the data is left out if it is empty.
abbrev pub scan_fields : AddrInfo → ℕ → ℕ → ℕ → Text → List Field
scan_fields addr rssi flags len payload =
    addr_fields addr
    ++ field tag_rssi (uint rssi)
      ∷ field tag_flag (uint flags)
      ∷ ((if ltb 0 len then field tag_data (bytes payload) ∷ [] else []) ++ [])

-- A device that the controller has found is reported in one response: its address and the type of
-- it, the signal strength and the flags as the code negates them, and the data if there is any.
pub report_device-line :
    (ev : DeviceFound)
    → Prints (report_device ev) rsp_scan (
        scan_fields ev.addr
          (to_u32 (negate ev.rssi))
          ((2 ^ 32 - ev.flags) % 2 ^ 32)
          ev.eir_len
          (gather ev.eir 0 ev.eir_len))
unfolding report_device
report_device-line ev = Prints-response rsp_scan (
    Finishes->> (Sends-addr ev.addr) (
      Finishes->> (Sends-uint tag_rssi _) (
        Finishes->> (Sends-uint tag_flag _)
          (Finishes->> (Sends-if (ltb 0 ev.eir_len) (Sends-data _) Sends-skip) Finishes-end))))

-- An advertising report is reported in one response: the address and the type of it, 256 less the
-- byte of the signal strength, a flag that is always 0, and the data if there is any.
pub report_advertising-line :
    (ev : Advertising)
    → Prints
        (report_advertising ev)
        rsp_scan
        (scan_fields ev.addr (256 - ev.rssi) 0 ev.length ev.payload)
unfolding report_advertising
report_advertising-line ev = Prints-response rsp_scan (
    Finishes->> (Sends-addr ev.addr) (
      Finishes->> (Sends-uint tag_rssi _) (
        Finishes->> (Sends-uint tag_flag _)
          (Finishes->> (Sends-if (ltb 0 ev.length) (Sends-data _) Sends-skip) Finishes-end))))

-- A device that is found is reported in one response with its address and the type of it, a signal
-- strength, flags, and the data if there is any: by the management interface with the strength and the
-- flags as the code negates them, and by the HCI socket with 256 less the byte of the strength, and 0.
pub scan-lines :
    (ev : DeviceFound) (adv : Advertising)
    → Prints (report_device ev) rsp_scan (
        scan_fields ev.addr
          (to_u32 (negate ev.rssi))
          ((2 ^ 32 - ev.flags) % 2 ^ 32)
          ev.eir_len
          (gather ev.eir 0 ev.eir_len))
      × Prints
          (report_advertising adv)
          rsp_scan
          (scan_fields adv.addr (256 - adv.rssi) 0 adv.length adv.payload)
scan-lines ev adv = (report_device-line ev, report_advertising-line adv)
