-- ===== src/Hci/Monitor.antt =====
-- The watch on the HCI socket: `hci_monitor_cb`.
--
-- bluepy/bluepy-helper.c, lines 1657 to 1779.
use bluepy.Common.{
  ℕ, ◌+◌, ◌-◌, ◌*◌, Bool, true, false, not, ◌&&◌, ◌||◌, Option, none, some, Text, byte_at, length,
  gather, ◌==◌, ltb, if◌then◌else◌,
}
use bluepy.World.{
  on_option, Env, disconnected, Event, M, Action, pure, skip, get, call, ◌>>=◌, ◌>>◌,
}
use bluepy.Protocol.{
  AddrInfo, resp_begin, resp_end, send_addr, send_uint, send_data, rsp_scan, tag_rssi, tag_flag,
}
use bluepy.Status.{set_state}
use bluepy.Mgmt.Notices.{is_scanning}

-- HCI_MAX_FRAME_SIZE, the size of `buf`
abbrev pub hci_max_frame_size : ℕ
hci_max_frame_size = 1492 + 4 + 4

abbrev pub hci_command_pkt : ℕ
hci_command_pkt = 0x01

abbrev pub hci_event_pkt : ℕ
hci_event_pkt = 0x04

-- 0x2000 | OCF_LE_SET_SCAN_ENABLE
abbrev pub le_set_scan_enable : ℕ
le_set_scan_enable = 0x200c

abbrev pub evt_le_meta_event : ℕ
evt_le_meta_event = 0x3e

abbrev pub evt_le_advertising_report : ℕ
evt_le_advertising_report = 0x02

-- The contents of `buf`, and a write of a text into it at an offset.
abbrev pub Mem : Type 0
Mem = ℕ → ℕ

unfoldable pub store : Mem → ℕ → Text → Mem
store buf off s i =
    if ltb i off then buf i else if ltb (i - off) (length s) then byte_at s (i - off) else buf i

-- `addr.type` by `ev->bdaddr_type`
abbrev pub report_addr_type : ℕ → ℕ
report_addr_type t = if t == 0 then 1 else if t == 1 then 2 else 0

-- `struct le_advertising_info` at an offset of `buf`. Its `data` begins 9 bytes further.
pub record Advertising : Type 0 where
  pub addr : AddrInfo
  pub length : ℕ
  pub rssi : ℕ
  pub payload : Text

unfoldable pub advertising_at : Mem → ℕ → Advertising
advertising_at buf ev =
    let len = buf (ev + 8) in
    record {
      addr = record { bdaddr = gather buf (ev + 2) 6; addr_type = report_addr_type (buf (ev + 1)) };
      length = len;
      rssi = buf (ev + 9 + len);
      payload = gather buf (ev + 9) len;
    }

unfoldable pub report_advertising : Advertising → Action
report_advertising ev = do
  resp_begin rsp_scan
  send_addr ev.addr
  send_uint tag_rssi (256 - ev.rssi)
  send_uint tag_flag 0
  if ltb 0 ev.length then send_data ev.payload else skip
  resp_end

-- The offset of `ev`: behind the event header, the subevent and the number of reports.
abbrev pub report_offset : ℕ
report_offset = 4

-- An event packet that has been read into `buf`: the `switch` on the event and the subevent.
unfoldable pub handle_event : Mem → M Bool
handle_event buf =
    if not (buf 0 == evt_le_meta_event && buf 2 == evt_le_advertising_report) then pure true else do
      w ← get (λ w. w)
      if is_scanning w.conn_state
          then report_advertising (advertising_at buf report_offset)
          else skip
      pure true

-- A command packet that has been read into `buf`: the end of the scan removes the watch.
unfoldable pub handle_command : Mem → M Bool
handle_command buf =
    if not (buf 0 + 256 * buf 1 == le_set_scan_enable) || not (buf 3 == 0) then pure true else do
      w ← get (λ w. w)
      if is_scanning w.conn_state then set_state disconnected else skip
      pure false

module _ (env : Env) where
  -- `g_io_channel_read_chars` of `n` bytes to an offset of `buf`; `none` if it is not normal.
  unfoldable pub read_chars : Mem → ℕ → ℕ → M (Option Mem)
  read_chars buf off n = do
    w ← get (λ w. w)
    call (Event.hci_read n)
    on_option (env.hci_read w.trace n) (pure none) (λ s. pure (some (store buf off s)))

  -- A header of `n` bytes whose byte `n - 1` is the length of what follows, and that.
  unfoldable pub read_packet : Mem → ℕ → (Mem → M Bool) → M Bool
  read_packet buf n handle = do
    header ← read_chars buf 0 n
    on_option header (pure true) (λ buf'. do
      body ← read_chars buf' n (buf' (n - 1))
      on_option body (pure true) (λ full. handle full))

  -- The result is false if the watch is to be removed.
  unfoldable pub hci_monitor_cb : M Bool
  hci_monitor_cb = do
    w ← get (λ w. w)
    kind ← read_chars (env.stack_bytes w.trace) 0 1
    on_option kind (pure true) (λ buf.
        if buf 0 == hci_command_pkt
        then read_packet buf 3 handle_command
        else if buf 0 == hci_event_pkt
        then read_packet buf 2 handle_event
        else pure true)
