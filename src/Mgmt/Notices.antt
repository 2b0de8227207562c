-- ===== src/Mgmt/Notices.antt =====
-- Setting up the management interface, and the events that it delivers.
--
-- bluepy/bluepy-helper.c, lines 2008 to 2102.
use bluepy.Common.{
  false, true, ℕ, ◌+◌, ◌-◌, ◌%◌, ◌^◌, [], not, Bool, gather, ◌==◌, ltb, if◌then◌else◌,
}
use bluepy.Common.Int.{ℤ, negate, to_u32}
use bluepy.World.{
  on_option, Env, ConnState, disconnected, scanning, Event, Action, skip, get, modify, call, assert,
  ◌>>=◌, ◌>>◌,
}
use bluepy.Protocol.{
  AddrInfo, resp_begin, resp_end, send_addr, send_uint, send_data, rsp_scan, tag_rssi, tag_flag,
}
use bluepy.Status.{set_state}

abbrev pub mgmt_index_none : ℕ
mgmt_index_none = 0xffff

abbrev pub mgmt_op_read_version : ℕ
mgmt_op_read_version = 0x0001

abbrev pub is_scanning : ConnState → Bool
is_scanning scanning = true
is_scanning _ = false

-- `struct mgmt_ev_device_found`, with the bytes from `eir` on.
pub record DeviceFound : Type 0 where
  pub addr : AddrInfo
  pub rssi : ℤ
  pub flags : ℕ
  pub eir_len : ℕ
  pub eir : ℕ → ℕ

-- The sizes of `struct mgmt_ev_discovering` and `struct mgmt_ev_device_found`.
abbrev pub discovering_size : ℕ
discovering_size = 2

abbrev pub device_found_size : ℕ
device_found_size = 14

-- `mgmt_scanning`, for an event of that length.
unfoldable pub mgmt_scanning : ℕ → Bool → Action
mgmt_scanning length discovering = do
  assert (length == discovering_size)
  set_state (if discovering then scanning else disconnected)

-- The response of `mgmt_device_found`; the negations are those of C's unsigned arithmetic.
unfoldable pub report_device : DeviceFound → Action
report_device ev = do
  resp_begin rsp_scan
  send_addr ev.addr
  send_uint tag_rssi (to_u32 (negate ev.rssi))
  send_uint tag_flag ((2 ^ 32 - ev.flags) % 2 ^ 32)
  if ltb 0 ev.eir_len then send_data (gather ev.eir 0 ev.eir_len) else skip
  resp_end

unfoldable pub mgmt_device_found : ℕ → DeviceFound → Action
mgmt_device_found length ev = do
  assert (length == device_found_size + ev.eir_len)
  w ← get (λ w. w)
  if not (is_scanning w.conn_state) then skip else report_device ev

-- `mgmt_setup`; the index is stored into a uint16_t. The events that it registers for are
-- MGMT_EV_DEVICE_CONNECTED, MGMT_EV_DISCOVERING and MGMT_EV_DEVICE_FOUND.
unfoldable pub mgmt_setup : Env → ℕ → Action
mgmt_setup env idx = do
  w ← get (λ w. w)
  call Event.mgmt_new
  modify (λ v. record v { mgmt_master = env.mgmt_new w.trace })
  on_option (env.mgmt_new w.trace) skip (λ master. do
    modify (λ v. record v { mgmt_ind = idx % 65536 })
    call (Event.mgmt_send master mgmt_op_read_version mgmt_index_none [])
    call (Event.mgmt_register master 0x000b (idx % 65536))
    call (Event.mgmt_register master 0x0013 (idx % 65536))
    call (Event.mgmt_register master 0x0012 (idx % 65536)))
