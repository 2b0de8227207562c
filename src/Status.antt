-- ===== src/Status.antt =====
-- The connection state and its report.
--
-- bluepy/bluepy-helper.c, lines 250 to 284.
pub mod Lines
use bluepy.Common.{Option, none, some, Text, codes}
use bluepy.Common.Int.{to_u32}
use bluepy.World.{
  World, ConnState, disconnected, connecting, connected, scanning, Action, skip, get, modify, ◌>>=◌,
  ◌>>◌,
}
use bluepy.Protocol.{
  resp_begin, resp_end, send_sym, send_str, send_uint, rsp_status, tag_connstate, tag_device,
  tag_mtu, tag_sec_level, st_disconnected, st_connecting, st_connected, st_scanning,
}

-- What `%s` prints for a string that may be NULL: the C library writes "(null)".
abbrev pub c_string : Option Text → Text
c_string none = codes "(null)"
c_string (some s) = s

-- The `switch` of `cmd_status`.
unfoldable pub status_state : ConnState → Option Text → Action
status_state connecting dst = do
  send_sym tag_connstate st_connecting
  send_str tag_device (c_string dst)
status_state connected dst = do
  send_sym tag_connstate st_connected
  send_str tag_device (c_string dst)
status_state scanning dst = do
  send_sym tag_connstate st_scanning
  send_str tag_device (c_string dst)
status_state disconnected dst = send_sym tag_connstate st_disconnected

unfoldable pub cmd_status : Action
cmd_status = do
  w ← get (λ w. w)
  resp_begin rsp_status
  status_state w.conn_state w.opt_dst
  send_uint tag_mtu (to_u32 w.opt_mtu)
  send_str tag_sec_level w.opt_sec_level
  resp_end

unfoldable pub set_state : ConnState → Action
set_state st = do modify (λ w. record w { conn_state = st }); cmd_status
