-- ===== src/Att/Events.antt =====
-- Notifications and indications: `events_handler`.
use bluepy.Common.{
  ℕ, ◌+◌, ◌*◌, ◌++◌, not, ◌&&◌, Text, codes, byte_at, drop, length, ◌==◌, ltb, leb, if◌then◌else◌,
}
use bluepy.Common.Hex.{show_byte}
use bluepy.World.{Env, World, attrib_send, Action, skip, get, call, print, assert, ◌>>=◌, ◌>>◌}
use bluepy.Protocol.{resp_begin, resp_end, send_uint, send_data, tag_handle, rsp_notify, rsp_ind}

abbrev pub att_op_handle_notify : ℕ
att_op_handle_notify = 0x1b

abbrev pub att_op_handle_ind : ℕ
att_op_handle_ind = 0x1d

-- `bt_get_le16(&pdu[i])`
abbrev pub get_le16 : Text → ℕ → ℕ
get_le16 pdu i = byte_at pdu i + 256 * byte_at pdu (i + 1)

-- `if (olen > 0) g_attrib_send(attrib, 0, opdu, olen, …)`
unfoldable pub send_pdu : Text → Action
send_pdu opdu = do
  attrib ← get (λ w. w.attrib)
  if ltb 0 (length opdu) then call (attrib_send attrib opdu) else skip

-- `g_attrib_get_buffer(attrib, &plen)`
unfoldable pub get_buffer : Env → World → ℕ
get_buffer env w = env.attrib_buffer w.trace w.attrib

module _ (env : Env) where
  unfoldable pub confirm : Action
  confirm = do plen ← get (get_buffer env); send_pdu (env.enc_confirmation plen)

  unfoldable pub report_event : Text → Action
  report_event pdu = do
    resp_begin (if byte_at pdu 0 == att_op_handle_notify then rsp_notify else rsp_ind)
    send_uint tag_handle (get_le16 pdu 1)
    send_data (drop 3 pdu)
    resp_end

  unfoldable pub events_handler : Text → Action
  events_handler pdu =
      let evt = byte_at pdu 0 in
      if not (evt == att_op_handle_notify) && not (evt == att_op_handle_ind)
      then print (codes "#Invalid opcode " ++ show_byte evt ++ codes " in event handler??\n")
      else do
        assert (leb 3 (length pdu))
        report_event pdu
        if evt == att_op_handle_notify then skip else confirm
