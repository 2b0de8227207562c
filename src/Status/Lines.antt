-- ===== src/Status/Lines.antt =====
-- The line that a status report prints.
use bluepy.Common.{List, [], ◌∷◌, ◌++◌, Option, Text}
use bluepy.Common.Int.{to_u32}
use bluepy.World.{World, ConnState, steps, disconnected, connecting, connected, scanning}
use bluepy.Protocol.{
  rsp_status, tag_connstate, tag_device, tag_mtu, tag_sec_level, st_disconnected, st_connecting,
  st_connected, st_scanning,
}
use bluepy.Protocol.Emits.{EmitsAt}
use bluepy.Protocol.Wire.{Field, sym, uint, str}
use bluepy.Protocol.Responses.{
  field, line, Sends, Sends->>, Sends-sym, Sends-str, Sends-uint, Finishes->>, Finishes-end,
  Prints-response,
}
use bluepy.Status.{c_string, status_state, cmd_status}

abbrev pub state_fields : ConnState → Option Text → List Field
state_fields connecting dst =
    field tag_connstate (sym st_connecting) ∷ field tag_device (str (c_string dst)) ∷ []
state_fields connected dst =
    field tag_connstate (sym st_connected) ∷ field tag_device (str (c_string dst)) ∷ []
state_fields scanning dst =
    field tag_connstate (sym st_scanning) ∷ field tag_device (str (c_string dst)) ∷ []
state_fields disconnected dst = field tag_connstate (sym st_disconnected) ∷ []

pub Sends-status_state :
    (st : ConnState) (dst : Option Text) → Sends (status_state st dst) (state_fields st dst)
unfolding status_state
Sends-status_state connecting dst = Sends->> (Sends-sym _ _) (Sends-str _ _)
Sends-status_state connected dst = Sends->> (Sends-sym _ _) (Sends-str _ _)
Sends-status_state scanning dst = Sends->> (Sends-sym _ _) (Sends-str _ _)
Sends-status_state disconnected dst = Sends-sym _ _

abbrev pub status_fields : World → List Field
status_fields w =
    state_fields w.conn_state w.opt_dst
    ++ (field tag_mtu (uint (to_u32 w.opt_mtu)) ∷ field tag_sec_level (str w.opt_sec_level) ∷ [])

-- In any world a status report prints one line and changes nothing but the trace. Its fields are the
-- state, the address of the device unless the state is disconnected, the MTU as a 32-bit number, and
-- the security level.
pub cmd_status-line : (w : World) → EmitsAt w cmd_status (line rsp_status (status_fields w))
unfolding cmd_status steps
cmd_status-line w =
    (Prints-response rsp_status (
        Finishes->> (Sends-status_state w.conn_state w.opt_dst) (
          Finishes->> (Sends-uint tag_mtu (to_u32 w.opt_mtu))
            (Finishes->> (Sends-str tag_sec_level w.opt_sec_level) Finishes-end)))).emits
      w
