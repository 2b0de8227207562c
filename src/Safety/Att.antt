-- ===== src/Safety/Att.antt =====
-- The handlers of the peer's PDUs keep the invariant.
use bluepy.Common.{refl, ℕ, Text, ◌++◌, codes}
use bluepy.Common.Hex.{show_byte}
use bluepy.World.{Env, Handler, print}
use bluepy.Protocol.Responses.{Sends-uint, Sends-data, Finishes->>, Finishes-end, Prints-response}
use bluepy.Att.Events.{send_pdu, confirm, report_event, events_handler}
use bluepy.Att.Server.{
  refuse, gatts_find_info_req, gatts_find_by_type_req, gatts_read_by_type_req, gatts_read_req,
  gatts_read_blob_req, gatts_read_multi_req, gatts_read_by_group_req, gatts_write_req,
  gatts_write_cmd, gatts_signed_write_cmd, gatts_prep_write_req, gatts_exec_write_req, accept_mtu,
  answer_mtu, gatts_mtu_req,
}
use bluepy.Main.{handle_pdu}
use bluepy.Safety.Invariant.{Keeps, Keeps-line, Keeps-print, append-EndsLine}
use bluepy.Safety.Rules.{keeping}

Keeps-send_pdu : (opdu : Text) → Keeps (send_pdu opdu)
unfolding send_pdu
Keeps-send_pdu opdu = search keeping

Keeps-confirm : (env : Env) → Keeps (confirm env)
unfolding confirm
Keeps-confirm env = search (keeping, Keeps-send_pdu)

Keeps-report_event : (env : Env) (pdu : Text) → Keeps (report_event env pdu)
unfolding report_event
Keeps-report_event env pdu =
    Keeps-line
      (Prints-response _ (Finishes->> (Sends-uint _ _) (Finishes->> (Sends-data _) Finishes-end)))

Keeps-opcode_comment :
    (evt : ℕ)
    → Keeps (print (codes "#Invalid opcode " ++ show_byte evt ++ codes " in event handler??\n"))
Keeps-opcode_comment evt =
    Keeps-print _ (λ e. cc)
      (append-EndsLine (codes "#Invalid opcode " ++ show_byte evt) (codes " in event handler??\n")
        (λ e. cc) refl)

module _ (env : Env) where
  Keeps-events_handler : (pdu : Text) → Keeps (events_handler env pdu)
  unfolding events_handler
  Keeps-events_handler pdu =
      search (keeping, Keeps-opcode_comment, Keeps-report_event, Keeps-confirm) depth 8

  Keeps-refuse : (opcode handle : ℕ) → Keeps (refuse env opcode handle)
  unfolding refuse
  Keeps-refuse opcode handle = search (keeping, Keeps-send_pdu)

  Keeps-gatts_mtu_req : (pdu : Text) → Keeps (gatts_mtu_req env pdu)
  unfolding gatts_mtu_req answer_mtu accept_mtu
  Keeps-gatts_mtu_req pdu = search (keeping, Keeps-send_pdu) depth 12

  pub Keeps-handle_pdu : (handler : Handler) (pdu : Text) → Keeps (handle_pdu env handler pdu)
  unfolding handle_pdu gatts_find_info_req gatts_find_by_type_req gatts_read_by_type_req
      gatts_read_req gatts_read_blob_req gatts_read_multi_req gatts_read_by_group_req
      gatts_write_req gatts_write_cmd gatts_signed_write_cmd gatts_prep_write_req
      gatts_exec_write_req
  Keeps-handle_pdu Handler.events_handler pdu = Keeps-events_handler pdu
  Keeps-handle_pdu Handler.gatts_mtu_req pdu = Keeps-gatts_mtu_req pdu
  Keeps-handle_pdu _ pdu = search (keeping, Keeps-refuse)
