-- ===== src/States/Gatt.antt =====
-- The GATT client and the attribute server do not change the connection state.
use bluepy.States.Responses.{Moves-send_data, Moves-send_uint, answering}
use bluepy.States.Moves.{Moves-require, Moves->>, moving, Moves-pure, Moves}
use bluepy.Gatt.Security.{apply_sec_level, cmd_sec_level}
use bluepy.Gatt.Mtu.{apply_mtu, cmd_mtu, exchange_mtu_cb}
use bluepy.Main.{handle_pdu}
use bluepy.Att.Server.{
  gatts_exec_write_req, gatts_prep_write_req, gatts_signed_write_cmd, gatts_write_cmd,
  gatts_write_req, gatts_read_by_group_req, gatts_read_multi_req, gatts_read_blob_req,
  gatts_read_req, gatts_read_by_type_req, accept_mtu, gatts_find_by_type_req, answer_mtu,
  gatts_find_info_req, refuse, gatts_mtu_req,
}
use bluepy.Gatt.Discovery.{cmd_primary, cmd_char_desc, cmd_char, cmd_included}
use bluepy.Att.Events.{report_event, confirm, events_handler, send_pdu}
use bluepy.Gatt.Write.{
  write_arg, char_write_req_cb, cmd_char_write_common, report_written, write_value,
}
use bluepy.Gatt.Read.{
  report_value, read_uuid_range, char_read_by_uuid_cb, cmd_read_uuid, char_read_cb, cmd_read_hnd,
  report_rows, send_rows,
}
use bluepy.World.{Handler, Buffer, Ptr, CharacteristicData, Env, ConnState}
use bluepy.Common.{false, true, none, some, ℕ, Bool, Option, List, Text, [], ◌∷◌}

module _ {E : ConnState → ConnState → Type 0} where
  Moves-send_rows : (rows : List Text) (d : CharacteristicData) → Moves E (send_rows rows d)
  unfolding send_rows
  Moves-send_rows [] d = Moves-pure d
  Moves-send_rows (value ∷ rows) d =
      Moves->> (Moves-require _)
        (Moves->> (Moves-send_uint _ _) (Moves->> (Moves-send_data _) (Moves-send_rows rows _)))

  Moves-report_rows :
      (rows : Option (List Text)) (d : CharacteristicData) → Moves E (report_rows rows d)
  unfolding report_rows
  Moves-report_rows none d = search (moving, answering)
  Moves-report_rows (some rows) d = search (moving, answering, Moves-send_rows) depth 8

  Moves-write_value :
      (with_response : Bool) (attrib : Option Ptr) (handle plen : ℕ) (value : Option Buffer)
      → Moves E (write_value with_response attrib handle plen value)
  unfolding write_value report_written
  Moves-write_value true attrib handle plen value = search moving
  Moves-write_value false attrib handle plen value = search (moving, answering) depth 8

  Moves-send_pdu : (opdu : Text) → Moves E (send_pdu opdu)
  unfolding send_pdu
  Moves-send_pdu opdu = search moving

module _ {E : ConnState → ConnState → Type 0} (env : Env) where
  pub Moves-cmd_primary : (argv : List Text) → Moves E (cmd_primary env argv)
  unfolding cmd_primary
  Moves-cmd_primary argv = search (moving, answering) depth 8

  pub Moves-cmd_char : (argv : List Text) → Moves E (cmd_char env argv)
  unfolding cmd_char
  Moves-cmd_char argv = search (moving, answering) depth 8

  pub Moves-cmd_read_uuid : (argv : List Text) → Moves E (cmd_read_uuid env argv)
  unfolding cmd_read_uuid read_uuid_range
  Moves-cmd_read_uuid argv = search (moving, answering) depth 8

  pub Moves-cmd_included : (argv : List Text) → Moves E (cmd_included argv)
  unfolding cmd_included
  Moves-cmd_included argv = search (moving, answering) depth 8

  pub Moves-cmd_char_desc : (argv : List Text) → Moves E (cmd_char_desc argv)
  unfolding cmd_char_desc
  Moves-cmd_char_desc argv = search (moving, answering) depth 10

  pub Moves-cmd_read_hnd : (argv : List Text) → Moves E (cmd_read_hnd argv)
  unfolding cmd_read_hnd
  Moves-cmd_read_hnd argv = search (moving, answering) depth 8

  pub Moves-cmd_mtu : (argv : List Text) → Moves E (cmd_mtu argv)
  unfolding cmd_mtu
  Moves-cmd_mtu argv = search (moving, answering) depth 10

  pub Moves-cmd_char_write_common :
      (argv : List Text) (with_response : Bool)
      → Moves E (cmd_char_write_common env argv with_response)
  unfolding cmd_char_write_common write_arg
  Moves-cmd_char_write_common argv with_response =
      search (moving, answering, Moves-write_value) depth 8

  pub Moves-cmd_sec_level : (argv : List Text) → Moves E (cmd_sec_level env argv)
  unfolding cmd_sec_level apply_sec_level
  Moves-cmd_sec_level argv = search (moving, answering) depth 14

  pub Moves-char_read_cb : (status : ℕ) (p : Text) → Moves E (char_read_cb env status p)
  unfolding char_read_cb report_value
  Moves-char_read_cb status p = search (moving, answering) depth 8

  pub Moves-char_read_by_uuid_cb :
      (status : ℕ) (p : Text) (d : CharacteristicData)
      → Moves E (char_read_by_uuid_cb env status p d)
  unfolding char_read_by_uuid_cb
  Moves-char_read_by_uuid_cb status p d = search (moving, answering, Moves-report_rows) depth 8

  pub Moves-char_write_req_cb : (status : ℕ) (p : Text) → Moves E (char_write_req_cb env status p)
  unfolding char_write_req_cb report_written
  Moves-char_write_req_cb status p = search (moving, answering) depth 8

  pub Moves-exchange_mtu_cb : (status : ℕ) (p : Text) → Moves E (exchange_mtu_cb env status p)
  unfolding exchange_mtu_cb apply_mtu
  Moves-exchange_mtu_cb status p = search (moving, answering) depth 10

  Moves-events_handler : (p : Text) → Moves E (events_handler env p)
  unfolding events_handler confirm report_event
  Moves-events_handler p = search (moving, answering, Moves-send_pdu) depth 10

  Moves-refuse : (opcode handle : ℕ) → Moves E (refuse env opcode handle)
  unfolding refuse
  Moves-refuse opcode handle = search (moving, Moves-send_pdu)

  Moves-gatts_mtu_req : (p : Text) → Moves E (gatts_mtu_req env p)
  unfolding gatts_mtu_req answer_mtu accept_mtu
  Moves-gatts_mtu_req p = search (moving, answering, Moves-send_pdu) depth 12

  pub Moves-handle_pdu : (handler : Handler) (p : Text) → Moves E (handle_pdu env handler p)
  unfolding handle_pdu gatts_find_info_req gatts_find_by_type_req gatts_read_by_type_req
      gatts_read_req gatts_read_blob_req gatts_read_multi_req gatts_read_by_group_req
      gatts_write_req gatts_write_cmd gatts_signed_write_cmd gatts_prep_write_req
      gatts_exec_write_req
  Moves-handle_pdu Handler.events_handler p = Moves-events_handler p
  Moves-handle_pdu Handler.gatts_mtu_req p = Moves-gatts_mtu_req p
  Moves-handle_pdu _ p = search (moving, Moves-refuse)
