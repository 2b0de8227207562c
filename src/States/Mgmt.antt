-- ===== src/States/Mgmt.antt =====
-- The requests and callbacks of the management interface do not change the connection state.
use bluepy.Hci.Lines.{report_device-line}
use bluepy.States.Responses.{answering}
use bluepy.Mgmt.Modes.{mode_command, set_mode, send_mode}
use bluepy.Mgmt.Request.{request_complete}
use bluepy.Mgmt.Pairing.{cmd_unpair, cmd_pair, device_request}
use bluepy.States.Moves.{Moves-pure, Moves-require, Moves-Prints, moving, Moves}
use bluepy.Mgmt.Scan.{scan, cmd_scan, scan_cb, cmd_scanend}
use bluepy.Mgmt.Notices.{report_device, mgmt_setup, mgmt_device_found, DeviceFound}
use bluepy.Mgmt.Oob.{
  uninitialised, pointer, dangling, Keys, LocalOob, read_local_oob_data,
  read_local_oob_data_complete, add_remote_oob_data_complete, decode_arg, add_remote_oob_data,
  cmd_add_oob, send_oob, decode_keys, decode_rand, cmd_read_oob, Slot, copy_16, free_slot,
}
use bluepy.World.{World, Buffer, Ptr, Env, ConnState}
use bluepy.Common.{Bool, none, false, some, List, Text, Option, ℕ}

module _ {E : ConnState → ConnState → Type 0} where
  Moves-free_slot : (oob : Slot) → Moves E (free_slot oob)
  unfolding free_slot
  Moves-free_slot uninitialised = search moving
  Moves-free_slot (pointer none) = search moving
  Moves-free_slot (pointer (some b)) = search moving
  Moves-free_slot (dangling none) = search moving
  Moves-free_slot (dangling (some b)) = search moving

  Moves-copy_16 : (o : Option Buffer) → Moves E (copy_16 o)
  unfolding copy_16
  Moves-copy_16 none = search moving
  Moves-copy_16 (some b) = search moving

  Moves-report_device : (ev : DeviceFound) → Moves E (report_device ev)
  Moves-report_device ev = Moves-Prints (report_device-line ev)

  pub Moves-mgmt_device_found : (len : ℕ) (ev : DeviceFound) → Moves E (mgmt_device_found len ev)
  unfolding mgmt_device_found
  Moves-mgmt_device_found len ev = search (moving, Moves-report_device) depth 8

module _ {E : ConnState → ConnState → Type 0} (env : Env) where
  Moves-send_mode : (master : Ptr) (opcode val : ℕ) → Moves E (send_mode env master opcode val)
  unfolding send_mode
  Moves-send_mode master opcode val = search (moving, answering) depth 8

  Moves-set_mode : (opcode : ℕ) (mode : Text) → Moves E (set_mode env opcode mode)
  unfolding set_mode
  Moves-set_mode opcode mode = search (moving, answering, Moves-send_mode) depth 8

  pub Moves-mode_command : (opcode : ℕ) (argv : List Text) → Moves E (mode_command env opcode argv)
  unfolding mode_command
  Moves-mode_command opcode argv = search (moving, answering, Moves-set_mode) depth 8

  pub Moves-request_complete : (status : ℕ) → Moves E (request_complete env status)
  unfolding request_complete
  Moves-request_complete status = search (moving, answering)

  Moves-device_request :
      (master : Ptr) (w : World) (opcode last : ℕ)
      → Moves E (device_request env master w opcode last)
  unfolding device_request
  Moves-device_request master w opcode last = search (moving, answering) depth 8

  pub Moves-cmd_pair : (argv : List Text) → Moves E (cmd_pair env argv)
  unfolding cmd_pair
  Moves-cmd_pair argv = search (moving, answering, Moves-device_request) depth 8

  pub Moves-cmd_unpair : (argv : List Text) → Moves E (cmd_unpair env argv)
  unfolding cmd_unpair
  Moves-cmd_unpair argv = search (moving, answering, Moves-device_request) depth 8

  Moves-scan : (on : Bool) → Moves E (scan env on)
  unfolding scan
  Moves-scan on = search (moving, answering) depth 8

  pub Moves-cmd_scan : (argv : List Text) → Moves E (cmd_scan env argv)
  unfolding cmd_scan
  Moves-cmd_scan argv = search (moving, answering, Moves-scan)

  pub Moves-cmd_scanend : (argv : List Text) → Moves E (cmd_scanend env argv)
  unfolding cmd_scanend
  Moves-cmd_scanend argv = search (moving, answering, Moves-scan)

  pub Moves-scan_cb : (status : ℕ) → Moves E (scan_cb env status)
  unfolding scan_cb
  Moves-scan_cb status = search (moving, answering)

  Moves-decode_arg : (s : Text) → Moves E (decode_arg env s)
  unfolding decode_arg
  Moves-decode_arg s = search (moving, answering, Moves-free_slot) depth 8

  Moves-decode_rand : (hash rand : Text) → Moves E (decode_rand env hash rand)
  unfolding decode_rand
  Moves-decode_rand hash rand = search (moving, Moves-free_slot, Moves-decode_arg) depth 8

  Moves-decode_keys :
      (hash rand : Option Text) (oob : Slot) → Moves E (decode_keys env hash rand oob)
  unfolding decode_keys
  Moves-decode_keys (some hash) (some rand) oob =
      search (moving, Moves-free_slot, Moves-decode_arg, Moves-copy_16, Moves-decode_rand) depth 8
  Moves-decode_keys _ _ oob = Moves-pure _

  Moves-send_oob :
      (master : Ptr) (bdaddr : Text) (addr_type : ℕ) (k192 k256 : Keys)
      → Moves E (send_oob env master bdaddr addr_type k192 k256)
  unfolding send_oob
  Moves-send_oob master bdaddr addr_type k192 k256 =
      search (moving, answering, Moves-free_slot) depth 8

  Moves-add_remote_oob_data :
      (bdaddr : Text) (addr_type : ℕ) (h192 r192 h256 r256 : Option Text)
      → Moves E (add_remote_oob_data env bdaddr addr_type h192 r192 h256 r256)
  unfolding add_remote_oob_data
  Moves-add_remote_oob_data bdaddr addr_type h192 r192 h256 r256 =
      search (moving, answering, Moves-decode_keys, Moves-send_oob) depth 12

  pub Moves-cmd_add_oob : (argv : List Text) → Moves E (cmd_add_oob env argv)
  unfolding cmd_add_oob
  Moves-cmd_add_oob argv = search (moving, answering, Moves-add_remote_oob_data) depth 8

  pub Moves-add_remote_oob_data_complete :
      (status : ℕ) → Moves E (add_remote_oob_data_complete env status)
  unfolding add_remote_oob_data_complete
  Moves-add_remote_oob_data_complete status = search (moving, answering)

  pub Moves-cmd_read_oob : (argv : List Text) → Moves E (cmd_read_oob env argv)
  unfolding cmd_read_oob read_local_oob_data
  Moves-cmd_read_oob argv = search (moving, answering) depth 12

  pub Moves-read_local_oob_data_complete :
      (status : ℕ) (rp : Option LocalOob) → Moves E (read_local_oob_data_complete env status rp)
  unfolding read_local_oob_data_complete
  Moves-read_local_oob_data_complete status none = Moves-require false
  Moves-read_local_oob_data_complete status (some rp) = search (moving, answering) depth 8

  pub Moves-mgmt_setup : (idx : ℕ) → Moves E (mgmt_setup env idx)
  unfolding mgmt_setup
  Moves-mgmt_setup idx = search moving depth 14
