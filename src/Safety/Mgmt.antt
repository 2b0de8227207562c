-- ===== src/Safety/Mgmt.antt =====
-- The management commands and callbacks keep the invariant.
use bluepy.Common.{ℕ, Bool, List, Text, Option, none, some}
use bluepy.World.{Env, World, Ptr, Action, Buffer}
use bluepy.Protocol.{rsp_oob}
use bluepy.Protocol.Responses.{Sends-data, Finishes->>, Finishes-end, Prints-response}
use bluepy.Mgmt.Request.{with_mgmt, submit, request_complete}
use bluepy.Mgmt.Modes.{send_mode, set_mode, mode_command}
use bluepy.Mgmt.Pairing.{device_request, cmd_pair, cmd_unpair}
use bluepy.Mgmt.Scan.{scan_cb, scan, cmd_scan, cmd_scanend}
use bluepy.Mgmt.Oob.{
  Slot, uninitialised, pointer, dangling, Keys, LocalOob, free_slot, copy_16, decode_arg,
  decode_rand, decode_keys, send_oob, add_remote_oob_data, add_remote_oob_data_complete,
  cmd_add_oob, read_local_oob_data, read_local_oob_data_complete, cmd_read_oob,
}
use bluepy.Safety.Invariant.{Keeps, Keeps-line, Keeps-if, Keeps-require}
use bluepy.Safety.Basics.{Keeps-resp_mgmt_err}
use bluepy.Safety.Rules.{keeping}

Keeps-with_mgmt :
    {body : Ptr → World → Action}
    → ((p : Ptr) (w : World) → Keeps (body p w))
    → Keeps (with_mgmt body)
unfolding with_mgmt
Keeps-with_mgmt k = search (keeping, k)

Keeps-free_slot : (s : Slot) → Keeps (free_slot s)
unfolding free_slot
Keeps-free_slot uninitialised = search (keeping, Keeps-require)
Keeps-free_slot (pointer none) = search keeping
Keeps-free_slot (pointer (some b)) = search keeping
Keeps-free_slot (dangling none) = search keeping
Keeps-free_slot (dangling (some b)) = search (keeping, Keeps-require)

Keeps-copy_16 : (b : Option Buffer) → Keeps (copy_16 b)
unfolding copy_16
Keeps-copy_16 none = search (keeping, Keeps-require)
Keeps-copy_16 (some b) = search (keeping, Keeps-require)

module _ (env : Env) where
  Keeps-submit : (master : Ptr) (opcode : ℕ) (cp : Text) → Keeps (submit env master opcode cp)
  unfolding submit
  Keeps-submit master opcode cp = search keeping

  pub Keeps-request_complete : (status : ℕ) → Keeps (request_complete env status)
  unfolding request_complete
  Keeps-request_complete status = search keeping

  Keeps-set_mode : (opcode : ℕ) (mode : Text) → Keeps (set_mode env opcode mode)
  unfolding set_mode send_mode
  Keeps-set_mode opcode mode = search (keeping, Keeps-submit) depth 10

  pub Keeps-mode_command : (opcode : ℕ) (argv : List Text) → Keeps (mode_command env opcode argv)
  unfolding mode_command
  Keeps-mode_command opcode argv = search (keeping, Keeps-set_mode)

  Keeps-device_request :
      (master : Ptr) (w : World) (opcode last : ℕ) → Keeps (device_request env master w opcode last)
  unfolding device_request
  Keeps-device_request master w opcode last = search (keeping, Keeps-submit) depth 8

  pub Keeps-cmd_pair : (argv : List Text) → Keeps (cmd_pair env argv)
  unfolding cmd_pair
  Keeps-cmd_pair argv = Keeps-with_mgmt λ p w. search (keeping, Keeps-device_request)

  pub Keeps-cmd_unpair : (argv : List Text) → Keeps (cmd_unpair env argv)
  unfolding cmd_unpair
  Keeps-cmd_unpair argv = Keeps-with_mgmt λ p w. search (keeping, Keeps-device_request)

  pub Keeps-scan_cb : (status : ℕ) → Keeps (scan_cb env status)
  unfolding scan_cb
  Keeps-scan_cb status = search keeping

  Keeps-scan : (on : Bool) → Keeps (scan env on)
  unfolding scan
  Keeps-scan on = Keeps-with_mgmt λ p w. search (keeping, Keeps-submit)

  pub Keeps-cmd_scan : (argv : List Text) → Keeps (cmd_scan env argv)
  unfolding cmd_scan
  Keeps-cmd_scan argv = search (keeping, Keeps-scan)

  pub Keeps-cmd_scanend : (argv : List Text) → Keeps (cmd_scanend env argv)
  unfolding cmd_scanend
  Keeps-cmd_scanend argv = search (keeping, Keeps-scan)

  Keeps-decode_arg : (s : Text) → Keeps (decode_arg env s)
  unfolding decode_arg
  Keeps-decode_arg s = search (keeping, Keeps-free_slot) depth 8

  Keeps-decode_rand : (hash rand : Text) → Keeps (decode_rand env hash rand)
  unfolding decode_rand
  Keeps-decode_rand hash rand =
      search (keeping, Keeps-require, Keeps-free_slot, Keeps-decode_arg) depth 8

  Keeps-decode_keys : (hash rand : Option Text) (oob : Slot) → Keeps (decode_keys env hash rand oob)
  unfolding decode_keys
  Keeps-decode_keys (some hash) (some rand) oob =
      search (keeping, Keeps-free_slot, Keeps-copy_16, Keeps-decode_arg, Keeps-decode_rand) depth 8
  Keeps-decode_keys _ _ oob = search keeping

  Keeps-send_oob :
      (master : Ptr) (bdaddr : Text) (addr_type : ℕ) (k192 k256 : Keys)
      → Keeps (send_oob env master bdaddr addr_type k192 k256)
  unfolding send_oob
  Keeps-send_oob master bdaddr addr_type k192 k256 =
      search (keeping, Keeps-submit, Keeps-free_slot) depth 8

  Keeps-add_remote_oob_data :
      (bdaddr : Text) (addr_type : ℕ) (h192 r192 h256 r256 : Option Text)
      → Keeps (add_remote_oob_data env bdaddr addr_type h192 r192 h256 r256)
  unfolding add_remote_oob_data
  Keeps-add_remote_oob_data bdaddr addr_type h192 r192 h256 r256 =
      search (keeping, Keeps-decode_keys, Keeps-send_oob) depth 10

  pub Keeps-cmd_add_oob : (argv : List Text) → Keeps (cmd_add_oob env argv)
  unfolding cmd_add_oob
  Keeps-cmd_add_oob argv = search (keeping, Keeps-add_remote_oob_data) depth 8

  pub Keeps-oob_added : (status : ℕ) → Keeps (add_remote_oob_data_complete env status)
  unfolding add_remote_oob_data_complete
  Keeps-oob_added status = search keeping

  pub Keeps-cmd_read_oob : (argv : List Text) → Keeps (cmd_read_oob env argv)
  unfolding cmd_read_oob read_local_oob_data
  Keeps-cmd_read_oob argv = search (keeping, Keeps-submit) depth 10

  pub Keeps-oob_read :
      (status : ℕ) (rp : Option LocalOob) → Keeps (read_local_oob_data_complete env status rp)
  unfolding read_local_oob_data_complete
  Keeps-oob_read status none = Keeps-require _
  Keeps-oob_read status (some rp) =
      Keeps-if _ (Keeps-resp_mgmt_err env status)
        (Keeps-line (Prints-response rsp_oob (Finishes->> (Sends-data _) Finishes-end)))
