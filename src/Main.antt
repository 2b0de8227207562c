-- ===== src/Main.antt =====
-- The life of the process: start, event loop, end.
--
-- bluepy/bluepy-helper.c, lines 2104 to 2157. The event loop of GLib calls one callback after
-- another; which, and with what, is the list of things that happen.
pub mod Quit
use bluepy.Common.{
  ℕ, Bool, false, Option, none, List, [], ◌∷◌, ◌++◌, Text, codes, length, arg, ltb, if◌then◌else◌,
}
use bluepy.Common.Int.{pos, negsuc, to_u16}
use bluepy.World.{
  on_option, Env, World, disconnected, Ptr, CharacteristicData, Handler, Event, M, Action, skip,
  get, modify, call, print, ◌>>=◌, ◌>>◌,
}
use bluepy.Att.Events.{events_handler}
use bluepy.Att.Server.{
  gatts_find_info_req, gatts_find_by_type_req, gatts_read_by_type_req, gatts_read_req,
  gatts_read_blob_req, gatts_read_multi_req, gatts_read_by_group_req, gatts_write_req,
  gatts_write_cmd, gatts_signed_write_cmd, gatts_prep_write_req, gatts_exec_write_req,
  gatts_mtu_req,
}
use bluepy.Connection.{connect_cb, channel_watcher, cmd_disconnect}
use bluepy.Gatt.Reports.{
  Primary, Range, Included, Char, Desc, primary_all_cb, primary_by_uuid_cb, included_cb, char_cb,
  char_desc_cb,
}
use bluepy.Gatt.Read.{char_read_cb, char_read_by_uuid_cb}
use bluepy.Gatt.Write.{char_write_req_cb}
use bluepy.Gatt.Mtu.{exchange_mtu_cb}
use bluepy.Mgmt.Modes.{set_mode_complete}
use bluepy.Mgmt.Pairing.{pair_device_complete, unpair_device_complete}
use bluepy.Mgmt.Scan.{scan_cb}
use bluepy.Mgmt.Oob.{LocalOob, add_remote_oob_data_complete, read_local_oob_data_complete}
use bluepy.Mgmt.Notices.{DeviceFound, mgmt_setup, mgmt_scanning, mgmt_device_found}
use bluepy.Hci.Monitor.{hci_monitor_cb}
use bluepy.Commands.{prompt_read}

-- A callback that the event loop makes, with its arguments.
pub data Incoming : Type 0 where
  input : Bool → Incoming
  connection : Ptr → Option Text → Incoming
  hang_up : Ptr → Incoming
  pdu : Handler → Text → Incoming
  primary_all : ℕ → List Primary → Incoming
  primary_by_uuid : ℕ → List Range → Incoming
  included : ℕ → List Included → Incoming
  chars : ℕ → List Char → Incoming
  descs : ℕ → List Desc → Incoming
  char_read : ℕ → Text → Incoming
  char_read_by_uuid : ℕ → Text → CharacteristicData → Incoming
  char_written : ℕ → Text → Incoming
  mtu_exchanged : ℕ → Text → Incoming
  mode_set : ℕ → Incoming
  paired : ℕ → Incoming
  unpaired : ℕ → Incoming
  scan_done : ℕ → Incoming
  oob_added : ℕ → Incoming
  oob_read : ℕ → Option LocalOob → Incoming
  mgmt_discovering : ℕ → Bool → Incoming
  mgmt_found : ℕ → DeviceFound → Incoming
  hci_readable : Incoming

-- A callback whose result only tells whether its watch stays.
abbrev watch : M Bool → Action
watch m = do keep ← m; skip

-- The globals before `main`; `conn_state` is 0.
abbrev pub initial : World
initial = record {
  iochannel = none;
  attrib = none;
  quitting = false;
  opt_src = none;
  opt_dst = none;
  opt_dst_type = [];
  opt_sec_level = [];
  opt_mtu = pos 0;
  start = pos 0;
  end = pos 0;
  mgmt_ind = 0xffff;
  mgmt_master = none;
  hci_dd = negsuc 0;
  hci_io = none;
  conn_state = disconnected;
  trace = [];
}

module _ (env : Env) where
  unfoldable pub handle_pdu : Handler → Text → Action
  handle_pdu Handler.events_handler p = events_handler env p
  handle_pdu Handler.gatts_find_info_req p = gatts_find_info_req env p
  handle_pdu Handler.gatts_find_by_type_req p = gatts_find_by_type_req env p
  handle_pdu Handler.gatts_read_by_type_req p = gatts_read_by_type_req env p
  handle_pdu Handler.gatts_read_req p = gatts_read_req env p
  handle_pdu Handler.gatts_read_blob_req p = gatts_read_blob_req env p
  handle_pdu Handler.gatts_read_multi_req p = gatts_read_multi_req env p
  handle_pdu Handler.gatts_read_by_group_req p = gatts_read_by_group_req env p
  handle_pdu Handler.gatts_write_req p = gatts_write_req env p
  handle_pdu Handler.gatts_write_cmd p = gatts_write_cmd env p
  handle_pdu Handler.gatts_signed_write_cmd p = gatts_signed_write_cmd env p
  handle_pdu Handler.gatts_prep_write_req p = gatts_prep_write_req env p
  handle_pdu Handler.gatts_exec_write_req p = gatts_exec_write_req env p
  handle_pdu Handler.gatts_mtu_req p = gatts_mtu_req env p

  unfoldable pub deliver : Incoming → Action
  deliver (input error) = watch (prompt_read env error)
  deliver (connection io err) = connect_cb env io err
  deliver (hang_up chan) = channel_watcher chan
  deliver (pdu handler p) = handle_pdu handler p
  deliver (primary_all status services) = primary_all_cb env status services
  deliver (primary_by_uuid status ranges) = primary_by_uuid_cb env status ranges
  deliver (included status includes) = included_cb env status includes
  deliver (chars status found) = char_cb env status found
  deliver (descs status found) = char_desc_cb env status found
  deliver (char_read status p) = char_read_cb env status p
  deliver (char_read_by_uuid status p data') = char_read_by_uuid_cb env status p data'
  deliver (char_written status p) = char_write_req_cb env status p
  deliver (mtu_exchanged status p) = exchange_mtu_cb env status p
  deliver (mode_set status) = set_mode_complete env status
  deliver (paired status) = pair_device_complete env status
  deliver (unpaired status) = unpair_device_complete env status
  deliver (scan_done status) = scan_cb env status
  deliver (oob_added status) = add_remote_oob_data_complete env status
  deliver (oob_read status rp) = read_local_oob_data_complete env status rp
  deliver (mgmt_discovering len on) = mgmt_scanning len on
  deliver (mgmt_found len ev) = mgmt_device_found len ev
  deliver hci_readable = watch (hci_monitor_cb env)

  -- `g_main_loop_run`: callbacks are made until one quits the loop.
  unfoldable pub main_loop : List Incoming → Action
  main_loop [] = skip
  main_loop (i ∷ rest) = do deliver i; w ← get (λ w. w); if w.quitting then skip else main_loop rest

  -- The first statements of `main`.
  unfoldable pub set_defaults : Action
  set_defaults = do
    modify (λ w. record w {
      opt_sec_level = codes "low";
      opt_src = none;
      opt_dst = none;
      opt_dst_type = codes "public";
    })
    print (codes "# " ++ env.build ++ codes "\n")

  -- From the creation of the event loop on.
  unfoldable pub serve : List Incoming → Action
  serve happenings = do
    main_loop happenings
    cmd_disconnect []
    w ← get (λ w. w)
    call (Event.mgmt_unregister_index w.mgmt_master w.mgmt_ind)
    call (Event.mgmt_cancel_index w.mgmt_master w.mgmt_ind)
    call (Event.mgmt_unref w.mgmt_master)
    modify (λ v. record v { mgmt_master = none })

  unfoldable pub main : List Text → List Incoming → Action
  main argv happenings = do
    set_defaults
    if ltb 1 (length argv)
        then on_option (env.scan_int (arg argv 1))
            (do
              print (
                  codes "# ERROR: cannot convert '"
                  ++ arg argv 1
                  ++ codes "' to device index integer\n")
              call Event.exit_failure)
            (λ index. do mgmt_setup env (to_u16 index); serve happenings)
        else do mgmt_setup env 0; serve happenings
