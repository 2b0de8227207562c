-- ===== src/Connection.antt =====
-- Making and closing the connection.
--
-- bluepy/bluepy-helper.c, lines 553 to 628 and 804 to 867.
pub mod Closing
pub mod Opening
use bluepy.Common.{
  false, true, Bool, ℕ, Option, none, some, List, [], ◌∷◌, ◌++◌, Text, codes, length, arg, not,
  ◌==◌, ltb, if◌then◌else◌,
}
use bluepy.Common.Int.{ℤ, pos}
use bluepy.World.{
  on_option, Env, World, ConnState, disconnected, connecting, connected, Ptr, Event, Handler,
  Action, skip, get, modify, call, print, ◌>>=◌, ◌>>◌,
}
use bluepy.Protocol.{resp_error, resp_str_error, err_conn_fail, err_bad_param}
use bluepy.Status.{set_state}

abbrev pub att_default_le_mtu : ℕ
att_default_le_mtu = 23

abbrev pub att_cid : ℕ
att_cid = 4

abbrev pub opt_psm : ℤ
opt_psm = pos 0

abbrev pub is_disconnected : ConnState → Bool
is_disconnected disconnected = true
is_disconnected _ = false

abbrev pub is_connected : ConnState → Bool
is_connected connected = true
is_connected _ = false

-- The handlers by opcode, in the order of the calls of `g_attrib_register`.
abbrev pub registrations : List (ℕ × Handler)
registrations =
    (0x1b, Handler.events_handler)
    ∷ (0x1d, Handler.events_handler)
    ∷ (0x04, Handler.gatts_find_info_req)
    ∷ (0x06, Handler.gatts_find_by_type_req)
    ∷ (0x08, Handler.gatts_read_by_type_req)
    ∷ (0x0a, Handler.gatts_read_req)
    ∷ (0x0c, Handler.gatts_read_blob_req)
    ∷ (0x0e, Handler.gatts_read_multi_req)
    ∷ (0x10, Handler.gatts_read_by_group_req)
    ∷ (0x12, Handler.gatts_write_req)
    ∷ (0x52, Handler.gatts_write_cmd)
    ∷ (0xd2, Handler.gatts_signed_write_cmd)
    ∷ (0x16, Handler.gatts_prep_write_req)
    ∷ (0x18, Handler.gatts_exec_write_req)
    ∷ (0x02, Handler.gatts_mtu_req)
    ∷ []

unfoldable pub register_all : Option Ptr → List (ℕ × Handler) → Action
register_all attrib [] = skip
register_all attrib ((opcode, handler) ∷ rest) = do
  call (Event.attrib_register attrib opcode handler)
  register_all attrib rest

unfoldable pub disconnect_io : Action
disconnect_io = do
  w ← get (λ w. w)
  if is_disconnected w.conn_state then skip else do
    call (Event.attrib_unref w.attrib)
    modify (λ v. record v { attrib = none; opt_mtu = pos 0 })
    call (Event.io_shutdown w.iochannel)
    call (Event.io_unref w.iochannel)
    modify (λ v. record v { iochannel = none })
    set_state disconnected

-- `channel_watcher`, for the channel that the watch was added on.
unfoldable pub channel_watcher : Ptr → Action
channel_watcher chan = do
  w ← get (λ w. w)
  on_option w.iochannel skip (λ io. if chan == io then disconnect_io else skip)

unfoldable pub cmd_disconnect : List Text → Action
cmd_disconnect argv = disconnect_io

-- The message where the MTU cannot be found out, and the MTU that is used.
unfoldable pub choose_mtu : Option (ℕ × ℕ) → Action
choose_mtu none = print (codes "# Can't detect MTU, using default")
choose_mtu (some r) = skip

abbrev pub chosen_mtu : Option (ℕ × ℕ) → ℕ
chosen_mtu none = att_default_le_mtu
chosen_mtu (some (mtu, cid)) = if cid == att_cid then att_default_le_mtu else mtu

unfoldable pub cmd_exit : List Text → Action
cmd_exit argv = do call Event.main_loop_quit; modify (λ w. record w { quitting = true })

module _ (env : Env) where
  -- The part of `connect_cb` behind `bt_io_get`, which may have set an error.
  unfoldable pub attach : Option (ℕ × ℕ) → Action
  attach detected = do
    choose_mtu detected
    w ← get (λ w. w)
    let attrib = env.attrib_new w.trace w.iochannel (chosen_mtu detected)
    call (Event.attrib_new w.iochannel (chosen_mtu detected))
    modify (λ v. record v { attrib = attrib })
    register_all attrib registrations
    set_state connected

  -- The part of `connect_cb` behind the error test.
  unfoldable pub set_up_attrib : Ptr → Action
  set_up_attrib io = do detected ← get (λ w. env.io_get w.trace io); attach detected

  unfoldable pub connect_cb : Ptr → Option Text → Action
  connect_cb io none = set_up_attrib io
  connect_cb io (some message) = do
    set_state disconnected
    resp_str_error err_conn_fail message
    print (codes "# Connect error: " ++ message ++ codes "\n")

  -- The assignments of `cmd_connect` from its arguments.
  unfoldable pub set_destination : List Text → World → World
  set_destination argv w =
      if ltb 1 (length argv)
      then record w {
        opt_dst = some (arg argv 1);
        opt_dst_type = if ltb 2 (length argv) then arg argv 2 else codes "public";
        opt_src = if ltb 3 (length argv) then some (arg argv 3) else none;
      }
      else w

  -- `gatt_connect` and what follows it.
  unfoldable pub start_connect : Text → Action
  start_connect dst = do
    set_state connecting
    w ← get (λ w. w)
    let io = env.gatt_connect w.trace w.opt_src dst w.opt_dst_type w.opt_sec_level opt_psm w.opt_mtu
    call (Event.gatt_connect w.opt_src dst w.opt_dst_type w.opt_sec_level opt_psm w.opt_mtu)
    modify (λ v. record v { iochannel = io })
    on_option io (set_state disconnected) (λ chan. call (Event.io_add_watch chan))

  unfoldable pub cmd_connect : List Text → Action
  cmd_connect argv = do
    w ← get (λ w. w)
    if not (is_disconnected w.conn_state) then skip else do
      modify (set_destination argv)
      v ← get (λ w. w)
      on_option v.opt_dst (resp_error err_bad_param) (λ dst. start_connect dst)
