-- ===== src/Hci/Discover.antt =====
-- Starting and stopping the passive scan: `discover`.
--
-- bluepy/bluepy-helper.c, lines 1782 to 1881.
use bluepy.Common.{
  ℕ, Bool, true, false, Option, none, some, List, [], ◌∷◌, Text, codes, length, ltb, if◌then◌else◌,
}
use bluepy.Common.Int.{ℤ, negsuc, is_negative}
use bluepy.World.{
  Env, disconnected, scanning, Event, M, Action, pure, get, modify, call, print, ◌>>=◌, ◌>>◌,
}
use bluepy.Protocol.{resp_mgmt, err_bad_state, err_bad_param, err_success}
use bluepy.Status.{set_state}

-- The packet types and events of the filter `nf`: HCI_EVENT_PKT, HCI_COMMAND_PKT;
-- EVT_LE_META_EVENT, EVT_CMD_COMPLETE, OCF_LE_SET_SCAN_ENABLE.
abbrev pub scan_filter : List ℕ × List ℕ
scan_filter = (4 ∷ 1 ∷ [], 0x3e ∷ 0x0e ∷ 0x0c ∷ [])

module _ (env : Env) where
  -- `hci_le_set_scan_enable(hci_dd, enable, filter_dup, 10000)`
  unfoldable pub set_scan_enable : ℕ → M ℤ
  set_scan_enable enable = do
    w ← get (λ w. w)
    call (Event.hci_set_scan_enable w.hci_dd enable 0)
    pure (env.hci_set_scan_enable w.trace w.hci_dd enable 0)

  -- `hci_le_set_scan_parameters` with a passive scan, both intervals 0x0010, a public address.
  unfoldable pub set_scan_parameters : M ℤ
  set_scan_parameters = do
    w ← get (λ w. w)
    call (Event.hci_set_scan_parameters w.hci_dd 0 0x0010 0x0010 0 0)
    pure (env.hci_set_scan_parameters w.trace w.hci_dd 0 0x0010 0x0010 0 0)

  unfoldable pub get_filter : M ℤ
  get_filter = do
    w ← get (λ w. w)
    call (Event.hci_get_filter w.hci_dd)
    pure (env.hci_get_filter w.trace w.hci_dd)

  -- `none` is the filter `of`, which is not set when the scan is stopped.
  unfoldable pub set_filter : Option (List ℕ × List ℕ) → M ℤ
  set_filter filter = do
    w ← get (λ w. w)
    call (Event.hci_set_filter w.hci_dd filter)
    pure (env.hci_set_filter w.trace w.hci_dd)

  unfoldable pub open_dev : Action
  open_dev = do
    w ← get (λ w. w)
    call (Event.hci_open_dev w.mgmt_ind)
    modify (λ v. record v { hci_dd = env.hci_open_dev w.trace w.mgmt_ind })

  unfoldable pub watch_socket : Action
  watch_socket = do
    w ← get (λ w. w)
    modify (λ v. record v { hci_io = some (env.io_channel_new w.trace w.hci_dd) })
    call (Event.hci_watch w.hci_dd)

  -- From the enabling of the scan on.
  unfoldable pub enable_scan : Action
  enable_scan = do
    err ← set_scan_enable 0x01
    if is_negative err
        then resp_mgmt err_bad_state
        else do resp_mgmt err_success; set_state scanning

  -- From the new watch on.
  unfoldable pub set_up_filter : Action
  set_up_filter = do
    got ← get_filter
    if is_negative got
        then (do print (codes "Could not get socket options\n"); resp_mgmt err_bad_state)
        else do
          done ← set_filter (some scan_filter)
          if is_negative done
              then (do print (codes "Could not set socket options\n"); resp_mgmt err_bad_state)
              else enable_scan

  unfoldable pub start_discover : Action
  start_discover = do
    ignored ← set_scan_enable 0x00
    err ← set_scan_parameters
    if is_negative err then resp_mgmt err_bad_state else do watch_socket; set_up_filter

  unfoldable pub stop_discover : Action
  stop_discover = do
    ignored ← set_filter none
    err ← set_scan_enable 0x00
    w ← get (λ w. w)
    call (Event.hci_close_dev w.hci_dd)
    modify (λ v. record v { hci_dd = negsuc 0; hci_io = none })
    resp_mgmt (if is_negative err then err_bad_state else err_success)
    set_state disconnected

  unfoldable pub discover : Bool → Action
  discover true = do open_dev; start_discover
  discover false = do open_dev; stop_discover

  unfoldable pub cmd_pasvend : List Text → Action
  cmd_pasvend argv = if ltb 1 (length argv) then resp_mgmt err_bad_param else discover false

  unfoldable pub cmd_pasv : List Text → Action
  cmd_pasv argv = if ltb 1 (length argv) then resp_mgmt err_bad_param else discover true
