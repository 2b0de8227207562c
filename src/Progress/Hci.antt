-- ===== src/Progress/Hci.antt =====
-- The passive scan returns, and its commands are answered.
use bluepy.Hci.Lines.{report_device-line, report_advertising-line}
use bluepy.Progress.Protocol.{Replies-resp_mgmt, Runs-set_state}
use bluepy.Common.{◌≡◌, ◌==◌, refl, false, true, Text, ◌+◌, List, Option, ℕ, Bool}
use bluepy.Progress.Replies.{
  Replies-then, Replies-if, Replies-get, Replies->>, Replies-second, Replies,
}
use bluepy.Progress.Runs.{
  Runs-skip, Runs-if, Runs-get, Runs-assert, Runs->>, Runs-modify, Runs-print, Runs-call,
  Runs-Prints, running, Runs,
}
use bluepy.Hci.Discover.{
  enable_scan, cmd_pasvend, discover, start_discover, set_filter, set_scan_enable, stop_discover,
  open_dev, get_filter, watch_socket, set_up_filter, cmd_pasv, set_scan_parameters,
}
use bluepy.World.{Env}
use bluepy.Mgmt.Notices.{
  discovering_size, mgmt_scanning, report_device, device_found_size, DeviceFound, mgmt_setup,
  mgmt_device_found,
}
use bluepy.Hci.Monitor.{
  report_advertising, read_packet, hci_monitor_cb, read_chars, Mem, handle_event, Advertising,
  handle_command,
}

Runs-report_advertising : (ev : Advertising) → Runs (report_advertising ev)
Runs-report_advertising ev = Runs-Prints (report_advertising-line ev)

Runs-handle_command : (buf : Mem) → Runs (handle_command buf)
unfolding handle_command
Runs-handle_command buf = search (running, Runs-set_state) depth 8

Runs-handle_event : (buf : Mem) → Runs (handle_event buf)
unfolding handle_event
Runs-handle_event buf = search (running, Runs-report_advertising) depth 8

module _ (env : Env) where
  Runs-read_chars : (buf : Mem) (off n : ℕ) → Runs (read_chars env buf off n)
  unfolding read_chars
  Runs-read_chars buf off n = search running depth 8

  pub Runs-hci_monitor_cb : Runs (hci_monitor_cb env)
  unfolding hci_monitor_cb read_packet
  Runs-hci_monitor_cb =
      search (running, Runs-read_chars, Runs-handle_command, Runs-handle_event) depth 10

  Runs-set_scan_enable : (enable : ℕ) → Runs (set_scan_enable env enable)
  unfolding set_scan_enable
  Runs-set_scan_enable enable = search running

  Runs-get_filter : Runs (get_filter env)
  unfolding get_filter
  Runs-get_filter = search running

  Runs-set_filter : (f : Option (List ℕ × List ℕ)) → Runs (set_filter env f)
  unfolding set_filter
  Runs-set_filter f = search running

  Runs-set_scan_parameters : Runs (set_scan_parameters env)
  unfolding set_scan_parameters
  Runs-set_scan_parameters = search running

  Runs-watch_socket : Runs (watch_socket env)
  unfolding watch_socket
  Runs-watch_socket = search running

  Runs-open_dev : Runs (open_dev env)
  unfolding open_dev
  Runs-open_dev = search running

  Replies-enable_scan : Replies env (enable_scan env)
  unfolding enable_scan
  Replies-enable_scan = Replies-second (Runs-set_scan_enable _) (λ err.
      Replies-if _ (Replies-resp_mgmt _) (Replies-then (Replies-resp_mgmt _) (Runs-set_state _)))

  Replies-set_up_filter : Replies env (set_up_filter env)
  unfolding set_up_filter
  Replies-set_up_filter = Replies-second Runs-get_filter (λ got.
      Replies-if _ (Replies->> (Runs-print _) (Replies-resp_mgmt _)) (
        Replies-second (Runs-set_filter _) (λ done.
          Replies-if _ (Replies->> (Runs-print _) (Replies-resp_mgmt _)) Replies-enable_scan)))

  Replies-start_discover : Replies env (start_discover env)
  unfolding start_discover
  Replies-start_discover = Replies-second (Runs-set_scan_enable _) (λ ignored.
      Replies-second Runs-set_scan_parameters (λ err.
        Replies-if _ (Replies-resp_mgmt _) (Replies->> Runs-watch_socket Replies-set_up_filter)))

  Replies-stop_discover : Replies env (stop_discover env)
  unfolding stop_discover
  Replies-stop_discover = Replies-second (Runs-set_filter _) (λ ignored.
      Replies-second (Runs-set_scan_enable _) (λ err. Replies-get _ _ (λ w.
        Replies->> (Runs-call _) (
          Replies->> (Runs-modify _ (λ v. refl))
            (Replies-then (Replies-resp_mgmt _) (Runs-set_state _))))))

  Replies-discover : (start : Bool) → Replies env (discover env start)
  unfolding discover
  Replies-discover true = Replies->> Runs-open_dev Replies-start_discover
  Replies-discover false = Replies->> Runs-open_dev Replies-stop_discover

  pub Replies-cmd_pasv : (argv : List Text) → Replies env (cmd_pasv env argv)
  unfolding cmd_pasv
  Replies-cmd_pasv argv = Replies-if _ (Replies-resp_mgmt _) (Replies-discover true)

  pub Replies-cmd_pasvend : (argv : List Text) → Replies env (cmd_pasvend env argv)
  unfolding cmd_pasvend
  Replies-cmd_pasvend argv = Replies-if _ (Replies-resp_mgmt _) (Replies-discover false)

  pub Runs-mgmt_setup : (idx : ℕ) → Runs (mgmt_setup env idx)
  unfolding mgmt_setup
  Runs-mgmt_setup idx = search running depth 12

Runs-report_device : (ev : DeviceFound) → Runs (report_device ev)
Runs-report_device ev = Runs-Prints (report_device-line ev)

pub Runs-mgmt_device_found :
    (len : ℕ) (ev : DeviceFound)
    → (len == device_found_size + ev.eir_len) ≡ true
    → Runs (mgmt_device_found len ev)
unfolding mgmt_device_found
Runs-mgmt_device_found len ev h =
    rw h (Runs->> Runs-assert (Runs-get _ _ (λ w. Runs-if _ Runs-skip (Runs-report_device ev))))

pub Runs-mgmt_scanning :
    (len : ℕ) (on : Bool) → (len == discovering_size) ≡ true → Runs (mgmt_scanning len on)
unfolding mgmt_scanning
Runs-mgmt_scanning len on h = rw h (Runs->> Runs-assert (Runs-set_state _))
