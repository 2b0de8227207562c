-- ===== src/Safety/Hci.antt =====
-- Passive scanning and the notices of the management interface keep the invariant.
use bluepy.Common.{ℕ, Bool, true, false, refl, List, Text, codes}
use bluepy.World.{Env, disconnected, scanning, print}
use bluepy.Status.{set_state}
use bluepy.Mgmt.Notices.{DeviceFound, report_device, mgmt_scanning, mgmt_device_found, mgmt_setup}
use bluepy.Hci.Monitor.{
  Mem, Advertising, report_advertising, handle_event, handle_command, read_chars, read_packet,
  hci_monitor_cb,
}
use bluepy.Hci.Lines.{report_device-line, report_advertising-line}
use bluepy.Hci.Discover.{
  set_scan_enable, set_scan_parameters, get_filter, set_filter, open_dev, watch_socket, enable_scan,
  set_up_filter, start_discover, stop_discover, discover, cmd_pasv, cmd_pasvend,
}
use bluepy.Safety.Invariant.{Keeps, Keeps-line, Keeps-print}
use bluepy.Safety.Basics.{Keeps-set_state, disconnected_ne_connected}
use bluepy.Safety.Rules.{keeping}

Keeps-disconnected : Keeps (set_state disconnected)
Keeps-disconnected = Keeps-set_state disconnected disconnected_ne_connected

Keeps-scanning : Keeps (set_state scanning)
Keeps-scanning = Keeps-set_state scanning (λ e. cc)

Keeps-report_advertising : (ev : Advertising) → Keeps (report_advertising ev)
Keeps-report_advertising ev = Keeps-line (report_advertising-line ev)

pub Keeps-mgmt_scanning : (len : ℕ) (on : Bool) → Keeps (mgmt_scanning len on)
unfolding mgmt_scanning
Keeps-mgmt_scanning len true = search (keeping, Keeps-scanning)
Keeps-mgmt_scanning len false = search (keeping, Keeps-disconnected)

Keeps-get_comment : Keeps (print (codes "Could not get socket options\n"))
Keeps-get_comment = Keeps-print _ (λ e. cc) refl

Keeps-set_comment : Keeps (print (codes "Could not set socket options\n"))
Keeps-set_comment = Keeps-print _ (λ e. cc) refl

Keeps-handle_command : (buf : Mem) → Keeps (handle_command buf)
unfolding handle_command
Keeps-handle_command buf = search (keeping, Keeps-disconnected) depth 8

Keeps-handle_event : (buf : Mem) → Keeps (handle_event buf)
unfolding handle_event
Keeps-handle_event buf = search (keeping, Keeps-report_advertising) depth 8

module _ (env : Env) where
  Keeps-read_chars : (buf : Mem) (off n : ℕ) → Keeps (read_chars env buf off n)
  unfolding read_chars
  Keeps-read_chars buf off n = search keeping depth 8

  pub Keeps-hci_monitor_cb : Keeps (hci_monitor_cb env)
  unfolding hci_monitor_cb read_packet
  Keeps-hci_monitor_cb =
      search (keeping, Keeps-read_chars, Keeps-handle_command, Keeps-handle_event) depth 10

  Keeps-set_scan_enable : (enable : ℕ) → Keeps (set_scan_enable env enable)
  unfolding set_scan_enable
  Keeps-set_scan_enable enable = search keeping

  Keeps-enable_scan : Keeps (enable_scan env)
  unfolding enable_scan
  Keeps-enable_scan = search (keeping, Keeps-set_scan_enable, Keeps-scanning) depth 8

  Keeps-set_up_filter : Keeps (set_up_filter env)
  unfolding set_up_filter get_filter set_filter
  Keeps-set_up_filter =
      search (keeping, Keeps-enable_scan, Keeps-get_comment, Keeps-set_comment) depth 12

  Keeps-start_discover : Keeps (start_discover env)
  unfolding start_discover set_scan_parameters watch_socket
  Keeps-start_discover = search (keeping, Keeps-set_scan_enable, Keeps-set_up_filter) depth 12

  Keeps-stop_discover : Keeps (stop_discover env)
  unfolding stop_discover set_filter
  Keeps-stop_discover = search (keeping, Keeps-set_scan_enable, Keeps-disconnected) depth 12

  Keeps-discover : (start : Bool) → Keeps (discover env start)
  unfolding discover open_dev
  Keeps-discover true = search (keeping, Keeps-start_discover) depth 8
  Keeps-discover false = search (keeping, Keeps-stop_discover) depth 8

  pub Keeps-cmd_pasv : (argv : List Text) → Keeps (cmd_pasv env argv)
  unfolding cmd_pasv
  Keeps-cmd_pasv argv = search (keeping, Keeps-discover)

  pub Keeps-cmd_pasvend : (argv : List Text) → Keeps (cmd_pasvend env argv)
  unfolding cmd_pasvend
  Keeps-cmd_pasvend argv = search (keeping, Keeps-discover)

  pub Keeps-mgmt_setup : (idx : ℕ) → Keeps (mgmt_setup env idx)
  unfolding mgmt_setup
  Keeps-mgmt_setup idx = search keeping depth 12

Keeps-report_device : (ev : DeviceFound) → Keeps (report_device ev)
Keeps-report_device ev = Keeps-line (report_device-line ev)

pub Keeps-mgmt_device_found : (len : ℕ) (ev : DeviceFound) → Keeps (mgmt_device_found len ev)
unfolding mgmt_device_found
Keeps-mgmt_device_found len ev = search (keeping, Keeps-report_device) depth 8
