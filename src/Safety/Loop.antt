-- ===== src/Safety/Loop.antt =====
-- The whole process keeps the invariant: each command, each callback, the event loop and `main`.
use bluepy.Safety.Reports.{
  Keeps-char_read_by_uuid_cb, Keeps-char_desc_cb, Keeps-char_cb, Keeps-included_cb,
  Keeps-primary_by_uuid_cb, Keeps-primary_all_cb,
}
use bluepy.Safety.Mgmt.{
  Keeps-oob_read, Keeps-oob_added, Keeps-scan_cb, Keeps-request_complete, Keeps-cmd_scanend,
  Keeps-cmd_scan, Keeps-cmd_unpair, Keeps-cmd_pair, Keeps-cmd_read_oob, Keeps-cmd_add_oob,
  Keeps-mode_command,
}
use bluepy.Safety.Att.{Keeps-handle_pdu}
use bluepy.Safety.Hci.{
  Keeps-hci_monitor_cb, Keeps-mgmt_device_found, Keeps-mgmt_scanning, Keeps-cmd_pasvend,
  Keeps-cmd_pasv,
}
use bluepy.Mgmt.Pairing.{unpair_device_complete, pair_device_complete}
use bluepy.Safety.Gatt.{
  Keeps-exchange_mtu_cb, Keeps-char_write_req_cb, Keeps-char_read_cb, Keeps-cmd_mtu,
  Keeps-cmd_sec_level, Keeps-cmd_char_write, Keeps-cmd_char_write_rsp, Keeps-cmd_read_uuid,
  Keeps-cmd_read_hnd, Keeps-cmd_char_desc, Keeps-cmd_char, Keeps-cmd_included, Keeps-cmd_primary,
}
use bluepy.Safety.Rules.{keeping}
use bluepy.Protocol.{err_bad_cmd}
use bluepy.Safety.Connection.{Keeps-connect_error, Holds-connect_cb, Keeps-cmd_connect, GivesAttrib}
use bluepy.Safety.Basics.{
  Keeps-channel_watcher, Keeps-cmd_disconnect, Keeps-resp_error, Keeps-cmd_exit, Keeps-cmd_status,
}
use bluepy.Main.{
  hci_readable, mgmt_found, mgmt_discovering, oob_read, oob_added, scan_done, unpaired, paired,
  mode_set, mtu_exchanged, char_written, char_read_by_uuid, char_read, descs, chars, included,
  primary_by_uuid, primary_all, pdu, hang_up, connection, input, Incoming, deliver,
}
use bluepy.Mgmt.Modes.{cmd_pairable, set_mode_complete, cmd_le}
use bluepy.Safety.Invariant.{
  Holds, Keeps->>=, Keeps-on_option, Inv, Keeps-pure, Keeps-comment, Keeps-skip, Keeps->>, Keeps,
}
use bluepy.Common.{◌≢◌, true, none, false, ◌++◌, some, codes, [], Bool, Option, ◌∷◌, Text, List}
use bluepy.Commands.{
  pad_right, Function, run_words, commands, run, parse_line, prompt_read, Command, cmd_help,
  help_lines, help_line,
}
use bluepy.World.{World, ◌>>=◌, skip, M, print, Env}

Keeps-help_line : (c : Command) → Keeps (print (help_line c))
unfolding help_line
Keeps-help_line c =
    Keeps-comment
      (codes "#" ++ pad_right 15 c.cmd ++ codes " " ++ pad_right 30 c.params ++ codes " " ++ c.desc)

Keeps-help_lines : (cs : List Command) → Keeps (help_lines cs)
unfolding help_lines
Keeps-help_lines [] = Keeps-skip
Keeps-help_lines (c ∷ cs) = Keeps->> (Keeps-help_line c) (Keeps-help_lines cs)

Keeps-cmd_help : Keeps cmd_help
unfolding cmd_help
Keeps-cmd_help = Keeps->> (Keeps-help_lines commands) Keeps-cmd_status

-- A connection is reported as made only while there is an I/O channel: it has not been closed since
-- it was asked for, and no other attempt has failed.
abbrev pub IsTimely : Incoming → World → Type 0
IsTimely (connection io none) w = w.iochannel ≢ none
IsTimely _ w = Unit

module _ (env : Env) where
  Keeps-run : (func : Function) (argv : List Text) → Keeps (run env func argv)
  unfolding run cmd_le cmd_pairable
  Keeps-run Function.help argv = Keeps-cmd_help
  Keeps-run Function.status argv = Keeps-cmd_status
  Keeps-run Function.exit argv = Keeps-cmd_exit argv
  Keeps-run Function.connect argv = Keeps-cmd_connect env argv
  Keeps-run Function.disconnect argv = Keeps-cmd_disconnect argv
  Keeps-run Function.primary argv = Keeps-cmd_primary env argv
  Keeps-run Function.included argv = Keeps-cmd_included argv
  Keeps-run Function.char argv = Keeps-cmd_char env argv
  Keeps-run Function.char_desc argv = Keeps-cmd_char_desc argv
  Keeps-run Function.read_hnd argv = Keeps-cmd_read_hnd argv
  Keeps-run Function.read_uuid argv = Keeps-cmd_read_uuid env argv
  Keeps-run Function.char_write_rsp argv = Keeps-cmd_char_write_rsp env argv
  Keeps-run Function.char_write argv = Keeps-cmd_char_write env argv
  Keeps-run Function.sec_level argv = Keeps-cmd_sec_level env argv
  Keeps-run Function.mtu argv = Keeps-cmd_mtu argv
  Keeps-run Function.le argv = Keeps-mode_command env _ argv
  Keeps-run Function.add_oob argv = Keeps-cmd_add_oob env argv
  Keeps-run Function.read_oob argv = Keeps-cmd_read_oob env argv
  Keeps-run Function.pairable argv = Keeps-mode_command env _ argv
  Keeps-run Function.pair argv = Keeps-cmd_pair env argv
  Keeps-run Function.unpair argv = Keeps-cmd_unpair env argv
  Keeps-run Function.scan argv = Keeps-cmd_scan env argv
  Keeps-run Function.scanend argv = Keeps-cmd_scanend env argv
  Keeps-run Function.pasv argv = Keeps-cmd_pasv env argv
  Keeps-run Function.pasvend argv = Keeps-cmd_pasvend env argv

  Keeps-run_words : (words : Option (List Text)) → Keeps (run_words env words)
  unfolding run_words
  Keeps-run_words none = Keeps-resp_error err_bad_cmd
  Keeps-run_words (some argv) =
      Keeps-on_option _ _ _ (Keeps-resp_error err_bad_cmd) (λ func. Keeps-run func argv)

  Keeps-stripped :
      (s : Text)
      → Keeps (elim s [ [] ↦ skip | c ∷ rest ↦ run_words env (env.shell_parse_argv (c ∷ rest)) ])
  Keeps-stripped [] = Keeps-skip
  Keeps-stripped (c ∷ rest) = Keeps-run_words (env.shell_parse_argv (c ∷ rest))

  Keeps-parse_line : (s : Text) → Keeps (parse_line env s)
  unfolding parse_line
  Keeps-parse_line s = Keeps-stripped (env.strstrip s)

  Keeps-prompt_read : (error : Bool) → Keeps (prompt_read env error)
  unfolding prompt_read
  Keeps-prompt_read true = Keeps->> (Keeps-cmd_exit []) (Keeps-pure false)
  Keeps-prompt_read false = search (keeping, Keeps-cmd_exit, Keeps-parse_line) depth 8

  Keeps-watch : {m : M Bool} → Keeps m → Keeps (m >>= λ _. skip)
  Keeps-watch h = Keeps->>= h (λ _. Keeps-skip)

  -- Where no connection is reported without an I/O channel, each callback keeps the invariant.
  pub Holds-deliver :
      GivesAttrib env → (i : Incoming) (w : World) → Inv w → IsTimely i w → Holds (deliver env i w)
  unfolding deliver set_mode_complete pair_device_complete unpair_device_complete
  Holds-deliver gives (input error) w inv timely =
      (Keeps-watch (Keeps-prompt_read error)).keeps w inv
  Holds-deliver gives (connection io none) w inv timely = Holds-connect_cb env io w gives timely inv
  Holds-deliver gives (connection io (some message)) w inv timely =
      (Keeps-connect_error env io message).keeps w inv
  Holds-deliver gives (hang_up chan) w inv timely = (Keeps-channel_watcher chan).keeps w inv
  Holds-deliver gives (pdu handler p) w inv timely = (Keeps-handle_pdu env handler p).keeps w inv
  Holds-deliver gives (primary_all status xs) w inv timely =
      (Keeps-primary_all_cb env status xs).keeps w inv
  Holds-deliver gives (primary_by_uuid status xs) w inv timely =
      (Keeps-primary_by_uuid_cb env status xs).keeps w inv
  Holds-deliver gives (included status xs) w inv timely =
      (Keeps-included_cb env status xs).keeps w inv
  Holds-deliver gives (chars status xs) w inv timely = (Keeps-char_cb env status xs).keeps w inv
  Holds-deliver gives (descs status xs) w inv timely =
      (Keeps-char_desc_cb env status xs).keeps w inv
  Holds-deliver gives (char_read status p) w inv timely =
      (Keeps-char_read_cb env status p).keeps w inv
  Holds-deliver gives (char_read_by_uuid status p d) w inv timely =
      (Keeps-char_read_by_uuid_cb env status p d).keeps w inv
  Holds-deliver gives (char_written status p) w inv timely =
      (Keeps-char_write_req_cb env status p).keeps w inv
  Holds-deliver gives (mtu_exchanged status p) w inv timely =
      (Keeps-exchange_mtu_cb env status p).keeps w inv
  Holds-deliver gives (mode_set status) w inv timely =
      (Keeps-request_complete env status).keeps w inv
  Holds-deliver gives (paired status) w inv timely = (Keeps-request_complete env status).keeps w inv
  Holds-deliver gives (unpaired status) w inv timely =
      (Keeps-request_complete env status).keeps w inv
  Holds-deliver gives (scan_done status) w inv timely = (Keeps-scan_cb env status).keeps w inv
  Holds-deliver gives (oob_added status) w inv timely = (Keeps-oob_added env status).keeps w inv
  Holds-deliver gives (oob_read status rp) w inv timely = (Keeps-oob_read env status rp).keeps w inv
  Holds-deliver gives (mgmt_discovering len on) w inv timely =
      (Keeps-mgmt_scanning len on).keeps w inv
  Holds-deliver gives (mgmt_found len ev) w inv timely =
      (Keeps-mgmt_device_found len ev).keeps w inv
  Holds-deliver gives hci_readable w inv timely =
      (Keeps-watch (Keeps-hci_monitor_cb env)).keeps w inv
