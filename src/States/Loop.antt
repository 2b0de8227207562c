-- ===== src/States/Loop.antt =====
-- The process follows the relation: each command, each callback and the event loop.
use bluepy.States.Mgmt.{
  Moves-mgmt_device_found, Moves-read_local_oob_data_complete, Moves-add_remote_oob_data_complete,
  Moves-scan_cb, Moves-request_complete, Moves-cmd_scanend, Moves-cmd_scan, Moves-cmd_unpair,
  Moves-cmd_pair, Moves-cmd_read_oob, Moves-cmd_add_oob, Moves-mode_command,
}
use bluepy.States.Gatt.{
  Moves-exchange_mtu_cb, Moves-char_write_req_cb, Moves-char_read_by_uuid_cb, Moves-char_read_cb,
  Moves-cmd_mtu, Moves-cmd_sec_level, Moves-handle_pdu, Moves-cmd_char_write_common,
  Moves-cmd_read_uuid, Moves-cmd_read_hnd, Moves-cmd_char_desc, Moves-cmd_char, Moves-cmd_included,
  Moves-cmd_primary,
}
use bluepy.Gatt.Write.{cmd_char_write_rsp, cmd_char_write}
use bluepy.Protocol.{err_bad_cmd}
use bluepy.States.Changes.{
  Moves-hci_monitor_cb, Moves-cmd_pasvend, Moves-cmd_pasv, Moves-cmd_connect, Moves-attach,
  Moves-disconnect_io, Moves-cmd_exit,
}
use bluepy.Mgmt.Pairing.{unpair_device_complete, pair_device_complete}
use bluepy.States.Responses.{answering, Moves-resp_str_error, Moves-resp_error}
use bluepy.Mgmt.Modes.{cmd_pairable, cmd_le, set_mode_complete}
use bluepy.States.Moves.{
  Moves-if, Moves-on_option, Moves-pure, Moves-cmd_status, Moves-set_state, moving, Moves-print,
  Moves-assert, Moves-get, Moves->>=, Moves->>, Moves-skip, Moves,
}
use bluepy.Mgmt.Notices.{mgmt_scanning}
use bluepy.States.{
  monitor, listen, close, dial, fail, end_scan, next, begin_scan, ended, lose, establish, Session,
  Route, Edge,
}
use bluepy.Connection.{cmd_disconnect, set_up_attrib, connect_cb, channel_watcher}
use bluepy.Main.{
  hci_readable, mgmt_found, oob_read, oob_added, scan_done, unpaired, paired, mode_set,
  mtu_exchanged, char_written, char_read_by_uuid, char_read, descs, chars, included,
  primary_by_uuid, primary_all, pdu, mgmt_discovering, hang_up, connection, input, Incoming,
  deliver, main_loop,
}
use bluepy.Commands.{
  Function, commands, Command, parse_line, run_words, help_lines, cmd_help, run, prompt_read,
}
use bluepy.World.{
  undefined, aborted, disconnected, scanning, ret, world_of, Outcome, skip, World, get, ◌>>◌, Ptr,
  ◌>>=◌, Action, M, ConnState, Env,
}
use bluepy.Gatt.Reports.{
  send_range, send_desc, send_char, send_included, send_primary, report_list, char_desc_cb, char_cb,
  included_cb, primary_by_uuid_cb, primary_all_cb, send_each,
}
use bluepy.Common.{none, if◌then◌else◌, true, some, false, List, Bool, Option, ℕ, Text, [], ◌∷◌}

Moves-send_each :
    {A : Type 0} {E : ConnState → ConnState → Type 0} (send : A → Action) (xs : List A)
    → ((x : A) → Moves E (send x))
    → Moves E (send_each send xs)
unfolding send_each
Moves-send_each send [] h = Moves-skip
Moves-send_each send (x ∷ xs) h = Moves->> (h x) (Moves-send_each send xs h)

module _ {E : ConnState → ConnState → Type 0} where
  Moves-help_lines : (cs : List Command) → Moves E (help_lines cs)
  unfolding help_lines
  Moves-help_lines [] = Moves-skip
  Moves-help_lines (c ∷ cs) = Moves->> (Moves-print _) (Moves-help_lines cs)

  Moves-cmd_help : Moves E cmd_help
  unfolding cmd_help
  Moves-cmd_help = Moves->> (Moves-help_lines commands) Moves-cmd_status

  Moves-watch : {m : M Bool} → Moves E m → Moves E (m >>= λ _. skip)
  Moves-watch h = Moves->>= h (λ _. Moves-skip)

-- The changes that a line of input may make.
abbrev Typed : ConnState → ConnState → Type 0
Typed = Edge (input false)

module _ (env : Env) where
  Moves-run : (func : Function) (argv : List Text) → Moves Typed (run env func argv)
  unfolding run cmd_le cmd_pairable cmd_disconnect cmd_char_write cmd_char_write_rsp
  Moves-run Function.help argv = Moves-cmd_help
  Moves-run Function.status argv = Moves-cmd_status
  Moves-run Function.exit argv = Moves-cmd_exit argv
  Moves-run Function.connect argv = Moves-cmd_connect env argv dial (λ s. close)
  Moves-run Function.disconnect argv = Moves-disconnect_io (λ s. close)
  Moves-run Function.primary argv = Moves-cmd_primary env argv
  Moves-run Function.included argv = Moves-cmd_included env argv
  Moves-run Function.char argv = Moves-cmd_char env argv
  Moves-run Function.char_desc argv = Moves-cmd_char_desc env argv
  Moves-run Function.read_hnd argv = Moves-cmd_read_hnd env argv
  Moves-run Function.read_uuid argv = Moves-cmd_read_uuid env argv
  Moves-run Function.char_write_rsp argv = Moves-cmd_char_write_common env argv true
  Moves-run Function.char_write argv = Moves-cmd_char_write_common env argv false
  Moves-run Function.sec_level argv = Moves-cmd_sec_level env argv
  Moves-run Function.mtu argv = Moves-cmd_mtu env argv
  Moves-run Function.le argv = Moves-mode_command env _ argv
  Moves-run Function.add_oob argv = Moves-cmd_add_oob env argv
  Moves-run Function.read_oob argv = Moves-cmd_read_oob env argv
  Moves-run Function.pairable argv = Moves-mode_command env _ argv
  Moves-run Function.pair argv = Moves-cmd_pair env argv
  Moves-run Function.unpair argv = Moves-cmd_unpair env argv
  Moves-run Function.scan argv = Moves-cmd_scan env argv
  Moves-run Function.scanend argv = Moves-cmd_scanend env argv
  Moves-run Function.pasv argv = Moves-cmd_pasv env argv (λ s. listen)
  Moves-run Function.pasvend argv = Moves-cmd_pasvend env argv (λ s. close)

  Moves-run_words : (words : Option (List Text)) → Moves Typed (run_words env words)
  unfolding run_words
  Moves-run_words none = Moves-resp_error err_bad_cmd
  Moves-run_words (some argv) =
      Moves-on_option _ _ _ (Moves-resp_error err_bad_cmd) (λ func. Moves-run func argv)

  Moves-stripped :
      (s : Text)
      → Moves Typed
          (elim s [ [] ↦ skip | c ∷ rest ↦ run_words env (env.shell_parse_argv (c ∷ rest)) ])
  Moves-stripped [] = Moves-skip
  Moves-stripped (c ∷ rest) = Moves-run_words (env.shell_parse_argv (c ∷ rest))

  Moves-parse_line : (s : Text) → Moves Typed (parse_line env s)
  unfolding parse_line
  Moves-parse_line s = Moves-stripped (env.strstrip s)

  Moves-prompt_read : (error : Bool) → Moves (Edge (input error)) (prompt_read env error)
  unfolding prompt_read
  Moves-prompt_read true = Moves->> (Moves-cmd_exit []) (Moves-pure false)
  Moves-prompt_read false = search (moving, Moves-cmd_exit, Moves-parse_line) depth 8

  Moves-connect_cb :
      (io : Ptr) (err : Option Text) → Moves (Edge (connection io err)) (connect_cb env io err)
  unfolding connect_cb set_up_attrib
  Moves-connect_cb io none = Moves-get _ _ (λ r. Moves-attach env r (λ s. establish))
  Moves-connect_cb io (some message) =
      Moves->> (Moves-set_state disconnected (λ s. fail))
        (Moves->> (Moves-resp_str_error _ _) (Moves-print _))

  Moves-channel_watcher : (chan : Ptr) → Moves (Edge (hang_up chan)) (channel_watcher chan)
  unfolding channel_watcher
  Moves-channel_watcher chan = Moves-get _ _ (λ w.
      Moves-on_option _ _ _ Moves-skip
        (λ io. Moves-if _ (Moves-disconnect_io (λ s. lose)) Moves-skip))

  Moves-mgmt_scanning :
      (len : ℕ) (on : Bool) → Moves (Edge (mgmt_discovering len on)) (mgmt_scanning len on)
  unfolding mgmt_scanning
  Moves-mgmt_scanning len true =
      Moves->> (Moves-assert _) (Moves-set_state scanning (λ s. begin_scan))
  Moves-mgmt_scanning len false =
      Moves->> (Moves-assert _) (Moves-set_state disconnected (λ s. end_scan))

  Moves-deliver : (i : Incoming) → Moves (Edge i) (deliver env i)
  unfolding deliver set_mode_complete pair_device_complete unpair_device_complete primary_all_cb
      primary_by_uuid_cb included_cb char_cb char_desc_cb report_list send_primary send_included
      send_char send_desc send_range
  Moves-deliver (input error) = Moves-watch (Moves-prompt_read error)
  Moves-deliver (connection io err) = Moves-connect_cb io err
  Moves-deliver (hang_up chan) = Moves-channel_watcher chan
  Moves-deliver (pdu handler p) = Moves-handle_pdu env handler p
  Moves-deliver (primary_all status xs) = search (moving, answering, Moves-send_each) depth 12
  Moves-deliver (primary_by_uuid status xs) = search (moving, answering, Moves-send_each) depth 12
  Moves-deliver (included status xs) = search (moving, answering, Moves-send_each) depth 12
  Moves-deliver (chars status xs) = search (moving, answering, Moves-send_each) depth 12
  Moves-deliver (descs status xs) = search (moving, answering, Moves-send_each) depth 12
  Moves-deliver (char_read status p) = Moves-char_read_cb env status p
  Moves-deliver (char_read_by_uuid status p d) = Moves-char_read_by_uuid_cb env status p d
  Moves-deliver (char_written status p) = Moves-char_write_req_cb env status p
  Moves-deliver (mtu_exchanged status p) = Moves-exchange_mtu_cb env status p
  Moves-deliver (mode_set status) = Moves-request_complete env status
  Moves-deliver (paired status) = Moves-request_complete env status
  Moves-deliver (unpaired status) = Moves-request_complete env status
  Moves-deliver (scan_done status) = Moves-scan_cb env status
  Moves-deliver (oob_added status) = Moves-add_remote_oob_data_complete env status
  Moves-deliver (oob_read status rp) = Moves-read_local_oob_data_complete env status rp
  Moves-deliver (mgmt_discovering len on) = Moves-mgmt_scanning len on
  Moves-deliver (mgmt_found len ev) = Moves-mgmt_device_found len ev
  Moves-deliver hci_readable = Moves-watch (Moves-hci_monitor_cb env monitor)

  after_delivery :
      (i : Incoming) (rest : List Incoming) (w : World) (o : Outcome (Unit {0})) (k : Action)
      → Route (Edge i) w (world_of o)
      → ((v : World) → Session rest v (world_of (k v)))
      → Session (i ∷ rest) w (world_of (((λ _. o) >>= λ _. k) (world_of o)))
  unfolding ◌>>=◌
  after_delivery i rest w (ret tt v) k r h = next r (h v)
  after_delivery i rest w (aborted v) k r h = next r ended
  after_delivery i rest w (undefined v) k r h = next r ended

  unless_quitting :
      (rest : List Incoming) (w : World) (b : Bool)
      → Session rest w (world_of (main_loop env rest w))
      → Session rest w (world_of ((if b then skip else main_loop env rest) w))
  unfolding skip
  unless_quitting rest w true h = ended
  unless_quitting rest w false h = h

  -- Begun in whatever world, with whatever callbacks in whatever order, the event loop takes the
  -- connection state through changes that the diagram allows to those callbacks, one after
  -- another, also where the run ends at a failed `assert` or where the code reads out of bounds.
  pub main_loop-Session :
      (happenings : List Incoming) (w : World)
      → Session happenings w (world_of (main_loop env happenings w))
  unfolding main_loop ◌>>◌ ◌>>=◌ get skip
  main_loop-Session [] w = ended
  main_loop-Session (i ∷ rest) w =
      after_delivery i rest w (deliver env i w) _ ((Moves-deliver i).moves w)
        (λ v. unless_quitting rest v v.quitting (main_loop-Session rest v))
