-- ===== src/States/Changes.antt =====
-- The functions that change the connection state, and the changes that they make.
use bluepy.Connection.Closing.{is_disconnected→disconnected}
use bluepy.Status.{set_state}
use bluepy.Protocol.{err_bad_param, resp_error}
use bluepy.Hci.Lines.{report_advertising-line}
use bluepy.States.Responses.{Moves-resp_error, answering}
use bluepy.States.Moves.{
  Starts-get, Starts-modify, Moves-by_state, Moves-Starts, Moves-call, Moves->>, Starts-set_state,
  Moves-skip, Moves-pure, Starts, Moves-Prints, Moves-set_state, Moves-if, Moves-print, moving,
  Moves,
}
use bluepy.Hci.Discover.{
  discover, set_up_filter, stop_discover, open_dev, set_filter, cmd_pasv, watch_socket, cmd_pasvend,
  set_scan_parameters, start_discover, get_filter, enable_scan, set_scan_enable,
}
use bluepy.Hci.Monitor.{
  report_advertising, read_packet, hci_monitor_cb, read_chars, Mem, Advertising, handle_command,
  handle_event,
}
use bluepy.Connection.{
  cmd_connect, start_connect, set_destination, cmd_exit, disconnect_io, register_all,
  is_disconnected, attach, choose_mtu,
}
use bluepy.Mgmt.Notices.{is_scanning}
use bluepy.World.{
  get, ◌>>=◌, pure, modify, skip, ◌>>◌, Handler, connecting, World, connected, scanning, Ptr,
  disconnected, on_option, Env, ConnState,
}
use bluepy.Common.{
  false, not, if◌then◌else◌, Bool, inr, inl, length, none, ltb, some, Bool-cases, refl, ℕ, true,
  Text, Option, ◌≡◌, List, [], ◌∷◌,
}

is_scanning→scanning : (s : ConnState) → is_scanning s ≡ true → s ≡ scanning
is_scanning→scanning scanning h = refl
is_scanning→scanning _ h = cc

same_destination :
    (env : Env) (argv : List Text) (w : World)
    → ((set_destination env argv w).conn_state ≡ w.conn_state)
      × ((set_destination env argv w).trace ≡ w.trace)
unfolding set_destination
same_destination env argv w = elim (Bool-cases (ltb 1 (length argv))) [
  | inl e ↦ rw e (refl, refl)
  | inr e ↦ rw e (refl, refl)
]

module _ {E : ConnState → ConnState → Type 0} where
  Moves-register_all :
      (attrib : Option Ptr) (rs : List (ℕ × Handler)) → Moves E (register_all attrib rs)
  unfolding register_all
  Moves-register_all attrib [] = Moves-skip
  Moves-register_all attrib ((opcode, handler) ∷ rest) =
      Moves->> (Moves-call _) (Moves-register_all attrib rest)

  Moves-choose_mtu : (r : Option (ℕ × ℕ)) → Moves E (choose_mtu r)
  unfolding choose_mtu
  Moves-choose_mtu none = Moves-print _
  Moves-choose_mtu (some r) = Moves-skip

  pub Moves-attach :
      (env : Env) (r : Option (ℕ × ℕ)) → ((s : ConnState) → E s connected) → Moves E (attach env r)
  unfolding attach
  Moves-attach env r up =
      search (moving, Moves-choose_mtu, Moves-register_all, Moves-set_state, up) depth 12

  pub Moves-disconnect_io : ((s : ConnState) → E s disconnected) → Moves E disconnect_io
  unfolding disconnect_io
  Moves-disconnect_io down = search (moving, Moves-set_state, down) depth 12

  pub Moves-cmd_exit : (argv : List Text) → Moves E (cmd_exit argv)
  unfolding cmd_exit
  Moves-cmd_exit argv = search moving

  end_scan :
      E scanning disconnected
      → (w : World) (b : Bool) → is_scanning w.conn_state ≡ b
      → Starts E w.conn_state (do if b then set_state disconnected else skip; pure false)
  end_scan done w true h =
      rw (is_scanning→scanning w.conn_state h) (Starts-set_state _ _ done (Moves-pure false))
  end_scan done w false h = Moves-Starts _ (Moves->> Moves-skip (Moves-pure false))

  pub Moves-handle_command : (buf : Mem) → E scanning disconnected → Moves E (handle_command buf)
  unfolding handle_command
  Moves-handle_command buf done =
      Moves-if _ (Moves-pure true) (Moves-by_state _ (λ w. end_scan done w _ refl))

  Moves-report_advertising : (ev : Advertising) → Moves E (report_advertising ev)
  Moves-report_advertising ev = Moves-Prints (report_advertising-line ev)

  Moves-handle_event : (buf : Mem) → Moves E (handle_event buf)
  unfolding handle_event
  Moves-handle_event buf = search (moving, Moves-report_advertising) depth 8

  module _ (env : Env) where
    Moves-read_chars : (buf : Mem) (off n : ℕ) → Moves E (read_chars env buf off n)
    unfolding read_chars
    Moves-read_chars buf off n = search moving depth 8

    pub Moves-hci_monitor_cb : E scanning disconnected → Moves E (hci_monitor_cb env)
    unfolding hci_monitor_cb read_packet
    Moves-hci_monitor_cb done =
        search (moving, Moves-read_chars, Moves-handle_command, Moves-handle_event, done) depth 10

    Starts-start_connect :
        (dst : Text)
        → E disconnected connecting
        → ((s : ConnState) → E s disconnected)
        → Starts E disconnected (start_connect env dst)
    unfolding start_connect
    Starts-start_connect dst up down =
        Starts-set_state _ _ up (search (moving, Moves-set_state, down) depth 8)

    destination_known :
        (dst : Option Text)
        → E disconnected connecting
        → ((s : ConnState) → E s disconnected)
        → Starts E disconnected
            (on_option dst (resp_error err_bad_param) (λ to. start_connect env to))
    unfolding on_option
    destination_known none up down = Moves-Starts disconnected (Moves-resp_error err_bad_param)
    destination_known (some to) up down = Starts-start_connect to up down

    dialled :
        (argv : List Text)
        → E disconnected connecting
        → ((s : ConnState) → E s disconnected)
        → (w : World) (b : Bool) → is_disconnected w.conn_state ≡ b
        → Starts E w.conn_state (
            if not b then skip else (do
              modify (set_destination env argv)
              v ← get (λ w. w)
              on_option v.opt_dst (resp_error err_bad_param) (λ dst. start_connect env dst)))
    dialled argv up down w true h = rw (is_disconnected→disconnected w.conn_state h) (
        Starts-modify _ _ _ (same_destination env argv)
          (Starts-get _ _ (λ v. destination_known v.opt_dst up down)))
    dialled argv up down w false h = Moves-Starts _ Moves-skip

    pub Moves-cmd_connect :
        (argv : List Text)
        → E disconnected connecting
        → ((s : ConnState) → E s disconnected)
        → Moves E (cmd_connect env argv)
    unfolding cmd_connect
    Moves-cmd_connect argv up down = Moves-by_state _ (λ w. dialled argv up down w _ refl)

    Moves-discover_call : (enable : ℕ) → Moves E (set_scan_enable env enable)
    unfolding set_scan_enable
    Moves-discover_call enable = search moving

    Moves-get_filter : Moves E (get_filter env)
    unfolding get_filter
    Moves-get_filter = search moving

    Moves-set_filter : (f : Option (List ℕ × List ℕ)) → Moves E (set_filter env f)
    unfolding set_filter
    Moves-set_filter f = search moving

    Moves-set_scan_parameters : Moves E (set_scan_parameters env)
    unfolding set_scan_parameters
    Moves-set_scan_parameters = search moving

    Moves-watch_socket : Moves E (watch_socket env)
    unfolding watch_socket
    Moves-watch_socket = search moving

    Moves-open_dev : Moves E (open_dev env)
    unfolding open_dev
    Moves-open_dev = search moving

    Moves-enable_scan : ((s : ConnState) → E s scanning) → Moves E (enable_scan env)
    unfolding enable_scan
    Moves-enable_scan on =
        search (moving, answering, Moves-discover_call, Moves-set_state, on) depth 8

    Moves-start_discover : ((s : ConnState) → E s scanning) → Moves E (start_discover env)
    unfolding start_discover set_up_filter
    Moves-start_discover on =
        search
          (
            moving, answering, Moves-discover_call, Moves-set_scan_parameters, Moves-watch_socket,
            Moves-get_filter, Moves-set_filter, Moves-enable_scan, on,
          )
          depth 12

    Moves-stop_discover : ((s : ConnState) → E s disconnected) → Moves E (stop_discover env)
    unfolding stop_discover
    Moves-stop_discover off =
        search (moving, answering, Moves-discover_call, Moves-set_filter, Moves-set_state, off)
          depth 12

    pub Moves-cmd_pasv :
        (argv : List Text) → ((s : ConnState) → E s scanning) → Moves E (cmd_pasv env argv)
    unfolding cmd_pasv discover
    Moves-cmd_pasv argv on =
        search (moving, answering, Moves-open_dev, Moves-start_discover, on) depth 8

    pub Moves-cmd_pasvend :
        (argv : List Text) → ((s : ConnState) → E s disconnected) → Moves E (cmd_pasvend env argv)
    unfolding cmd_pasvend discover
    Moves-cmd_pasvend argv off =
        search (moving, answering, Moves-open_dev, Moves-stop_discover, off) depth 8
