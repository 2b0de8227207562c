-- ===== src/Progress/Commands.antt =====
-- Every command but one answers, and three are silent in some states.
use bluepy.Progress.Hci.{Replies-cmd_pasvend, Replies-cmd_pasv}
use bluepy.Progress.Mgmt.{
  Replies-cmd_scanend, Replies-cmd_scan, Replies-cmd_unpair, Replies-cmd_pair, Replies-cmd_read_oob,
  Replies-mode_command,
}
use bluepy.Mgmt.Modes.{cmd_pairable, cmd_le}
use bluepy.Protocol.{err_bad_param, resp_error}
use bluepy.Status.{set_state}
use bluepy.Progress.Gatt.{
  Replies-cmd_mtu, Replies-cmd_char_write, Replies-cmd_char_write_rsp, Replies-cmd_read_uuid,
  Replies-cmd_read_hnd, Replies-cmd_char_desc, Replies-cmd_char, Replies-cmd_included,
  Replies-cmd_primary, Replies-apply_sec_level,
}
use bluepy.Gatt.Security.{cmd_sec_level, sec_level_of, apply_sec_level}
use bluepy.Common.Int.{pos}
use bluepy.Progress.Connection.{cmd_connect-Replied}
use bluepy.Progress.Protocol.{Replies-resp_error, Replies-set_state, Replies-cmd_status}
use bluepy.Progress.Runs.{Runs-print, Runs->>, Runs-modify, Runs-skip, Runs-call, Runs}
use bluepy.Progress.Replies.{Replies-call, Replied, Replies->>, Replies-then, Replies}
use bluepy.Connection.{
  is_connected, is_disconnected, disconnect_io, cmd_connect, cmd_disconnect, cmd_exit,
}
use bluepy.Commands.{run, commands, Command, help_lines, cmd_help, Function}
use bluepy.World.{
  on_option, disconnected, undefined, Event, aborted, modify, skip, call, ret, ◌>>◌, get, SecLevel,
  Action, Outcome, ◌>>=◌, Env, World,
}
use bluepy.Common.{
  arg, ◌&&◌, length, refl, ltb, none, if◌then◌else◌, true, some, ◌≡◌, not, false, List, Text,
  Option, Bool, [], ◌∷◌,
}

Runs-help_lines : (cs : List Command) → Runs (help_lines cs)
unfolding help_lines
Runs-help_lines [] = Runs-skip
Runs-help_lines (c ∷ cs) = Runs->> (Runs-print _) (Runs-help_lines cs)

abbrev is_known : Option SecLevel → Bool
is_known none = false
is_known (some level) = true

-- The commands that do not answer: to connect where there is a connection already, to disconnect
-- where there is none, and to set a security level that is known without being connected.
abbrev pub is_silent : Function → List Text → World → Bool
is_silent Function.connect argv w = not (is_disconnected w.conn_state)
is_silent Function.disconnect argv w = is_disconnected w.conn_state
is_silent Function.sec_level argv w =
    not (ltb (length argv) 2)
    && (is_known (sec_level_of (arg argv 1)) && not (is_connected w.conn_state))
is_silent _ argv w = false

-- The command that adds out-of-band data.
abbrev pub is_adding : Function → Bool
is_adding Function.add_oob = true
is_adding _ = false

Replies-cmd_exit : {env : Env} (argv : List Text) → Replies env (cmd_exit argv)
unfolding cmd_exit
Replies-cmd_exit argv = Replies-then (Replies-call _ (λ past. tt)) (Runs-modify _ (λ w. refl))

Replies-cmd_help : {env : Env} → Replies env cmd_help
unfolding cmd_help
Replies-cmd_help = Replies->> (Runs-help_lines commands) Replies-cmd_status

-- The part of `disconnect_io` behind its test.
close : World → Action
close w = do
  call (Event.attrib_unref w.attrib)
  modify (λ v. record v { attrib = none; opt_mtu = pos 0 })
  call (Event.io_shutdown w.iochannel)
  call (Event.io_unref w.iochannel)
  modify (λ v. record v { iochannel = none })
  set_state disconnected

Replies-close : {env : Env} (w : World) → Replies env (close w)
unfolding close
Replies-close w = Replies->> (Runs-call _) (
    Replies->> (Runs-modify _ (λ v. refl)) (
      Replies->> (Runs-call _)
        (Replies->> (Runs-call _) (Replies->> (Runs-modify _ (λ v. refl)) (Replies-set_state _)))))

-- The run changes no more than fields outside the trace.
abbrev pub Quiet : World → Outcome (Unit {0}) → Type 0
Quiet w (ret a v) = v.trace ≡ w.trace
Quiet w (aborted v) = ⊥
Quiet w (undefined v) = ⊥

-- An answer, or silence where the flag says so.
abbrev pub Behaves : Bool → Env → World → Outcome (Unit {0}) → Type 0
Behaves false env w o = Replied env w o
Behaves true env w o = Quiet w o

module _ (env : Env) where
  disconnect-Behaves :
      (argv : List Text) (w : World) (b : Bool)
      → is_disconnected w.conn_state ≡ b
      → Behaves b env w (cmd_disconnect argv w)
  unfolding cmd_disconnect disconnect_io ◌>>=◌ get skip close
  disconnect-Behaves argv w true h = rw h refl
  disconnect-Behaves argv w false h = rw h ((Replies-close {env = env} w).replies w)

  connect-Behaves :
      (argv : List Text) (w : World) (b : Bool)
      → is_disconnected w.conn_state ≡ b
      → Behaves (not b) env w (cmd_connect env argv w)
  unfolding cmd_connect ◌>>=◌ get skip
  connect-Behaves argv w true h = cmd_connect-Replied env argv w h
  connect-Behaves argv w false h = rw h refl

  -- The part of `cmd_sec_level` behind its tests of the argument.
  set_level : Text → SecLevel → Action
  set_level name level = do
    modify (λ w. record w { opt_sec_level = name })
    w ← get (λ w. w)
    if not (is_connected w.conn_state) then skip else apply_sec_level env level

  set_level-Behaves :
      (name : Text) (level : SecLevel) (w : World) (b : Bool)
      → is_connected w.conn_state ≡ b
      → Behaves (not b) env w (set_level name level w)
  unfolding set_level ◌>>=◌ ◌>>◌ get modify skip
  set_level-Behaves name level w false h = rw h refl
  set_level-Behaves name level w true h = rw h (
      (Replies->> {env = env} (Runs-modify (λ v. record v { opt_sec_level = name }) (λ v. refl))
          (Replies-apply_sec_level env level)).replies
        w)

  sec_body : List Text → Bool → Option SecLevel → Action
  sec_body argv short level =
      if short
      then resp_error err_bad_param
      else on_option level (resp_error err_bad_param) (λ l. set_level (arg argv 1) l)

  sec_body-Behaves :
      (argv : List Text) (w : World) (short : Bool) (level : Option SecLevel)
      → Behaves
          (not short && (is_known level && not (is_connected w.conn_state)))
          env
          w
          (sec_body argv short level w)
  unfolding sec_body on_option
  sec_body-Behaves argv w true level = (Replies-resp_error {env = env} err_bad_param).replies w
  sec_body-Behaves argv w false none = (Replies-resp_error {env = env} err_bad_param).replies w
  sec_body-Behaves argv w false (some level) = set_level-Behaves (arg argv 1) level w _ refl

  sec_level-Behaves :
      (argv : List Text) (w : World)
      → Behaves (is_silent Function.sec_level argv w) env w (cmd_sec_level env argv w)
  unfolding cmd_sec_level sec_body set_level
  sec_level-Behaves argv w =
      sec_body-Behaves argv w (ltb (length argv) 2) (sec_level_of (arg argv 1))

  -- Each command but the one that adds out-of-band data, with whatever arguments and in whatever
  -- state, returns. It prints the end of a line, or makes a request: one to the management interface
  -- that could be sent, one to the GATT library, whose result the code does not look at, or one to end
  -- the process. Silent are only a command to connect where the state is not disconnected, one to
  -- disconnect where it is, and one that sets a known security level without a connection: these
  -- return and leave no trace.
  pub run-Behaves :
      (func : Function) (argv : List Text) (w : World)
      → is_adding func ≡ false
      → Behaves (is_silent func argv w) env w (run env func argv w)
  unfolding run cmd_le cmd_pairable
  run-Behaves Function.help argv w h = (Replies-cmd_help {env = env}).replies w
  run-Behaves Function.status argv w h = (Replies-cmd_status {env = env}).replies w
  run-Behaves Function.exit argv w h = (Replies-cmd_exit {env = env} argv).replies w
  run-Behaves Function.connect argv w h = connect-Behaves argv w _ refl
  run-Behaves Function.disconnect argv w h = disconnect-Behaves argv w _ refl
  run-Behaves Function.primary argv w h = (Replies-cmd_primary env argv).replies w
  run-Behaves Function.included argv w h = (Replies-cmd_included env argv).replies w
  run-Behaves Function.char argv w h = (Replies-cmd_char env argv).replies w
  run-Behaves Function.char_desc argv w h = (Replies-cmd_char_desc env argv).replies w
  run-Behaves Function.read_hnd argv w h = (Replies-cmd_read_hnd env argv).replies w
  run-Behaves Function.read_uuid argv w h = (Replies-cmd_read_uuid env argv).replies w
  run-Behaves Function.char_write_rsp argv w h = (Replies-cmd_char_write_rsp env argv).replies w
  run-Behaves Function.char_write argv w h = (Replies-cmd_char_write env argv).replies w
  run-Behaves Function.sec_level argv w h = sec_level-Behaves argv w
  run-Behaves Function.mtu argv w h = (Replies-cmd_mtu env argv).replies w
  run-Behaves Function.le argv w h = (Replies-mode_command env _ argv).replies w
  run-Behaves Function.add_oob argv w h = cc
  run-Behaves Function.read_oob argv w h = (Replies-cmd_read_oob env argv).replies w
  run-Behaves Function.pairable argv w h = (Replies-mode_command env _ argv).replies w
  run-Behaves Function.pair argv w h = (Replies-cmd_pair env argv).replies w
  run-Behaves Function.unpair argv w h = (Replies-cmd_unpair env argv).replies w
  run-Behaves Function.scan argv w h = (Replies-cmd_scan env argv).replies w
  run-Behaves Function.scanend argv w h = (Replies-cmd_scanend env argv).replies w
  run-Behaves Function.pasv argv w h = (Replies-cmd_pasv env argv).replies w
  run-Behaves Function.pasvend argv w h = (Replies-cmd_pasvend env argv).replies w
