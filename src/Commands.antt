-- ===== src/Commands.antt =====
-- The command interpreter: the table of commands, and the lines read from standard input.
--
-- bluepy/bluepy-helper.c, lines 1883 to 2005.
pub mod Dispatch
use bluepy.Common.{
  ℕ, ◌-◌, Bool, true, false, Option, none, some, List, [], ◌∷◌, ◌++◌, String, Text, codes, length,
  arg, replicate, same_text_nocase, if◌then◌else◌,
}
use bluepy.World.{on_option, Env, Event, M, Action, pure, skip, get, call, print, ◌>>=◌, ◌>>◌}
use bluepy.Protocol.{resp_error, err_bad_cmd}
use bluepy.Status.{cmd_status}
use bluepy.Connection.{cmd_exit, cmd_connect, cmd_disconnect}
use bluepy.Gatt.Discovery.{cmd_primary, cmd_included, cmd_char, cmd_char_desc}
use bluepy.Gatt.Read.{cmd_read_hnd, cmd_read_uuid}
use bluepy.Gatt.Write.{cmd_char_write, cmd_char_write_rsp}
use bluepy.Gatt.Security.{cmd_sec_level}
use bluepy.Gatt.Mtu.{cmd_mtu}
use bluepy.Mgmt.Modes.{cmd_le, cmd_pairable}
use bluepy.Mgmt.Pairing.{cmd_pair, cmd_unpair}
use bluepy.Mgmt.Scan.{cmd_scan, cmd_scanend}
use bluepy.Mgmt.Oob.{cmd_add_oob, cmd_read_oob}
use bluepy.Hci.Discover.{cmd_pasv, cmd_pasvend}

-- The functions that the table names.
pub data Function : Type 0 where
  help status exit connect disconnect : Function
  primary included char char_desc read_hnd : Function
  read_uuid char_write_rsp char_write sec_level mtu : Function
  le add_oob read_oob pairable pair : Function
  unpair scan scanend pasv pasvend : Function

-- A row of `commands`.
pub record Command : Type 0 where
  pub cmd : Text
  pub func : Function
  pub params : Text
  pub desc : Text

abbrev row : String → Function → String → String → Command
row cmd func params desc = record {
  cmd = codes cmd;
  func = func;
  params = codes params;
  desc = codes desc;
}

unfoldable pub commands : List Command
commands =
    row "help" Function.help "" "Show this help"
    ∷ row "stat" Function.status "" "Show current status"
    ∷ row "quit" Function.exit "" "Exit interactive mode"
    ∷ row "conn" Function.connect "[address [address type [interface]]]"
        "Connect to a remote device"
    ∷ row "disc" Function.disconnect "" "Disconnect from a remote device"
    ∷ row "svcs" Function.primary "[UUID]" "Primary Service Discovery"
    ∷ row "incl" Function.included "[start hnd [end hnd]]" "Find Included Services"
    ∷ row "char" Function.char "[start hnd [end hnd [UUID]]]" "Characteristics Discovery"
    ∷ row "desc" Function.char_desc "[start hnd] [end hnd]" "Characteristics Descriptor Discovery"
    ∷ row "rd" Function.read_hnd "<handle>" "Characteristics Value/Descriptor Read by handle"
    ∷ row "rdu" Function.read_uuid "<UUID> [start hnd] [end hnd]"
        "Characteristics Value/Descriptor Read by UUID"
    ∷ row "wrr" Function.char_write_rsp "<handle> [<new value>]"
        "Characteristic Value Write (Write Request)"
    ∷ row "wr" Function.char_write "<handle> [<new value>]"
        "Characteristic Value Write (No response)"
    ∷ row "secu" Function.sec_level "[low | medium | high]" "Set security level. Default: low"
    ∷ row "mtu" Function.mtu "<value>" "Exchange MTU for GATT/ATT"
    ∷ row "le" Function.le "[on | off]" "Control LE feature on the controller"
    ∷ row "remote_oob" Function.add_oob
        "address [[C_192 c192] [R_192 r192]] [[C_256 c256] [R_256 r256]]"
        "Add OOB data for remote address"
    ∷ row "local_oob" Function.read_oob "" "Read local OOB data"
    ∷ row "pairable" Function.pairable "[on | off]" "Control PAIRABLE feature on the controller"
    ∷ row "pair" Function.pair "" "Start pairing with the device"
    ∷ row "unpair" Function.unpair "" "Start unpairing with the device"
    ∷ row "scan" Function.scan "" "Start scan"
    ∷ row "scanend" Function.scanend "" "Force scan end"
    ∷ row "pasv" Function.pasv "" "Start passive scan"
    ∷ row "pasvend" Function.pasvend "" "Force passive scan end"
    ∷ []

-- `%-{width}s`
unfoldable pub pad_right : ℕ → Text → Text
pad_right width s = s ++ replicate (width - length s) 32

unfoldable pub help_line : Command → Text
help_line c =
    codes "#"
    ++ pad_right 15 c.cmd
    ++ codes " "
    ++ pad_right 30 c.params
    ++ codes " "
    ++ c.desc
    ++ codes "\n"

unfoldable pub help_lines : List Command → Action
help_lines [] = skip
help_lines (c ∷ cs) = do print (help_line c); help_lines cs

unfoldable pub cmd_help : Action
cmd_help = do help_lines commands; cmd_status

-- The loop of `parse_line`: the first row whose name is the word, in any case.
unfoldable pub find_command : Text → List Command → Option Function
find_command word [] = none
find_command word (c ∷ cs) =
    let rest = find_command word cs in if same_text_nocase c.cmd word then some c.func else rest

module _ (env : Env) where
  -- `commands[i].func(argcp, argvp)`
  unfoldable pub run : Function → List Text → Action
  run Function.help argv = cmd_help
  run Function.status argv = cmd_status
  run Function.exit argv = cmd_exit argv
  run Function.connect argv = cmd_connect env argv
  run Function.disconnect argv = cmd_disconnect argv
  run Function.primary argv = cmd_primary env argv
  run Function.included argv = cmd_included argv
  run Function.char argv = cmd_char env argv
  run Function.char_desc argv = cmd_char_desc argv
  run Function.read_hnd argv = cmd_read_hnd argv
  run Function.read_uuid argv = cmd_read_uuid env argv
  run Function.char_write_rsp argv = cmd_char_write_rsp env argv
  run Function.char_write argv = cmd_char_write env argv
  run Function.sec_level argv = cmd_sec_level env argv
  run Function.mtu argv = cmd_mtu argv
  run Function.le argv = cmd_le env argv
  run Function.add_oob argv = cmd_add_oob env argv
  run Function.read_oob argv = cmd_read_oob env argv
  run Function.pairable argv = cmd_pairable env argv
  run Function.pair argv = cmd_pair env argv
  run Function.unpair argv = cmd_unpair env argv
  run Function.scan argv = cmd_scan env argv
  run Function.scanend argv = cmd_scanend env argv
  run Function.pasv argv = cmd_pasv env argv
  run Function.pasvend argv = cmd_pasvend env argv

  -- `parse_line` behind the test for an empty line.
  unfoldable pub run_words : Option (List Text) → Action
  run_words none = resp_error err_bad_cmd
  run_words (some argv) =
      on_option (find_command (arg argv 0) commands) (resp_error err_bad_cmd)
        (λ func. run func argv)

  unfoldable pub parse_line : Text → Action
  parse_line line_read = elim (env.strstrip line_read) [
    | [] ↦ skip
    | c ∷ rest ↦ run_words (env.shell_parse_argv (c ∷ rest))
  ]

  -- The watch on standard input, told whether the condition is an error. The result is false if
  -- the watch is to be removed.
  unfoldable pub prompt_read : Bool → M Bool
  prompt_read true = do cmd_exit []; pure false
  prompt_read false = do
    w ← get (λ w. w)
    call Event.read_line
    on_option (env.read_line w.trace) (do cmd_exit []; pure false)
        (λ line. do parse_line line; pure true)
