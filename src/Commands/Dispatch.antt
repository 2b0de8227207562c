-- ===== src/Commands/Dispatch.antt =====
-- Which function a line of input reaches, and what the commands do without a connection.
use bluepy.Common.{Text, List, refl, some, ◌≡◌, false, true, Bool}
use bluepy.Gatt.Mtu.{cmd_mtu}
use bluepy.Gatt.Write.{cmd_char_write_common, cmd_char_write_rsp, cmd_char_write}
use bluepy.Gatt.Read.{cmd_read_uuid, cmd_read_hnd}
use bluepy.Protocol.{err_bad_state, resp_error}
use bluepy.Connection.{is_connected}
use bluepy.Common.Hex.Digits.{All}
use bluepy.World.{Env, Action, World, steps}
use bluepy.Gatt.Discovery.{cmd_char_desc, cmd_char, cmd_included, cmd_primary, when_connected}
use bluepy.Commands.{commands, run, Function, find_command}

-- Each row of the table is the one that its name finds: no row hides a later one.
pub find_command-commands : All (λ c. find_command c.cmd commands ≡ some c.func) commands
unfolding find_command commands
find_command-commands = search depth 30

-- The commands that need a connection.
abbrev pub wants_connection : Function → Bool
wants_connection Function.primary = true
wants_connection Function.included = true
wants_connection Function.char = true
wants_connection Function.char_desc = true
wants_connection Function.read_hnd = true
wants_connection Function.read_uuid = true
wants_connection Function.char_write_rsp = true
wants_connection Function.char_write = true
wants_connection Function.mtu = true
wants_connection _ = false

when_connected-refused :
    (body : World → Action) (w : World)
    → is_connected w.conn_state ≡ false
    → when_connected body w ≡ resp_error err_bad_state w
unfolding when_connected steps
when_connected-refused body w h = rw h refl

-- Without a connection, a command that needs one does nothing but report `badstate`.
pub run-not_connected :
    (env : Env) (func : Function) (argv : List Text) (w : World)
    → wants_connection func ≡ true
    → is_connected w.conn_state ≡ false
    → run env func argv w ≡ resp_error err_bad_state w
unfolding run cmd_primary cmd_included cmd_char cmd_char_desc cmd_read_hnd cmd_read_uuid
    cmd_char_write cmd_char_write_rsp cmd_char_write_common cmd_mtu
run-not_connected env Function.primary argv w h n = when_connected-refused _ w n
run-not_connected env Function.included argv w h n = when_connected-refused _ w n
run-not_connected env Function.char argv w h n = when_connected-refused _ w n
run-not_connected env Function.char_desc argv w h n = when_connected-refused _ w n
run-not_connected env Function.read_hnd argv w h n = when_connected-refused _ w n
run-not_connected env Function.read_uuid argv w h n = when_connected-refused _ w n
run-not_connected env Function.char_write_rsp argv w h n = when_connected-refused _ w n
run-not_connected env Function.char_write argv w h n = when_connected-refused _ w n
run-not_connected env Function.mtu argv w h n = when_connected-refused _ w n
run-not_connected env _ argv w h n = cc
