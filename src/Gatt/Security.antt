-- ===== src/Gatt/Security.antt =====
-- The security level.
--
-- bluepy/bluepy-helper.c, lines 1145 to 1187.
use bluepy.Common.{
  Option, none, some, List, ◌++◌, Text, codes, length, arg, not, same_text_nocase, ltb,
  if◌then◌else◌,
}
use bluepy.Common.Int.{is_zero}
use bluepy.World.{
  on_option, Env, Event, SecLevel, Action, skip, get, modify, call, print, assert, ◌>>=◌, ◌>>◌,
}
use bluepy.Protocol.{resp_error, resp_str_error, err_bad_param, err_call_fail}
use bluepy.Status.{cmd_status}
use bluepy.Connection.{is_connected, opt_psm}

unfoldable pub sec_level_of : Text → Option SecLevel
sec_level_of name =
    if same_text_nocase name (codes "medium")
    then some SecLevel.medium
    else if same_text_nocase name (codes "high")
    then some SecLevel.high
    else if same_text_nocase name (codes "low")
    then some SecLevel.low
    else none

module _ (env : Env) where
  -- `bt_io_set` on the open connection, and the report of its result.
  unfoldable pub apply_sec_level : SecLevel → Action
  apply_sec_level level = do
    assert (is_zero opt_psm)
    w ← get (λ w. w)
    call (Event.io_set_sec_level w.iochannel level)
    on_option (env.io_set_error w.trace w.iochannel level) cmd_status (λ message. do
      print (codes "# Error: " ++ message ++ codes "\n")
      resp_str_error err_call_fail message)

  unfoldable pub cmd_sec_level : List Text → Action
  cmd_sec_level argv =
      if ltb (length argv) 2
      then resp_error err_bad_param
      else on_option (sec_level_of (arg argv 1)) (resp_error err_bad_param) (λ level. do
        modify (λ w. record w { opt_sec_level = arg argv 1 })
        w ← get (λ w. w)
        if not (is_connected w.conn_state) then skip else apply_sec_level level)
