-- ===== src/Gatt/Discovery.antt =====
-- The discovery commands.
--
-- bluepy/bluepy-helper.c, lines 869 to 1001.
use bluepy.Common.{ℕ, not, none, some, List, Text, length, arg, ◌==◌, ltb, if◌then◌else◌}
use bluepy.Common.Int.{ℤ, pos, is_negative, to_u16}
use bluepy.World.{on_option, Env, World, Event, Action, get, modify, call, ◌>>=◌, ◌>>◌}
use bluepy.Protocol.{resp_error, err_bad_state, err_bad_param}
use bluepy.Connection.{is_connected}
use bluepy.Gatt.Handle.{strtohandle}

-- A command that needs a connection reports an error and returns in any other state.
unfoldable pub when_connected : (World → Action) → Action
when_connected body = do
  w ← get (λ w. w)
  if not (is_connected w.conn_state) then resp_error err_bad_state else body w

-- The handle in argument `i`, or its value where the argument is missing.
abbrev pub handle_arg : List Text → ℕ → ℤ → ℤ
handle_arg argv i missing = if ltb i (length argv) then strtohandle (arg argv i) else missing

unfoldable pub cmd_included : List Text → Action
cmd_included argv = when_connected λ w.
    let start = handle_arg argv 1 (pos 0x0001) in
    let end = handle_arg argv 2 (if ltb 1 (length argv) then start else pos 0xffff) in
    if is_negative start
    then resp_error err_bad_param
    else if is_negative end
    then resp_error err_bad_param
    else call (Event.find_included w.attrib (to_u16 start) (to_u16 end))

unfoldable pub cmd_char_desc : List Text → Action
cmd_char_desc argv = when_connected λ w.
    let first = handle_arg argv 1 (pos 0x0001) in
    let last = handle_arg argv 2 (pos 0xffff) in
    do
      modify (λ v. record v { start = first })
      if is_negative first then resp_error err_bad_param else do
        modify (λ v. record v { end = last })
        if is_negative last
            then resp_error err_bad_param
            else call (Event.discover_desc w.attrib (to_u16 first) (to_u16 last))

module _ (env : Env) where
  unfoldable pub cmd_primary : List Text → Action
  cmd_primary argv = when_connected λ w.
      if length argv == 1
      then call (Event.discover_primary w.attrib none)
      else on_option (env.string_to_uuid (arg argv 1)) (resp_error err_bad_param)
          (λ uuid. call (Event.discover_primary w.attrib (some uuid)))

  unfoldable pub cmd_char : List Text → Action
  cmd_char argv = when_connected λ w.
      let start = handle_arg argv 1 (pos 0x0001) in
      let end = handle_arg argv 2 (pos 0xffff) in
      if is_negative start
      then resp_error err_bad_param
      else if is_negative end
      then resp_error err_bad_param
      else if ltb 3 (length argv)
      then on_option (env.string_to_uuid (arg argv 3)) (resp_error err_bad_param)
          (λ uuid. call (Event.discover_char w.attrib (to_u16 start) (to_u16 end) (some uuid)))
      else call (Event.discover_char w.attrib (to_u16 start) (to_u16 end) none)
