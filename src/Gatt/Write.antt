-- ===== src/Gatt/Write.antt =====
-- Writing values.
--
-- bluepy/bluepy-helper.c, lines 1070 to 1143.
use bluepy.Common.{
  [], ℕ, Bool, true, false, not, ◌&&◌, ◌||◌, Option, none, some, List, Text, length, arg, gather,
  ◌==◌, ltb, if◌then◌else◌,
}
use bluepy.Common.Int.{is_negative, is_zero, to_u16}
use bluepy.World.{Env, World, Event, Buffer, Ptr, Action, call, ◌>>◌}
use bluepy.Protocol.{resp_begin, resp_end, resp_error, rsp_write, err_decoding, err_bad_param}
use bluepy.Gatt.Handle.{strtohandle}
use bluepy.Gatt.Reports.{unless_error}
use bluepy.Gatt.Discovery.{when_connected}

unfoldable pub report_written : Action
report_written = do resp_begin rsp_write; resp_end

-- The first `plen` bytes at a pointer that may be NULL.
abbrev pub bytes_of : Option Buffer → ℕ → Text
bytes_of none plen = []
bytes_of (some b) plen = gather b.mem 0 plen

abbrev pub addr_of : Option Buffer → Option Ptr
addr_of none = none
addr_of (some b) = some b.addr

-- The `if (with_response)` of `cmd_char_write_common`, and the `g_free` behind it.
unfoldable pub write_value : Bool → Option Ptr → ℕ → ℕ → Option Buffer → Action
write_value true attrib handle plen value = do
  call (Event.write_char attrib handle (bytes_of value plen))
  call (Event.free (addr_of value))
write_value false attrib handle plen value = do
  call (Event.write_cmd attrib handle (bytes_of value plen))
  report_written
  call (Event.free (addr_of value))

module _ (env : Env) where
  unfoldable pub char_write_req_cb : ℕ → Text → Action
  char_write_req_cb status pdu = unless_error env status (
      if not (env.dec_write_resp pdu) && not (env.dec_exec_write_resp pdu)
      then resp_error err_decoding
      else report_written)

  -- The part behind the test of the handle.
  unfoldable pub write_arg : List Text → Bool → ℕ → World → Action
  write_arg argv with_response handle w =
      if ltb (length argv) 3
      then write_value with_response w.attrib handle 0 none
      else let (plen, value) = env.attr_data w.trace (arg argv 2) in
        if plen == 0
        then resp_error err_bad_param
        else write_value with_response w.attrib handle plen value

  unfoldable pub cmd_char_write_common : List Text → Bool → Action
  cmd_char_write_common argv with_response = when_connected λ w.
      if ltb (length argv) 2
      then resp_error err_bad_param
      else let handle = strtohandle (arg argv 1) in
        if is_negative handle || is_zero handle
        then resp_error err_bad_param
        else write_arg argv with_response (to_u16 handle) w

  unfoldable pub cmd_char_write : List Text → Action
  cmd_char_write argv = cmd_char_write_common argv false

  unfoldable pub cmd_char_write_rsp : List Text → Action
  cmd_char_write_rsp argv = cmd_char_write_common argv true
