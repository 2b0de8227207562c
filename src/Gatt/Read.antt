-- ===== src/Gatt/Read.antt =====
-- Reading values, by handle and by UUID.
--
-- bluepy/bluepy-helper.c, lines 736 to 802 and 1003 to 1068.
use bluepy.Common.{
  ℕ, ◌+◌, ◌%◌, not, ◌&&◌, Option, none, some, List, [], ◌∷◌, Text, codes, length, drop, arg, ◌==◌,
  ltb, leb, if◌then◌else◌,
}
use bluepy.Common.Int.{pos, is_negative, to_u16}
use bluepy.World.{
  on_option, Env, World, Event, CharacteristicData, M, Action, pure, call, print, require, ◌>>=◌,
  ◌>>◌,
}
use bluepy.Protocol.{
  resp_begin, resp_end, resp_error, resp_att_error, send_uint, send_data, rsp_read, tag_handle,
  err_decoding, err_bad_param,
}
use bluepy.Att.Events.{get_le16}
use bluepy.Gatt.Handle.{strtohandle}
use bluepy.Gatt.Reports.{unless_error}
use bluepy.Gatt.Discovery.{when_connected, handle_arg}

abbrev pub att_ecode_attr_not_found : ℕ
att_ecode_attr_not_found = 0x0a

unfoldable pub report_value : Text → Action
report_value value = do resp_begin rsp_read; send_data value; resp_end

-- The loop over `list->data`; each row has the bytes of a handle and of a value.
unfoldable pub send_rows : List Text → CharacteristicData → M CharacteristicData
send_rows [] char_data = pure char_data
send_rows (value ∷ rows) char_data = do
  require (leb 2 (length value))
  let handle = get_le16 value 0
  send_uint tag_handle handle
  send_data (drop 2 value)
  send_rows rows (record char_data { start = (handle + 1) % 65536 })

unfoldable pub report_rows : Option (List Text) → CharacteristicData → Action
report_rows none char_data = do resp_begin rsp_read; resp_end
report_rows (some rows) char_data = do
  resp_begin rsp_read
  char_data' ← send_rows rows char_data
  resp_end

unfoldable pub cmd_read_hnd : List Text → Action
cmd_read_hnd argv = when_connected λ w.
    if ltb (length argv) 2
    then resp_error err_bad_param
    else let handle = strtohandle (arg argv 1) in
      if is_negative handle
      then resp_error err_bad_param
      else call (Event.read_char w.attrib (to_u16 handle))

module _ (env : Env) where
  unfoldable pub char_read_cb : ℕ → Text → Action
  char_read_cb status pdu =
      unless_error env status
        (on_option (env.dec_read_resp pdu) (resp_error err_decoding) (λ value. report_value value))

  unfoldable pub char_read_by_uuid_cb : ℕ → Text → CharacteristicData → Action
  char_read_by_uuid_cb status pdu char_data = do
    if status == att_ecode_attr_not_found && not (char_data.start == char_data.orig_start)
        then print (codes "# TODO case in char_read_by_uuid_cb\n")
        else if status == 0
        then report_rows (env.dec_read_by_type_resp pdu) char_data
        else resp_att_error env status
    call Event.free_char_data

  -- The part of `cmd_read_uuid` behind the tests of the state and of the UUID.
  unfoldable pub read_uuid_range : List Text → Text → World → Action
  read_uuid_range argv uuid w =
      let start = handle_arg argv 2 (pos 0x0001) in
      let end = handle_arg argv 3 (pos 0xffff) in
      if is_negative start
      then resp_error err_bad_param
      else if is_negative end
      then resp_error err_bad_param
      else call (
          Event.read_char_by_uuid w.attrib (to_u16 start) (to_u16 end) (record {
            orig_start = to_u16 start;
            start = to_u16 start;
            end = to_u16 end;
            uuid = uuid;
          }))

  unfoldable pub cmd_read_uuid : List Text → Action
  cmd_read_uuid argv = when_connected λ w.
      if ltb (length argv) 2
      then resp_error err_bad_param
      else on_option (env.string_to_uuid (arg argv 1)) (resp_error err_bad_param)
          (λ uuid. read_uuid_range argv uuid w)
