-- ===== src/Tests.antt =====
-- The theorems at concrete inputs.
use bluepy.Client.Lookup.{parse_resp-finds, values_of}
use bluepy.Safety.Run.{initial-Inv, serve-Inv, AreTimely}
pub mod Progress
pub mod Client
pub mod Connecting
pub mod States
pub mod Methods
pub mod Scanner
pub mod Objects
use bluepy.Mgmt.Modes.{mode_value}
use bluepy.Protocol.Wire.{sym as symbol, uint, encode, Field}
use bluepy.Att.Events.{events_handler}
use bluepy.Common.Hex.Digits.{All}
use bluepy.Status.Lines.{status_fields}
use bluepy.Client.Wait.{lookup, is_skipped}
use bluepy.Connection.Closing.{has_newline, set_up_attrib-unseen}
use bluepy.Gatt.Rows.{report_rows-line, rows_fields}
use bluepy.Mgmt.Oob.Args.{oob_args-one_pair}
use bluepy.Gatt.Exchange.{cmd_mtu-stuck}
use bluepy.Status.{status_state, set_state, cmd_status}
use bluepy.Gatt.Mtu.{cmd_mtu}
use bluepy.Common.Int.{pos, negsuc}
use bluepy.Common.Hex.{show_hex}
use bluepy.Connection.{start_connect, set_destination, cmd_connect, set_up_attrib}
use bluepy.Mgmt.Oob.{oob_args}
use bluepy.Hci.Monitor.{Advertising}
use bluepy.Protocol.{
  resp_end, send_uint, send_str, send_sym, resp_begin, err_bad_state, rsp_status, rsp_read,
  err_bad_param, resp_error, AddrInfo,
}
use bluepy.Gatt.Read.{report_rows}
use bluepy.Client.Parse.{rstrip, ok, parse_resp, Resp}
use bluepy.Protocol.Responses.{line, Prints}
use bluepy.Main.{serve, hang_up, connection, handle_pdu, initial, deliver, input, Incoming}
use bluepy.Att.Answers.{
  events_handler-reports, event_fields, handle_pdu-refuses, event_kind, Answers,
}
use bluepy.Mgmt.Notices.{DeviceFound}
use bluepy.Commands.{commands, find_command, run_words, parse_line, prompt_read, run}
use bluepy.World.{
  world_of, steps, Ptr, Handler, connected, printed_text, ret, Event, World, CharacteristicData,
  Env,
}
use bluepy.Safety.Invariant.{Holds}
use bluepy.Safety.Connection.{GivesAttrib}
use bluepy.Protocol.Emits.{IsPrinted}
use bluepy.Common.{
  ◌∙◌, ap, ◌≢◌, Option, inr, byte_at, length, refl, drop, ◌/◌, arith, ◌⊎◌, ◌%◌, false, some, ◌++◌,
  none, true, ◌≡◌, [], ◌∷◌, codes, Text, List,
}
use bluepy.Gatt.Reports.{Primary, Range, Included, Char, Desc}
use bluepy.Client.Parse.RoundTrip.{IsCleanText, IsCleanField}

-- The channel for an I/O channel.
abbrev new_attrib : Option Ptr → Option Ptr
new_attrib none = none
new_attrib (some io) = some 2

-- Libraries that succeed in everything, with the addresses of the objects that they make.
abbrev pub test_env : Env
test_env = record {
  att_ecode_str = λ n. codes "error";
  mgmt_errstr = λ n. codes "error";
  attrib_new = λ es io mtu. new_attrib io;
  io_get = λ es io. none;
  io_set_error = λ es io level. none;
  gatt_connect = λ es src dst dst_type sec psm mtu. some 1;
  attrib_buffer = λ es attrib. 23;
  attrib_set_mtu = λ es attrib mtu. true;
  enc_confirmation = λ plen. 0x1e ∷ [];
  enc_error_resp =
      λ opcode handle status plen. 0x01 ∷ opcode ∷ handle % 256 ∷ handle / 256 ∷ status ∷ [];
  enc_mtu_resp = λ mtu plen. 0x03 ∷ mtu % 256 ∷ mtu / 256 ∷ [];
  dec_mtu_req = λ pdu. some 100;
  dec_mtu_resp = λ pdu. some 100;
  dec_read_resp = λ pdu. some (drop 1 pdu);
  dec_read_by_type_resp = λ pdu. some [];
  dec_write_resp = λ pdu. true;
  dec_exec_write_resp = λ pdu. false;
  string_to_uuid = λ s. some s;
  str_to_ba = λ s. s;
  attr_data = λ es s. (length s, some (record { addr = 9; size = length s; mem = byte_at s }));
  mgmt_new = λ es. some 3;
  mgmt_send = λ es master opcode index cp. 1;
  hci_open_dev = λ es index. pos 5;
  hci_set_scan_enable = λ es dd enable filter. pos 0;
  hci_set_scan_parameters = λ es dd scan_type interval window own filter. pos 0;
  hci_get_filter = λ es dd. pos 0;
  hci_set_filter = λ es dd. pos 0;
  io_channel_new = λ es dd. 6;
  hci_read = λ es n. none;
  stack_bytes = λ es i. 0;
  read_line = λ es. some (codes "conn 00:11:22:33:44:55");
  strstrip = λ s. s;
  shell_parse_argv = λ s. some (codes "conn" ∷ codes "00:11:22:33:44:55" ∷ []);
  build = codes "bluepy-helper.c";
  scan_int = λ s. none;
}

pub test_env-GivesAttrib : GivesAttrib test_env
test_env-GivesAttrib es io mtu = λ e. cc

abbrev pub connected_world : World
connected_world = record initial {
  iochannel = some 1;
  attrib = some 2;
  opt_dst = some (codes "00:11:22:33:44:55");
  conn_state = connected;
}

-- The client connects, and the device hangs up.
abbrev pub session : List Incoming
session = input false ∷ connection 1 none ∷ hang_up 1 ∷ []

-- The client has asked for the connection that is made.
asked-iochannel :
    (v : World) → deliver test_env (input false) initial ≡ ret tt v → v.iochannel ≢ none
unfolding deliver prompt_read parse_line run_words find_command commands run cmd_connect
    set_destination start_connect set_state cmd_status status_state resp_begin send_sym send_str
    send_uint resp_end steps world_of
asked-iochannel v e =
    let asked : some 1 ≡ v.iochannel = ap (λ o. (world_of o).iochannel) e in
    λ missing. let both : some 1 ≡ none = asked ∙ missing in cc

pub session-AreTimely : AreTimely test_env session initial
session-AreTimely = (tt, λ v e q. (asked-iochannel v e, λ u f r. (tt, λ t g p. tt)))

serve-Inv_example : Holds (serve test_env session initial)
serve-Inv_example =
    serve-Inv test_env session initial test_env-GivesAttrib session-AreTimely initial-Inv

abbrev handle_field : Field
handle_field = record { tag = codes "hnd"; value = uint 0x2a }

abbrev error_field : Field
error_field = record { tag = codes "rsp"; value = symbol (codes "err") }

hnd-IsCleanText : IsCleanText (codes "hnd")
unfolding rstrip
hnd-IsCleanText = record {
  no_delim = (omega arith, (omega arith, (omega arith, tt)));
  no_equals = (omega arith, (omega arith, (omega arith, tt)));
  stripped = refl;
}

rsp-IsCleanText : IsCleanText (codes "rsp")
unfolding rstrip
rsp-IsCleanText = record {
  no_delim = (omega arith, (omega arith, (omega arith, tt)));
  no_equals = (omega arith, (omega arith, (omega arith, tt)));
  stripped = refl;
}

err-IsCleanText : IsCleanText (codes "err")
unfolding rstrip
err-IsCleanText = record {
  no_delim = (omega arith, (omega arith, (omega arith, tt)));
  no_equals = (omega arith, (omega arith, (omega arith, tt)));
  stripped = refl;
}

handle_field-IsCleanField : IsCleanField handle_field
handle_field-IsCleanField = (hnd-IsCleanText, omega arith)

error_field-IsCleanField : IsCleanField error_field
error_field-IsCleanField = (rsp-IsCleanText, err-IsCleanText)

parse_resp-finds_example :
    (resp : Resp) × (parse_resp (encode error_field (handle_field ∷ error_field ∷ []) ++ 10 ∷ [])
      ≡ ok resp)
    × ((tag : Text)
        → lookup tag resp ≡ values_of tag (error_field ∷ handle_field ∷ error_field ∷ []))
parse_resp-finds_example =
    parse_resp-finds error_field (handle_field ∷ error_field ∷ []) error_field-IsCleanField
      (handle_field-IsCleanField, (error_field-IsCleanField, tt))

cmd_mtu-stuck_example :
    (v : World) × (cmd_mtu (codes "mtu" ∷ show_hex 0x10 ∷ []) connected_world
      ≡ resp_error err_bad_param v)
    × (v.trace ≡ [])
    × (v.opt_mtu ≡ pos 0x10)
    × ((other argument : Text) → cmd_mtu (other ∷ argument ∷ []) v ≡ resp_error err_bad_state v)
cmd_mtu-stuck_example =
    cmd_mtu-stuck (codes "mtu") 0x10 connected_world refl refl (omega arith) (omega arith)

set_up_attrib-unseen_example :
    (v : World) × (message : Text) × (set_up_attrib test_env 1 initial ≡ ret tt v)
    × (v.conn_state ≡ connected)
    × (printed_text v.trace
        ≡ printed_text initial.trace ++ (message ++ line rsp_status (status_fields v)))
    × (has_newline message ≡ false)
    × (is_skipped (message ++ line rsp_status (status_fields v)) ≡ true)
set_up_attrib-unseen_example = set_up_attrib-unseen test_env 1 initial refl

abbrev char_data : CharacteristicData
char_data = record { orig_start = 1; start = 1; end = 9; uuid = [] }

report_rows-line_example :
    Prints
      (report_rows (some ((0x2a ∷ 0 ∷ 7 ∷ []) ∷ [])) char_data)
      rsp_read
      (rows_fields ((0x2a ∷ 0 ∷ 7 ∷ []) ∷ []))
report_rows-line_example = report_rows-line ((0x2a ∷ 0 ∷ 7 ∷ []) ∷ []) char_data (refl, tt)

-- An indication of the attribute 0x2a.
abbrev indication : Text
indication = 0x1d ∷ 0x2a ∷ 0 ∷ 7 ∷ []

events_handler-reports_example :
    (es : List Event) × (printed_text es ≡ line (event_kind indication) (event_fields indication))
    × All IsPrinted es
    × (let v : World = record connected_world { trace = es ++ [] } in
        Answers (0x1e ∷ []) v (events_handler test_env indication connected_world))
events_handler-reports_example =
    events_handler-reports test_env indication connected_world (inr refl) refl

handle_pdu-refuses_example :
    Answers
      (0x01 ∷ 0x0a ∷ 0x2a ∷ 0 ∷ 0x06 ∷ [])
      connected_world
      (handle_pdu test_env Handler.gatts_read_req (0x0a ∷ 0x2a ∷ 0 ∷ []) connected_world)
handle_pdu-refuses_example =
    handle_pdu-refuses test_env Handler.gatts_read_req (0x0a ∷ 0x2a ∷ 0 ∷ []) 0x2a connected_world
      refl

abbrev pub some_addr : AddrInfo
some_addr = record { bdaddr = 1 ∷ 2 ∷ 3 ∷ 4 ∷ 5 ∷ 6 ∷ []; addr_type = 1 }

abbrev pub found : DeviceFound
found = record { addr = some_addr; rssi = negsuc 41; flags = 0; eir_len = 1; eir = λ i. 7 }

abbrev advertising : Advertising
advertising = record { addr = some_addr; length = 1; rssi = 200; payload = 7 ∷ [] }

abbrev pub range : Range
range = record { start = 1; end = 9 }

abbrev included_service : Included
included_service = record { handle = 3; range = range; uuid = codes "1801" }

abbrev characteristic : Char
characteristic = record { handle = 4; properties = 2; value_handle = 5; uuid = codes "2a00" }

abbrev descriptor : Desc
descriptor = record { handle = 6; uuid = codes "2902" }

abbrev service : Primary
service = record { range = range; uuid = codes "1800" }

-- The arguments that the usage names for both pairs.
abbrev oob_argv : List Text
oob_argv =
    codes "remote_oob"
    ∷ codes "address"
    ∷ codes "public"
    ∷ codes "C_192"
    ∷ codes "00"
    ∷ codes "R_192"
    ∷ codes "11"
    ∷ codes "C_256"
    ∷ codes "22"
    ∷ codes "R_256"
    ∷ codes "33"
    ∷ []

oob_args-one_pair_example : ((oob_args oob_argv).c192 ≡ none) ⊎ ((oob_args oob_argv).c256 ≡ none)
oob_args-one_pair_example = oob_args-one_pair oob_argv

low-IsCleanText : IsCleanText (codes "low")
unfolding rstrip
low-IsCleanText = record {
  no_delim = (omega arith, (omega arith, (omega arith, tt)));
  no_equals = (omega arith, (omega arith, (omega arith, tt)));
  stripped = refl;
}

abbrev idle_world : World
idle_world = record initial { opt_sec_level = codes "low" }

comment_IsSkipped : is_skipped (codes "# hello\n") ≡ true
unfolding is_skipped
comment_IsSkipped = refl

abbrev deaf_env : Env
deaf_env = record test_env { mgmt_send = λ es master opcode index cp. 0 }

abbrev managed_world : World
managed_world = record initial { mgmt_master = some 3; mgmt_ind = 0 }

on-mode_value : mode_value (codes "on") ≡ some 1
unfolding mode_value
on-mode_value = refl
