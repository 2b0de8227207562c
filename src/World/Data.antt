-- ===== src/World/Data.antt =====
-- Global variables, library calls and what they return.
use bluepy.Common.{ℕ, Bool, Option, List, Text}
use bluepy.Common.Int.{ℤ}

-- `enum state`
pub data ConnState : Type 0 where
  disconnected connecting connected scanning : ConnState

-- `BtIOSecLevel`, the three levels that the program names
pub data SecLevel : Type 0 where
  low medium high : SecLevel

-- A non-NULL pointer to a library object.
abbrev pub Ptr : Type 0
Ptr = ℕ

-- The bytes of a `bt_uuid_t`.
abbrev pub Uuid : Type 0
Uuid = Text

-- `struct characteristic_data`
pub record CharacteristicData : Type 0 where
  pub orig_start : ℕ
  pub start : ℕ
  pub end : ℕ
  pub uuid : Uuid

-- The handlers that `connect_cb` registers.
pub data Handler : Type 0 where
  events_handler gatts_find_info_req gatts_find_by_type_req gatts_read_by_type_req : Handler
  gatts_read_req gatts_read_blob_req gatts_read_multi_req gatts_read_by_group_req : Handler
  gatts_write_req gatts_write_cmd gatts_signed_write_cmd gatts_prep_write_req : Handler
  gatts_exec_write_req gatts_mtu_req : Handler

-- The memory that `gatt_attr_data_from_string` hands out: its address, how many bytes it has, and
-- the bytes from there on.
pub record Buffer : Type 0 where
  pub addr : Ptr
  pub size : ℕ
  pub mem : ℕ → ℕ

-- One print, or one call of a library with its arguments.
pub data Event : Type 0 where
  printed : Text → Event
  gatt_connect : Option Text → Text → Text → Text → ℤ → ℤ → Event
  io_add_watch : Ptr → Event
  io_shutdown : Option Ptr → Event
  io_unref : Option Ptr → Event
  io_set_sec_level : Option Ptr → SecLevel → Event
  attrib_new : Option Ptr → ℕ → Event
  attrib_register : Option Ptr → ℕ → Handler → Event
  attrib_unref : Option Ptr → Event
  attrib_send : Option Ptr → Text → Event
  attrib_set_mtu : Option Ptr → ℕ → Event
  discover_primary : Option Ptr → Option Uuid → Event
  find_included : Option Ptr → ℕ → ℕ → Event
  discover_char : Option Ptr → ℕ → ℕ → Option Uuid → Event
  discover_desc : Option Ptr → ℕ → ℕ → Event
  read_char : Option Ptr → ℕ → Event
  read_char_by_uuid : Option Ptr → ℕ → ℕ → CharacteristicData → Event
  write_char : Option Ptr → ℕ → Text → Event
  write_cmd : Option Ptr → ℕ → Text → Event
  exchange_mtu : Option Ptr → ℕ → Event
  free : Option Ptr → Event
  free_char_data : Event
  mgmt_new : Event
  mgmt_send : Ptr → ℕ → ℕ → Text → Event
  mgmt_register : Ptr → ℕ → ℕ → Event
  mgmt_unregister_index : Option Ptr → ℕ → Event
  mgmt_cancel_index : Option Ptr → ℕ → Event
  mgmt_unref : Option Ptr → Event
  hci_open_dev : ℕ → Event
  hci_set_scan_enable : ℤ → ℕ → ℕ → Event
  hci_set_scan_parameters : ℤ → ℕ → ℕ → ℕ → ℕ → ℕ → Event
  hci_watch : ℤ → Event
  hci_get_filter : ℤ → Event
  hci_set_filter : ℤ → Option (List ℕ × List ℕ) → Event
  hci_close_dev : ℤ → Event
  hci_read : ℕ → Event
  main_loop_quit : Event
  read_line : Event
  exit_failure : Event

-- What the libraries return. Each field takes the trace of what happened before the call.
pub record Env : Type 0 where
  -- att_ecode2str, mgmt_errstr
  pub att_ecode_str : ℕ → Text
  pub mgmt_errstr : ℕ → Text
  -- g_attrib_new, and bt_io_get of the MTU and the channel identifier (none: it set an error)
  pub attrib_new : List Event → Option Ptr → ℕ → Option Ptr
  pub io_get : List Event → Ptr → Option (ℕ × ℕ)
  -- the error message of a bt_io_set that fails
  pub io_set_error : List Event → Option Ptr → SecLevel → Option Text
  pub gatt_connect : List Event → Option Text → Text → Text → Text → ℤ → ℤ → Option Ptr
  -- g_attrib_get_buffer: the length of the buffer
  pub attrib_buffer : List Event → Option Ptr → ℕ
  pub attrib_set_mtu : List Event → Option Ptr → ℕ → Bool
  -- the PDU that an encoder writes into a buffer of the length given: empty if it returns 0
  pub enc_confirmation : ℕ → Text
  pub enc_error_resp : ℕ → ℕ → ℕ → ℕ → Text
  pub enc_mtu_resp : ℕ → ℕ → Text
  -- the decoders: none where they report failure
  pub dec_mtu_req : Text → Option ℕ
  pub dec_mtu_resp : Text → Option ℕ
  pub dec_read_resp : Text → Option Text
  pub dec_read_by_type_resp : Text → Option (List Text)
  pub dec_write_resp : Text → Bool
  pub dec_exec_write_resp : Text → Bool
  -- bt_string_to_uuid and str2ba: none where they report failure, or on a NULL string
  pub string_to_uuid : Text → Option Uuid
  pub str_to_ba : Option Text → Option Text
  -- gatt_attr_data_from_string: the length it returns and what it leaves in the pointer
  pub attr_data : List Event → Text → ℕ × Option Buffer
  -- mgmt_new_default, mgmt_send (the request's number, 0 on failure)
  pub mgmt_new : List Event → Option Ptr
  pub mgmt_send : List Event → Ptr → ℕ → ℕ → Text → ℕ
  -- hci_open_dev, hci_le_set_scan_enable, hci_le_set_scan_parameters, getsockopt, setsockopt
  pub hci_open_dev : List Event → ℕ → ℤ
  pub hci_set_scan_enable : List Event → ℤ → ℕ → ℕ → ℤ
  pub hci_set_scan_parameters : List Event → ℤ → ℕ → ℕ → ℕ → ℕ → ℕ → ℤ
  pub hci_get_filter : List Event → ℤ → ℤ
  pub hci_set_filter : List Event → ℤ → ℤ
  -- g_io_channel_unix_new
  pub io_channel_new : List Event → ℤ → Ptr
  -- g_io_channel_read_chars for that many bytes: those read, none unless G_IO_STATUS_NORMAL
  pub hci_read : List Event → ℕ → Option Text
  -- the bytes of a buffer on the stack before anything is written to it
  pub stack_bytes : List Event → ℕ → ℕ
  -- g_io_channel_read_line: none unless it is normal and gives a line
  pub read_line : List Event → Option Text
  -- g_strstrip, g_shell_parse_argv
  pub strstrip : Text → Text
  pub shell_parse_argv : Text → Option (List Text)
  -- the file, version and time of the build in the first line printed
  pub build : Text
  -- sscanf with "%i"
  pub scan_int : Text → Option ℤ

-- The global variables, the main loop's flag, and the trace.
pub record World : Type 0 where
  pub iochannel : Option Ptr
  pub attrib : Option Ptr
  pub quitting : Bool
  pub opt_src : Option Text
  pub opt_dst : Option Text
  pub opt_dst_type : Text
  pub opt_sec_level : Text
  pub opt_mtu : ℤ
  pub start : ℤ
  pub end : ℤ
  pub mgmt_ind : ℕ
  pub mgmt_master : Option Ptr
  pub hci_dd : ℤ
  pub hci_io : Option Ptr
  pub conn_state : ConnState
  pub trace : List Event
