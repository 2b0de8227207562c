-- ===== src/Tests/Client.antt =====
-- The theorems on the client, at concrete inputs.
use bluepy.Client.Scanner.Devices.{IsReport}
use bluepy.Client.Scanner.Reports.{on_scan-flags, KeepsType}
use bluepy.Client.Scan.{update_data}
use bluepy.Client.Scan.Dictionary.{update_data-learns, any_news, known_of, learn_all}
use bluepy.Client.Scan.Values.{get_item}
use bluepy.Client.Peripheral.Lines.{resp_of}
use bluepy.Client.Peripheral.Writing.{write_characteristic-writes, write_words}
use bluepy.Gatt.Write.{char_write_req_cb}
use bluepy.Mgmt.Notices.{device_found_size, mgmt_device_found}
use bluepy.Main.{initial}
use bluepy.Client.Scanner.{Discovery, ScannedDevices, find_device, on_scan, lower_digit, b2a_hex}
use bluepy.Client.Parse.{ok, parse_resp, Resp, PyValue}
use bluepy.Protocol.{rsp_write, rsp_read, rsp_discovery}
use bluepy.Gatt.Read.{char_read_cb}
use bluepy.Client.Peripheral.Values.{read_characteristic-reads, read_words}
use bluepy.Client.Peripheral.Queue.{IsPassed}
use bluepy.Common.Hex.{hex_digit, hex_loop, show_hex}
use bluepy.Tests.{found, connected_world, test_env}
use bluepy.Client.Scan.Structures.{lay_out}
use bluepy.Client.Wait.{is_skipped, on_line}
use bluepy.Client.Peripheral.{
  write_characteristic, write_command, fetched, key_error, read_characteristic, service_args,
  read_command,
}
use bluepy.World.{scanning, World, printed_text, ret, Event, Env}
use bluepy.Commands.{parse_line}
use bluepy.Client.Peripheral.Services.{discover_services-empty}
use bluepy.Gatt.Reports.{primary_all_cb}
use bluepy.Common.{
  ◌+◌, true, ◌||◌, refl, inl, some, take, Text, ◌≡◌, codes, arith, ◌++◌, false, ℕ, List, [], ◌∷◌,
}

-- Libraries that give the words of one command, without its newline.
abbrev words_env : Env
words_env = record test_env {
  strstrip = λ s. take 5 s;
  shell_parse_argv = λ s. some (codes "rd" ∷ show_hex 0x2a ∷ []);
}

strstrip-read : take 5 (read_command 0x2a) ≡ read_words 0x2a
unfolding read_command show_hex hex_loop hex_digit
strstrip-read = refl

pub hello-IsPassed : (kind : Text) → IsPassed (kind ∷ []) (codes "# hello\n")
unfolding on_line is_skipped
hello-IsPassed kind = inl refl

read_characteristic-reads_example :
    (parse_line words_env (read_command 0x2a) connected_world
      ≡ ret tt (record connected_world { trace = Event.read_char (some 2) 0x2a ∷ [] }))
    × (es : List Event) × (char_read_cb words_env 0 (0x0b ∷ 7 ∷ []) connected_world
        ≡ ret tt (record connected_world { trace = es ++ [] }))
    × (read_characteristic ((codes "# hello\n" ∷ []) ++ (printed_text es ∷ []))
        ≡ fetched (PyValue.bytes (7 ∷ [])))
read_characteristic-reads_example =
    read_characteristic-reads words_env 0x2a connected_world connected_world (0x0b ∷ 7 ∷ [])
      (7 ∷ []) (codes "# hello\n" ∷ []) [] refl (omega arith) strstrip-read refl refl
      (omega arith, tt) (hello-IsPassed rsp_read, tt)

discover_services-empty_example :
    (es : List Event) × (primary_all_cb test_env 0 [] connected_world
      ≡ ret tt (record connected_world { trace = es ++ [] }))
    × (service_args ((codes "# hello\n" ∷ []) ++ (printed_text es ∷ [])) ≡ key_error)
discover_services-empty_example =
    discover_services-empty test_env connected_world (codes "# hello\n" ∷ []) []
      (hello-IsPassed rsp_discovery, tt)

-- Flags and a name, as a device advertises them.
abbrev advert : List (ℕ × Text)
advert = (1, 6 ∷ []) ∷ (9, codes "tag") ∷ []

update_data-learns_example :
    (let taken = update_data 8 (lay_out advert ++ 0 ∷ []) [] false in
      ((sdid : ℕ) → get_item sdid taken.0 ≡ learn_all advert (known_of []) sdid)
      × (taken.1 ≡ (any_news advert (known_of []) || false)))
update_data-learns_example =
    update_data-learns 8 advert (0 ∷ []) [] false (omega arith) (omega arith)

-- Libraries that give the words of a command to write.
abbrev write_env : Env
write_env = record test_env {
  strstrip = λ s. take 9 s;
  shell_parse_argv = λ s. some (codes "wrr" ∷ show_hex 0x2a ∷ b2a_hex (7 ∷ []) ∷ []);
  attr_data = λ es s. (1, some (record { addr = 9; size = 16; mem = λ i. 7 }));
}

strstrip-write : take 9 (write_command true 0x2a (7 ∷ [])) ≡ write_words 0x2a (7 ∷ [])
unfolding write_command show_hex hex_loop hex_digit b2a_hex lower_digit
strstrip-write = refl

write_characteristic-writes_example :
    (parse_line write_env (write_command true 0x2a (7 ∷ [])) connected_world
      ≡ ret tt (record connected_world {
        trace = Event.free (some 9) ∷ Event.write_char (some 2) 0x2a (7 ∷ []) ∷ [];
      }))
    × (es : List Event) × (char_write_req_cb write_env 0 (0x13 ∷ []) connected_world
        ≡ ret tt (record connected_world { trace = es ++ [] }))
    × (write_characteristic ((codes "# hello\n" ∷ []) ++ (printed_text es ∷ []))
        ≡ fetched (resp_of rsp_write []))
write_characteristic-writes_example =
    write_characteristic-writes write_env 0x2a connected_world connected_world
      (record { addr = 9; size = 16; mem = λ i. 7 }) (0x13 ∷ []) (7 ∷ []) (codes "# hello\n" ∷ [])
      [] refl (omega arith) (omega arith) strstrip-write refl refl refl (omega arith) refl
      (hello-IsPassed rsp_write, tt)

abbrev scanning_world : World
scanning_world = record initial { conn_state = scanning }

pub found-IsReport : IsReport found
found-IsReport = record {
  strength = (41, refl, omega arith);
  address =
      (omega arith, (omega arith, (omega arith, (omega arith, (omega arith, (omega arith, tt))))));
  address_type = omega arith;
  some_flags = omega arith;
  eir_bytes = (omega arith, tt);
}

unknown-KeepsType : KeepsType found []
unfolding find_device
unknown-KeepsType = refl

on_scan-flags_example :
    (es : List Event) × (resp : Resp) × (now : ScannedDevices) × (told : Discovery)
    × (mgmt_device_found (device_found_size + 1) found scanning_world
        ≡ ret tt (record scanning_world { trace = es ++ [] }))
    × (parse_resp (printed_text es) ≡ ok resp)
    × (on_scan resp [] ≡ some (now, told))
    × (told.dev.connectable ≡ true)
on_scan-flags_example =
    on_scan-flags found scanning_world [] found-IsReport refl unknown-KeepsType (omega arith)
