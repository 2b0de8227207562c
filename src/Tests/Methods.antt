-- ===== src/Tests/Methods.antt =====
-- The methods of the client that reach the library, at concrete inputs.
use bluepy.Client.Talk.{mgmt_types}
use bluepy.Tests.Client.{hello-IsPassed}
use bluepy.Protocol.{rsp_discovery, rsp_status}
use bluepy.Client.Peripheral.Managed.{pair-ends, pair_reply, disconnect-closes}
use bluepy.Client.Peripheral.{fetched}
use bluepy.Gatt.Mtu.{exchange_mtu_cb}
use bluepy.Mgmt.Request.{addr_type_of}
use bluepy.Mgmt.Pairing.{pair_device_complete, io_capability_none, mgmt_op_pair_device}
use bluepy.Client.Mtu.Exchange.{set_mtu-agrees, mtu_words}
use bluepy.Client.Peripheral.Lookups.{get_service-finds, first_range, service_words}
use bluepy.Common.Int.{pos}
use bluepy.Client.Talk.Lines.{IsIgnored}
use bluepy.Common.Hex.{hex_digit, hex_loop, show_hex}
use bluepy.Client.Parse.Plain.{plain-IsCleanText}
use bluepy.Tests.{range, connected_world, test_env}
use bluepy.Commands.{parse_line}
use bluepy.Client.Peripheral.Methods.{pair, disconnect}
use bluepy.Client.Mtu.{get_mtu, lower_hex, mtu_command}
use bluepy.Client.Wait.{is_skipped, on_line}
use bluepy.Client.Peripheral.Discovery.{
  get_service, characteristic_args, service_command, characteristics_command,
}
use bluepy.Client.Peripheral.Connect.Handshake.{IsCleanStatus}
use bluepy.Gatt.Reports.{char_cb, primary_by_uuid_cb, Char}
use bluepy.Client.Peripheral.Characteristics.{
  get_characteristics-finds, found_char, char_words, IsCleanChar,
}
use bluepy.Common.{
  leb, map, true, ◌++◌, some, ◌≡◌, refl, codes, Text, none, arith, take, List, [], ◌∷◌,
}
use bluepy.World.{printed_text, ret, Event, Env, World, disconnected}

abbrev hello : List Text
hello = codes "# hello\n" ∷ []

abbrev char_env : Env
char_env = record test_env {
  strstrip = λ s. take 11 s;
  shell_parse_argv = λ s. some (codes "char" ∷ show_hex 1 ∷ show_hex 0xffff ∷ []);
}

strstrip-char : take 11 (characteristics_command 1 0xffff none) ≡ char_words 1 0xffff
unfolding characteristics_command show_hex hex_loop hex_digit
strstrip-char = refl

abbrev level : Char
level = record { handle = 2; properties = 2; value_handle = 3; uuid = codes "2a19" }

level-IsCleanChar : IsCleanChar level
level-IsCleanChar = (omega arith, omega arith, omega arith, plain-IsCleanText (codes "2a19") refl)

get_characteristics-finds_example :
    (parse_line char_env (characteristics_command 1 0xffff none) connected_world
      ≡ ret tt (record connected_world { trace = Event.discover_char (some 2) 1 0xffff none ∷ [] }))
    × (es : List Event) × (char_cb char_env 0 (level ∷ []) connected_world
        ≡ ret tt (record connected_world { trace = es ++ [] }))
    × (characteristic_args (hello ++ (printed_text es ∷ []))
        ≡ fetched (map found_char (level ∷ [])))
get_characteristics-finds_example =
    get_characteristics-finds char_env 1 0xffff connected_world connected_world level [] hello []
      refl (omega arith) (omega arith) strstrip-char refl (level-IsCleanChar, tt)
      (hello-IsPassed rsp_discovery, tt)

abbrev service_env : Env
service_env = record test_env {
  strstrip = λ s. take 9 s;
  shell_parse_argv = λ s. some (codes "svcs" ∷ codes "180f" ∷ []);
}

strstrip-service : take 9 (service_command (codes "180f")) ≡ service_words (codes "180f")
unfolding service_command
strstrip-service = refl

get_service-finds_example :
    (parse_line service_env (service_command (codes "180f")) connected_world
      ≡ ret tt (record connected_world {
        trace = Event.discover_primary (some 2) (some (codes "180f")) ∷ [];
      }))
    × (es : List Event) × (primary_by_uuid_cb service_env 0 (range ∷ []) connected_world
        ≡ ret tt (record connected_world { trace = es ++ [] }))
    × (get_service (hello ++ (printed_text es ∷ [])) ≡ fetched (first_range (range ∷ [])))
get_service-finds_example =
    get_service-finds service_env (codes "180f") (codes "180f") connected_world connected_world
      (range ∷ []) hello [] refl refl strstrip-service refl ((omega arith, omega arith), tt)
      (hello-IsPassed rsp_discovery, tt)

abbrev mtu_env : Env
mtu_env = record test_env {
  strstrip = λ s. take 6 s;
  shell_parse_argv = λ s. some (codes "mtu" ∷ lower_hex 185 ∷ []);
  attrib_set_mtu = λ es attrib mtu. leb 23 mtu;
}

strstrip-mtu : take 6 (mtu_command 185) ≡ mtu_words 185
unfolding mtu_command lower_hex show_hex hex_loop hex_digit
strstrip-mtu = refl

abbrev asked_world : World
asked_world = record connected_world { opt_mtu = pos 185 }

asked-IsCleanStatus : IsCleanStatus asked_world
asked-IsCleanStatus =
    (plain-IsCleanText (codes "00:11:22:33:44:55") refl, plain-IsCleanText [] refl)

set_mtu-agrees_example :
    (parse_line mtu_env (mtu_command 185) connected_world
      ≡ ret tt (record connected_world {
        opt_mtu = pos 185;
        trace = Event.exchange_mtu (some 2) 185 ∷ [];
      }))
    × (es : List Event) × (exchange_mtu_cb mtu_env 0 (0x03 ∷ 100 ∷ 0 ∷ []) asked_world
        ≡ ret tt (record asked_world {
          opt_mtu = pos 100;
          trace = es ++ Event.attrib_set_mtu (some 2) 100 ∷ [];
        }))
    × (get_mtu rsp_status (hello ++ (printed_text es ∷ [])) (pos 0) ≡ pos 100)
set_mtu-agrees_example =
    set_mtu-agrees mtu_env 185 100 connected_world asked_world (0x03 ∷ 100 ∷ 0 ∷ []) hello []
      (pos 0) refl refl (omega arith) (omega arith) strstrip-mtu refl refl (omega arith) refl
      (λ es m low below. ground arith) asked-IsCleanStatus (hello-IsPassed rsp_status, tt)

abbrev pair_env : Env
pair_env = record test_env { strstrip = λ s. take 4 s; shell_parse_argv = λ s. some (s ∷ []) }

abbrev managed_world : World
managed_world = record connected_world { mgmt_master = some 3 }

hello-IsIgnored : (types : List Text) → IsIgnored types (codes "# hello\n")
unfolding on_line is_skipped
hello-IsIgnored types = refl

pair-ends_example :
    (parse_line pair_env (codes "pair\n") managed_world
      ≡ ret tt (record managed_world {
        trace =
            Event.mgmt_send 3 mgmt_op_pair_device 0xffff
              (codes "00:11:22:33:44:55" ++ addr_type_of [] ∷ io_capability_none ∷ [])
            ∷ [];
      }))
    × (es : List Event) × (pair_device_complete pair_env 5 managed_world
        ≡ ret tt (record managed_world { trace = es ++ [] }))
    × (pair (hello ++ (printed_text es ∷ [])) ≡ pair_reply pair_env 5 [])
pair-ends_example =
    pair-ends pair_env 3 (codes "00:11:22:33:44:55") 5 managed_world managed_world hello [] refl
      refl refl refl refl refl (omega arith) (plain-IsCleanText (codes "error") refl)
      (hello-IsIgnored mgmt_types, tt)

connected-IsCleanStatus : IsCleanStatus connected_world
connected-IsCleanStatus =
    (plain-IsCleanText (codes "00:11:22:33:44:55") refl, plain-IsCleanText [] refl)

disconnect-closes_example :
    (v : World) × (es : List Event) × (parse_line pair_env (codes "disc\n") connected_world
      ≡ ret tt (record v { trace = es ++ v.trace }))
    × (v.conn_state ≡ disconnected)
    × (v.attrib ≡ none)
    × (v.iochannel ≡ none)
    × (disconnect true (hello ++ (printed_text es ∷ [])) ≡ record {
      outcome = fetched tt;
      written = codes "disc\n" ∷ codes "quit\n" ∷ [];
      left = [];
    })
disconnect-closes_example =
    disconnect-closes pair_env connected_world hello [] refl refl refl connected-IsCleanStatus
      (hello-IsPassed rsp_status, tt)
