-- ===== src/Lib.antt =====
-- Verification of the bluepy helper process and of the client that reads what it prints.
--
-- bluepy drives Bluetooth LE through a helper process, bluepy/bluepy-helper.c. The client,
-- bluepy/btle.py, writes one command per line to it and reads one response per line. The helper is
-- an event loop of GLib: input lines, callbacks of the GATT library, notices of the management
-- interface and packets of an HCI socket each call a function, which changes the helper's global
-- variables, calls libraries and prints. BlueZ and GLib are libraries here: a call of theirs is an
-- event in a trace, and its result is a parameter, a field of `Env`, that may depend on the trace
-- before the call.
--
--   World       the globals as a record with the trace, library calls, and C statements as
--               functions on the world; a run returns, ends at a failed assert, or is undefined
--   Protocol    tags and response types, the resp_ and send_ functions, and what they print as
--               fields of the wire format (Protocol/Wire, Protocol/Emits, Protocol/Responses)
--   Status      cmd_status and set_state
--   Connection  connect_cb, disconnect_io, channel_watcher, cmd_connect, cmd_disconnect, cmd_exit
--   Att         events_handler, and the gatts_ handlers of the peer's requests
--   Gatt        strtohandle, discovery, reading, writing, security level and MTU
--   Mgmt        modes, pairing, scanning, out-of-band data, and notices of the controller
--   Hci         the passive scan: discover and hci_monitor_cb
--   Commands    the table of commands, cmd_help, parse_line, prompt_read
--   Main        initial values, the callbacks as a type, the event loop and main
--   Client      BluepyHelper.parseResp (Client/Parse), the loop of BluepyHelper._waitResp
--               (Client/Wait), methods that write commands and wait for what answers them
--               (Client/Talk), the methods of Peripheral (Client/Peripheral and below) with its MTU
--               (Client/Mtu), UUID (Client/Uuid), Service, Characteristic, Descriptor and the
--               dictionary of services (Client/Objects and below), ScanEntry (Client/Scan and below),
--               and Scanner with its start, process and stop (Client/Scanner and below)
--   States      the life of the connection as a relation on the helper's worlds: which callback may
--               make which change of the state, and what has been printed by then
--   Safety      the invariant of the event loop, kept by every function above
--   Progress    every function returns, and what a command or a callback answers
--   Tests       the theorems at concrete inputs
--
-- Definitions have the names of the C functions. A function that the source writes as one block is
-- split where an early return or a repeated block makes a part of it a unit. Numbers are natural
-- numbers with the conversions to int, uint16_t and uint8_t written out, texts are lists of bytes.
-- The event loop takes the list of callbacks that happen, in any order and with any arguments, and
-- recursion is on that list, on the rows of a table or on a text, so that the
-- helper needs no fuel. In the client, the loops of _getResp and _connect have one unit of fuel more
-- than there are lines, the loop of _update as many as there are bytes, and so has the one that cuts
-- a value in pieces of a size that is not 0; this is enough, as each round takes a line or a byte at
-- least. The time that Scanner.process is given is the number of its rounds, which a statement on it
-- bounds from below. A wait of the client that finds no more lines is a result of its own. Of the
-- memory, what the code relies on without a test is modelled: a NULL reply that is dereferenced, a
-- row that is too short, the buffer of hci_monitor_cb, and in add_remote_oob_data the copies of 16
-- bytes and a pointer that is freed twice or without being set. In a comparison of a fixed number of
-- bytes with an argument the argument ends with its NUL, which matches no byte of the constant.
--
-- Not modelled: log messages and functions that only log, freeing of strings that the process owns,
-- the client's process handle and the thread that reads its output, the texts in which its objects
-- are shown, the common names of UUIDs, which the build generates, the state of an object behind an
-- exception, the other Python files, and bluez-5.47, which is a copy of another project.
pub mod Common
pub mod World
pub mod Protocol
pub mod Status
pub mod Att
pub mod Connection
pub mod Gatt
pub mod Mgmt
pub mod Hci
pub mod Commands
pub mod Main
pub mod Client
pub mod States
pub mod Safety
pub mod Progress
pub mod Tests
