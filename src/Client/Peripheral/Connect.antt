-- ===== src/Client/Peripheral/Connect.antt =====
-- `_connect`: the command that it writes, and its loop over the status responses.
--
-- bluepy/btle.py, lines 441 to 469, behind the tests of the arguments.
use bluepy.Client.Wait.{Waited, is_text, waiting, first_value}
use bluepy.Client.Parse.{Resp}
use bluepy.Client.Peripheral.{fetched, fetch, key_error, get_reply, failed, Fetched}
pub mod Handshake
pub mod Failure
pub mod Fuel
use bluepy.Common.{
  zero, if◌then◌else◌, some, ◌++◌, suc, none, ◌+◌, codes, Option, length, ℕ, Text, List, [], ◌∷◌,
}

-- The command, for an interface that may be given by its number as a text.
unfoldable pub connect_command : Text → Text → Option Text → Text
connect_command addr addr_type none = codes "conn " ++ addr ++ codes " " ++ addr_type ++ codes "\n"
connect_command addr addr_type (some iface) =
    codes "conn " ++ addr ++ codes " " ++ addr_type ++ codes " hci" ++ iface ++ codes "\n"

-- What is done with a status response, where `again` is what another round gives.
unfoldable pub on_state : Fetched (Unit {0}) → Resp → Fetched (Unit {0})
on_state again resp = elim (first_value (codes "state") resp) [
  | none ↦ key_error
  | some state ↦
      if is_text state (codes "tryconn")
      then again
      else if is_text state (codes "conn")
      then fetched tt
      else failed (Waited.disconnected resp)
]

-- The loop that waits for another state than that a connection is tried.
unfoldable pub connect_loop : ℕ → List Text → Fetched (Unit {0})
connect_loop zero lines = failed waiting
connect_loop (suc fuel) lines =
    let got = get_reply (codes "stat") lines in
    let again = connect_loop fuel got.left in fetch got.outcome (λ resp. on_state again resp)

-- What `_connect` makes of the lines that come behind its command. Each round takes a line at least.
unfoldable pub peripheral_connect : List Text → Fetched (Unit {0})
peripheral_connect lines = connect_loop (length lines + 1) lines
