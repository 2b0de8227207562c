-- ===== src/Client/Peripheral/Connect/Failure.antt =====
-- A connection that fails, from the command of the client to its error.
use bluepy.Connection.Opening.{failure_text, connect_cb-fails, cmd_connect-tries, trying}
use bluepy.Connection.{connect_cb}
use bluepy.Commands.{parse_line}
use bluepy.Client.Parse.RoundTrip.{IsCleanText}
use bluepy.Common.Int.{pos}
use bluepy.Protocol.Responses.{line}
use bluepy.Client.Peripheral.Queue.{IsPassed}
use bluepy.Status.Lines.{status_fields}
use bluepy.Common.Hex.Digits.{All}
use bluepy.Protocol.{rsp_status}
use bluepy.Client.Peripheral.Connect.Handshake.{
  second_report, parse_line-connect, state-value, connect_words,
}
use bluepy.Client.Peripheral.Lines.{resp_of}
use bluepy.Client.Peripheral.{failed, Fetched}
use bluepy.Client.Peripheral.Connect.{connect_command, on_state, peripheral_connect}
use bluepy.World.{printed_text, ret, Event, disconnected, Ptr, World, Env}
use bluepy.Client.Wait.{Waited}
use bluepy.Common.{refl, ◌∙◌, codes, some, ◌++◌, none, ◌≡◌, List, Text, [], ◌∷◌}

on_state-disc :
    (w : World) (again : Fetched (Unit {0}))
    → w.conn_state ≡ disconnected
    → on_state again (resp_of rsp_status (status_fields w))
      ≡ failed (Waited.disconnected (resp_of rsp_status (status_fields w)))
unfolding on_state
on_state-disc w again c = rw (on_state, state-value w disconnected c)

-- Failing to connect, from end to end. The helper is disconnected, the library's `strstrip` and its
-- splitting into words do to the command of the client what they are for, the library starts the
-- connection, and the address and the security level are texts that the protocol can carry. Then the
-- command returns with one text printed; the callback of the library with an error, whatever its
-- message, returns, disconnected, and prints a text and more behind it; and of the two texts, each
-- behind any lines that are passed over, the client makes the error that the device is disconnected,
-- with the fields of the second.
pub peripheral_connect-fails :
    (env : Env) (addr addr_type message : Text) (io : Ptr) (w : World)
    (first second after : List Text)
    → w.conn_state ≡ disconnected
    → env.strstrip (connect_command addr addr_type none) ≡ connect_words addr addr_type
    → env.shell_parse_argv (connect_words addr addr_type)
      ≡ some (codes "conn" ∷ addr ∷ addr_type ∷ [])
    → ((es : List Event)
        → env.gatt_connect es none addr addr_type w.opt_sec_level (pos 0) w.opt_mtu ≡ some io)
    → IsCleanText addr
    → IsCleanText w.opt_sec_level
    → All (IsPassed (rsp_status ∷ [])) first
    → All (IsPassed (rsp_status ∷ [])) second
    → (v u : World) × (s t more : Text) × (parse_line env (connect_command addr addr_type none) w
        ≡ ret tt v)
      × (connect_cb env io (some message) v ≡ ret tt u)
      × (u.conn_state ≡ disconnected)
      × (printed_text v.trace ≡ printed_text w.trace ++ s)
      × (printed_text u.trace ≡ printed_text v.trace ++ (t ++ more))
      × (peripheral_connect (first ++ (s ∷ (second ++ (t ∷ after))))
          ≡ failed (Waited.disconnected (resp_of rsp_status (status_fields u))))
peripheral_connect-fails env addr addr_type message io w first second after c strip words dials
      clean sec p q =
    let tried = trying addr addr_type w in
    let (tr, (run, shown)) = cmd_connect-tries env (codes "conn") addr addr_type io w c dials in
    let v : World = record tried { iochannel = some io; trace = tr } in
    let (tr', (run_cb, shown_cb)) = connect_cb-fails env io message v in
    let u : World = record v { conn_state = disconnected; trace = tr' } in
    let (k, ends) = second_report tried u first second after refl (clean, sec) (clean, sec) p q in
    (
      v,
      u,
      line rsp_status (status_fields tried),
      line rsp_status (status_fields u),
      failure_text message,
      parse_line-connect env addr addr_type w strip words ∙ run,
      run_cb,
      refl,
      shown,
      shown_cb,
      ends ∙ on_state-disc u _ refl,
    )
