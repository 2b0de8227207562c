-- ===== src/Connection/Closing.antt =====
-- The end of a connection, and the guard of a new one.
use bluepy.Protocol.Emits.{IsPrinted}
use bluepy.Common.Hex.Digits.{All}
use bluepy.Status.Lines.{cmd_status-line, status_fields}
use bluepy.Protocol.{rsp_status}
use bluepy.Protocol.Responses.{line}
use bluepy.Common.Int.{pos}
use bluepy.Client.Wait.{is_skipped}
use bluepy.Common.{
  [], ◌||◌, ◌==◌, Bool, append_assoc, ◌∙◌, codes, true, ◌∷◌, ◌++◌, inr, inl, Bool-cases, none, refl,
  false, Text, ◌≡◌, List,
}
use bluepy.Status.{cmd_status, set_state}
use bluepy.Connection.{
  register_all, is_disconnected, choose_mtu, attach, disconnect_io, set_up_attrib,
}
use bluepy.World.{
  printed_text-append, Outcome, ConnState, printed_text, Event, connected, Ptr, disconnected, ret,
  Env, World, steps,
}

-- When the process is not disconnected, `disconnect_io` returns in a world without channel,
-- attribute channel and MTU that is disconnected; it has given up the attribute channel, then shut
-- down and given up the channel, and it has printed the report of this state, as one line.
pub disconnect_io-closes :
    (w : World)
    → is_disconnected w.conn_state ≡ false
    → let v : World = record w {
      iochannel = none;
      attrib = none;
      opt_mtu = pos 0;
      conn_state = disconnected;
      trace =
          Event.io_unref w.iochannel
          ∷ Event.io_shutdown w.iochannel
          ∷ Event.attrib_unref w.attrib
          ∷ w.trace;
    } in
      (es : List Event) × (disconnect_io w ≡ ret tt (record v { trace = es ++ v.trace }))
      × (printed_text es ≡ line rsp_status (status_fields v))
      × All IsPrinted es
unfolding disconnect_io set_state steps
disconnect_io-closes w h = rw h (cmd_status-line _)

pub is_disconnected→disconnected : (st : ConnState) → is_disconnected st ≡ true → st ≡ disconnected
is_disconnected→disconnected disconnected h = refl
is_disconnected→disconnected _ h = cc

-- After `disconnect_io`, in whatever state it begins, the process is disconnected, and to close the
-- connection again has no effect at all.
pub disconnect_io-idempotent :
    (w : World)
    → (v : World) × (disconnect_io w ≡ ret tt v)
      × (v.conn_state ≡ disconnected)
      × (disconnect_io v ≡ ret tt v)
unfolding disconnect_io steps
disconnect_io-idempotent w = elim (Bool-cases (is_disconnected w.conn_state)) [
  | inl e ↦ (w, rw e refl, is_disconnected→disconnected w.conn_state e, rw e refl)
  | inr e ↦ let (es, eq, printed_line, only) = disconnect_io-closes w e in (_, eq, refl, refl)
]

abbrev pub has_newline : Text → Bool
has_newline [] = false
has_newline (c ∷ s) = c == 10 || has_newline s

-- The report of the state behind a text that begins a comment.
report-unseen :
    (o : Outcome (Unit {0})) (v : World) (before message : Text)
    → o ≡ cmd_status v
    → v.conn_state ≡ connected
    → printed_text v.trace ≡ before ++ (35 ∷ message)
    → (u : World) × (o ≡ ret tt u)
      × (u.conn_state ≡ connected)
      × (printed_text u.trace ≡ before ++ ((35 ∷ message) ++ line rsp_status (status_fields u)))
unfolding is_skipped
report-unseen o v before message run c text =
    let (es, eq, line_text, only) = cmd_status-line v in
    (
      record v { trace = es ++ v.trace },
      run ∙ eq,
      c,
      rw (printed_text-append es v.trace, line_text, text)
          (append_assoc before (35 ∷ message) (line rsp_status (status_fields v))),
    )

attach-unseen :
    (env : Env) (w : World)
    → (v : World) × (message : Text) × (attach env none w ≡ ret tt v)
      × (v.conn_state ≡ connected)
      × (printed_text v.trace
          ≡ printed_text w.trace ++ (message ++ line rsp_status (status_fields v)))
      × (has_newline message ≡ false)
      × (is_skipped (message ++ line rsp_status (status_fields v)) ≡ true)
unfolding attach choose_mtu register_all set_state printed_text is_skipped steps
attach-unseen env w =
    let (v, ran, c, text) =
      report-unseen _ _ (printed_text w.trace) (codes " Can't detect MTU, using default") refl refl
        refl in
    (v, codes "# Can't detect MTU, using default", ran, c, text, refl, refl)

-- When the MTU cannot be found out, the process becomes connected, and what `set_up_attrib` prints is
-- a message and behind it the report of the new state. The message has no newline, so that the report
-- does not begin a line, and the line that both make, which ends with the newline of the report, is
-- one that the client skips as a comment.
pub set_up_attrib-unseen :
    (env : Env) (io : Ptr) (w : World)
    → env.io_get w.trace io ≡ none
    → (v : World) × (message : Text) × (set_up_attrib env io w ≡ ret tt v)
      × (v.conn_state ≡ connected)
      × (printed_text v.trace
          ≡ printed_text w.trace ++ (message ++ line rsp_status (status_fields v)))
      × (has_newline message ≡ false)
      × (is_skipped (message ++ line rsp_status (status_fields v)) ≡ true)
unfolding set_up_attrib steps
set_up_attrib-unseen env io w h = rw h (attach-unseen env w)
