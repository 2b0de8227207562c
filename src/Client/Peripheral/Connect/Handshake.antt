-- ===== src/Client/Peripheral/Connect/Handshake.antt =====
-- A connection that is made, from the command of the client to its return.
use bluepy.Connection.Opening.{connect_cb-Connects, cmd_connect-tries, trying}
use bluepy.Connection.{connect_cb, cmd_connect}
use bluepy.Commands.{commands, find_command, run, run_words, parse_line}
use bluepy.Protocol.Responses.{line}
use bluepy.Common.Int.{pos, to_u32-bound}
use bluepy.Client.Parse.Plain.{plain-IsCleanText}
use bluepy.Client.Peripheral.Lines.{reply-line, left-line, resp_of}
use bluepy.Protocol.{rsp_status}
use bluepy.Status.Lines.{state_fields, status_fields}
use bluepy.Client.Peripheral.Queue.{IsPassed}
use bluepy.Status.{c_string}
use bluepy.Client.Parse.{text, add_value}
use bluepy.Common.Hex.Digits.{All-append, All}
use bluepy.Client.Peripheral.{reply, fetched, get_reply, Fetched}
use bluepy.Client.Parse.RoundTrip.{IsCleanField, IsCleanText}
use bluepy.Client.Peripheral.Connect.{peripheral_connect, connect_command, connect_loop, on_state}
use bluepy.Client.Wait.{response, lookup, first_value}
use bluepy.World.{
  printed_text, ret, Event, on_option, Ptr, Env, scanning, disconnected, connecting, connected,
  World, ConnState,
}
use bluepy.Common.{
  ap, length-append, none, arith, ◌+◌, length, ◌∙◌, suc, refl, some, ◌++◌, ◌≡◌, codes, Option, Text,
  ℕ, List, [], ◌∷◌,
}

-- The settings that a status report shows can be carried by the protocol.
abbrev pub IsCleanStatus : World → Type 0
IsCleanStatus w = IsCleanText (c_string w.opt_dst) × IsCleanText w.opt_sec_level

state-IsCleanField :
    (st : ConnState) (dst : Option Text)
    → IsCleanText (c_string dst)
    → All IsCleanField (state_fields st dst)
state-IsCleanField disconnected dst h =
    ((plain-IsCleanText (codes "state") refl, plain-IsCleanText (codes "disc") refl), tt)
state-IsCleanField connecting dst h = (
  (plain-IsCleanText (codes "state") refl, plain-IsCleanText (codes "tryconn") refl),
  ((plain-IsCleanText (codes "dst") refl, h), tt),
)
state-IsCleanField connected dst h = (
  (plain-IsCleanText (codes "state") refl, plain-IsCleanText (codes "conn") refl),
  ((plain-IsCleanText (codes "dst") refl, h), tt),
)
state-IsCleanField scanning dst h = (
  (plain-IsCleanText (codes "state") refl, plain-IsCleanText (codes "scan") refl),
  ((plain-IsCleanText (codes "dst") refl, h), tt),
)

pub status-IsCleanField : (w : World) → IsCleanStatus w → All IsCleanField (status_fields w)
status-IsCleanField w h =
    All-append IsCleanField (state_fields w.conn_state w.opt_dst) _ (state-IsCleanField _ _ h.0) (
      (plain-IsCleanText (codes "mtu") refl, to_u32-bound w.opt_mtu),
      ((plain-IsCleanText (codes "sec") refl, h.1), tt),
    )

-- The word for the state in a status report.
abbrev pub state_word : ConnState → Text
state_word disconnected = codes "disc"
state_word connecting = codes "tryconn"
state_word connected = codes "conn"
state_word scanning = codes "scan"

pub state-value :
    (w : World) (st : ConnState)
    → w.conn_state ≡ st
    → first_value (codes "state") (resp_of rsp_status (status_fields w))
      ≡ some (text (state_word st))
unfolding first_value lookup add_value
state-value w disconnected c = rw c refl
state-value w connecting c = rw c refl
state-value w connected c = rw c refl
state-value w scanning c = rw c refl

-- One round of the loop, on a status report of the helper.
module _ (w : World) (before after : List Text) (clean : IsCleanStatus w)
    (passed : All (IsPassed (rsp_status ∷ [])) before) where
  report_outcome :
      reply rsp_status (before ++ (line rsp_status (status_fields w) ∷ after))
      ≡ response (resp_of rsp_status (status_fields w))
  report_outcome =
      reply-line rsp_status (status_fields w) before after (plain-IsCleanText rsp_status refl) refl
        (status-IsCleanField w clean) passed

  report_left :
      (get_reply rsp_status (before ++ (line rsp_status (status_fields w) ∷ after))).left ≡ after
  report_left =
      left-line rsp_status (status_fields w) before after (plain-IsCleanText rsp_status refl) refl
        (status-IsCleanField w clean) passed

  connect_loop-round :
      (fuel : ℕ)
      → connect_loop (suc fuel) (before ++ (line rsp_status (status_fields w) ∷ after))
        ≡ on_state (connect_loop fuel after) (resp_of rsp_status (status_fields w))
  unfolding connect_loop
  connect_loop-round fuel = rw (connect_loop, report_outcome, report_left)

on_state-tryconn :
    (w : World) (again : Fetched (Unit {0}))
    → w.conn_state ≡ connecting
    → on_state again (resp_of rsp_status (status_fields w)) ≡ again
unfolding on_state
on_state-tryconn w again c = rw (on_state, state-value w connecting c)

-- The text of `connect_command` without its newline.
abbrev pub connect_words : Text → Text → Text
connect_words addr addr_type = codes "conn " ++ addr ++ codes " " ++ addr_type

pub parse_line-connect :
    (env : Env) (addr addr_type : Text) (w : World)
    → env.strstrip (connect_command addr addr_type none) ≡ connect_words addr addr_type
    → env.shell_parse_argv (connect_words addr addr_type)
      ≡ some (codes "conn" ∷ addr ∷ addr_type ∷ [])
    → parse_line env (connect_command addr addr_type none) w
      ≡ cmd_connect env (codes "conn" ∷ addr ∷ addr_type ∷ []) w
unfolding parse_line run_words run on_option find_command commands
parse_line-connect env addr addr_type w strip words = rw (parse_line, strip, run_words, words) refl

more_lines :
    (first rest : List Text) (x : Text) → (k : ℕ) × (length (first ++ (x ∷ rest)) + 1 ≡ suc (suc k))
more_lines first rest x =
    (length first + length rest, omega (arith, length-append first (x ∷ rest)))

-- Behind the report that a connection is tried, the next report decides.
pub second_report :
    (v u : World) (first second after : List Text)
    → v.conn_state ≡ connecting
    → IsCleanStatus v
    → IsCleanStatus u
    → All (IsPassed (rsp_status ∷ [])) first
    → All (IsPassed (rsp_status ∷ [])) second
    → (k : ℕ) × (peripheral_connect (
          first
          ++ (line rsp_status (status_fields v)
              ∷ (second ++ (line rsp_status (status_fields u) ∷ after))))
        ≡ on_state (connect_loop k after) (resp_of rsp_status (status_fields u)))
unfolding peripheral_connect
second_report v u first second after c clean_v clean_u p q =
    let rest = second ++ (line rsp_status (status_fields u) ∷ after) in
    let first_line = line rsp_status (status_fields v) in
    let (k, e) = more_lines first rest first_line in
    (
      k,
      ap (λ fuel. connect_loop fuel (first ++ (first_line ∷ rest))) e
          ∙ connect_loop-round v first rest clean_v p (suc k)
          ∙ on_state-tryconn v _ c
          ∙ connect_loop-round u second after clean_u q k,
    )

on_state-conn :
    (w : World) (again : Fetched (Unit {0}))
    → w.conn_state ≡ connected
    → on_state again (resp_of rsp_status (status_fields w)) ≡ fetched tt
unfolding on_state
on_state-conn w again c = rw (on_state, state-value w connected c)

-- Making a connection, from end to end. The helper is disconnected, the library's `strstrip` and
-- its splitting into words do to the command of the client what they are for, the library starts the
-- connection and later finds out its MTU, and the address and the security level are texts that the
-- protocol can carry. Then the command returns with one text printed, the callback of the library
-- returns, connected, with another one printed, and of the two, each behind any lines that are passed
-- over, the client makes that it is connected.
pub connect-connects :
    (env : Env) (addr addr_type : Text) (io : Ptr) (r : ℕ × ℕ) (w : World)
    (first second after : List Text)
    → w.conn_state ≡ disconnected
    → env.strstrip (connect_command addr addr_type none) ≡ connect_words addr addr_type
    → env.shell_parse_argv (connect_words addr addr_type)
      ≡ some (codes "conn" ∷ addr ∷ addr_type ∷ [])
    → ((es : List Event)
        → env.gatt_connect es none addr addr_type w.opt_sec_level (pos 0) w.opt_mtu ≡ some io)
    → ((es : List Event) → env.io_get es io ≡ some r)
    → IsCleanText addr
    → IsCleanText w.opt_sec_level
    → All (IsPassed (rsp_status ∷ [])) first
    → All (IsPassed (rsp_status ∷ [])) second
    → (v u : World) × (s t : Text) × (parse_line env (connect_command addr addr_type none) w
        ≡ ret tt v)
      × (connect_cb env io none v ≡ ret tt u)
      × (u.conn_state ≡ connected)
      × (printed_text v.trace ≡ printed_text w.trace ++ s)
      × (printed_text u.trace ≡ printed_text v.trace ++ t)
      × (peripheral_connect (first ++ (s ∷ (second ++ (t ∷ after)))) ≡ fetched tt)
connect-connects env addr addr_type io r w first second after c strip words dials gets clean sec p
      q =
    let tried = trying addr addr_type w in
    let (tr, (run, shown)) = cmd_connect-tries env (codes "conn") addr addr_type io w c dials in
    let v : World = record tried { iochannel = some io; trace = tr } in
    let (u, state, dst, mtu, level, run_cb, shown_cb) = connect_cb-Connects env io r v (gets tr) in
    let clean_u : IsCleanStatus u = (rw dst clean, rw level sec) in
    let (k, ends) = second_report tried u first second after refl (clean, sec) clean_u p q in
    (
      v,
      u,
      line rsp_status (status_fields tried),
      line rsp_status (status_fields u),
      parse_line-connect env addr addr_type w strip words ∙ run,
      run_cb,
      state,
      shown,
      shown_cb,
      ends ∙ on_state-conn u _ state,
    )
