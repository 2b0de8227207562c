-- ===== src/Att/Answers.antt =====
-- What the peer is answered.
use bluepy.Protocol.Emits.{IsPrinted}
use bluepy.Common.Hex.Digits.{All}
use bluepy.Protocol.Responses.{
  Finishes-end, Sends-data, Sends-uint, Finishes->>, line, Prints-response, field, Prints,
}
use bluepy.Protocol.{tag_data, tag_handle, rsp_ind, rsp_notify}
use bluepy.Protocol.Wire.{bytes, uint, Field}
use bluepy.Main.{handle_pdu}
use bluepy.Att.Server.{
  gatts_exec_write_req, gatts_prep_write_req, gatts_signed_write_cmd, gatts_write_cmd,
  gatts_write_req, gatts_read_by_group_req, gatts_read_multi_req, gatts_read_blob_req,
  gatts_read_req, gatts_read_by_type_req, gatts_find_by_type_req, gatts_find_info_req, refuse,
}
use bluepy.Common.{
  refl, false, inr, inl, [], ◌++◌, drop, true, ◌⊎◌, List, byte_at, if◌then◌else◌, ◌∷◌, ltb, none,
  ◌%◌, ◌||◌, leb, ◌==◌, length, some, ℕ, ◌≡◌, Bool, arith, Option, Text,
}
use bluepy.Att.Events.{get_buffer, confirm, report_event, events_handler, get_le16, send_pdu}
use bluepy.World.{
  ◌>>=◌, ◌>>◌, assert, printed_text, Env, Event, ret, Outcome, World, Handler, steps,
}

-- An answer: the process sends that PDU, if it is not empty, and does nothing else.
abbrev pub Answers : Text → World → Outcome (Unit {0}) → Type 0
Answers opdu w o =
    o
    ≡ ret tt (
        if ltb 0 (length opdu)
        then record w { trace = Event.attrib_send w.attrib opdu ∷ w.trace }
        else w)

send_pdu-Answers : (opdu : Text) (w : World) → Answers opdu w (send_pdu opdu w)
unfolding send_pdu steps
send_pdu-Answers opdu w = ground arith

-- The handlers that refuse every request, each with the test of the length that it asserts and the
-- handle that it puts into its answer.
abbrev pub expected : Handler → Text → Option (Bool × ℕ)
expected Handler.gatts_find_info_req p = some (length p == 5, get_le16 p 1)
expected Handler.gatts_find_by_type_req p = some (leb 7 (length p), get_le16 p 1)
expected Handler.gatts_read_by_type_req p = some (length p == 7 || length p == 21, get_le16 p 1)
expected Handler.gatts_read_req p = some (length p == 3, get_le16 p 1)
expected Handler.gatts_read_blob_req p = some (length p == 5, get_le16 p 1)
expected Handler.gatts_read_multi_req p = some (leb 5 (length p), get_le16 p 1)
expected Handler.gatts_read_by_group_req p = some (leb 7 (length p), get_le16 p 1)
expected Handler.gatts_write_req p = some (leb 3 (length p), get_le16 p 1)
expected Handler.gatts_prep_write_req p = some (leb 5 (length p), get_le16 p 1 % 256)
expected Handler.gatts_exec_write_req p = some (length p == 5, 0)
expected _ p = none

guarded-Answers :
    (env : Env) (b : Bool) (opcode n handle : ℕ) (w : World)
    → ◌≡◌ {A = Option (Bool × ℕ)} (some (b, n)) (some (true, handle))
    → Answers
        (env.enc_error_resp opcode handle 0x06 (env.attrib_buffer w.trace w.attrib))
        w
        ((assert b >> refuse env opcode n) w)
unfolding refuse get_buffer steps
guarded-Answers env true opcode n handle w h =
    let same : n ≡ handle = cc in rw (← same) (send_pdu-Answers _ w)
guarded-Answers env false opcode n handle w h = cc

-- A request of an allowed length that `expected` has a handle for is answered by the error
-- response 0x06, request not supported, with the opcode of the request and that handle, and
-- nothing else is done: the handle is that of the request, modulo 256 for a prepare write
-- request, and 0 for an execute write request.
pub handle_pdu-refuses :
    (env : Env) (handler : Handler) (p : Text) (handle : ℕ) (w : World)
    → expected handler p ≡ some (true, handle)
    → Answers
        (env.enc_error_resp (byte_at p 0) handle 0x06 (env.attrib_buffer w.trace w.attrib))
        w
        (handle_pdu env handler p w)
unfolding handle_pdu gatts_find_info_req gatts_find_by_type_req gatts_read_by_type_req
    gatts_read_req gatts_read_blob_req gatts_read_multi_req gatts_read_by_group_req gatts_write_req
    gatts_write_cmd gatts_signed_write_cmd gatts_prep_write_req gatts_exec_write_req
handle_pdu-refuses env Handler.events_handler p handle w h = cc
handle_pdu-refuses env Handler.gatts_write_cmd p handle w h = cc
handle_pdu-refuses env Handler.gatts_signed_write_cmd p handle w h = cc
handle_pdu-refuses env Handler.gatts_mtu_req p handle w h = cc
handle_pdu-refuses env _ p handle w h = guarded-Answers env _ (byte_at p 0) _ handle w h

abbrev pub event_fields : Text → List Field
event_fields p = field tag_handle (uint (get_le16 p 1)) ∷ field tag_data (bytes (drop 3 p)) ∷ []

abbrev pub event_kind : Text → Text
event_kind p = if byte_at p 0 == 0x1b then rsp_notify else rsp_ind

report_event-line :
    (env : Env) (p : Text) → Prints (report_event env p) (event_kind p) (event_fields p)
unfolding report_event
report_event-line env p =
    Prints-response _ (Finishes->> (Sends-uint _ _) (Finishes->> (Sends-data _) Finishes-end))

-- An event of at least three bytes, a notification or an indication, is printed as one line of its
-- kind with the handle and the value; an indication, and only that, is then confirmed to the peer.
pub events_handler-reports :
    (env : Env) (p : Text) (w : World)
    → (byte_at p 0 ≡ 0x1b) ⊎ (byte_at p 0 ≡ 0x1d)
    → leb 3 (length p) ≡ true
    → (es : List Event) × (printed_text es ≡ line (event_kind p) (event_fields p))
      × All IsPrinted es
      × (let v : World = record w { trace = es ++ w.trace } in
          Answers
            (if byte_at p 0 == 0x1d
              then env.enc_confirmation (env.attrib_buffer v.trace v.attrib)
              else [])
            v
            (events_handler env p w))
unfolding events_handler confirm get_buffer steps
events_handler-reports env p w (inl kind) long =
    let (es, eq, text, only) = (report_event-line env p).emits w in
    (es, text, only, rw (kind, long, ◌>>=◌, eq) (rw kind refl))
events_handler-reports env p w (inr kind) long =
    let (es, eq, text, only) = (report_event-line env p).emits w in
    (es, text, only, rw (kind, long, ◌>>=◌, eq) (rw kind (send_pdu-Answers _ _)))
