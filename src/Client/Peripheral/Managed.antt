-- ===== src/Client/Peripheral/Managed.antt =====
-- Pairing and disconnecting, from the client to the library and back.
use bluepy.Status.Lines.{status_fields}
use bluepy.Client.Peripheral.Lines.{left-line, reply-line}
use bluepy.Common.Int.{pos}
use bluepy.Connection.Closing.{disconnect_io-closes}
use bluepy.Client.Peripheral.Queue.{IsPassed}
use bluepy.Client.Scanner.Control.Starting.{mgmt_cmd-succeeded}
use bluepy.Client.Peripheral.Connect.Handshake.{status-IsCleanField, IsCleanStatus}
use bluepy.Client.Peripheral.Methods.{expect, pair, disconnect}
use bluepy.Client.Parse.Plain.{plain-IsCleanText}
use bluepy.Client.Wait.{management_error}
use bluepy.Client.Talk.Lines.{mgmt_cmd-refused, mgmt_resp, IsAnswer, IsIgnored}
use bluepy.Client.Peripheral.{failed, fetched}
use bluepy.Common.Hex.Digits.{All}
use bluepy.Connection.{is_disconnected, cmd_disconnect}
use bluepy.Client.Parse.RoundTrip.{IsCleanText}
use bluepy.Protocol.{rsp_status, err_success, err_mgmt_err, tag_errmsg, tag_errstat}
use bluepy.Protocol.Responses.{resp_mgmt_err-line, resp_mgmt-line, field}
use bluepy.Protocol.Wire.{str, uint, Field}
use bluepy.Mgmt.Request.{addr_type_of, submit, with_mgmt, request_complete}
use bluepy.Commands.{commands, find_command, run, run_words, parse_line}
use bluepy.Mgmt.Pairing.{
  io_capability_none, device_request, mgmt_op_pair_device, cmd_pair, pair_device_complete,
}
use bluepy.Common.{
  true, none, inr, inl, Bool-cases, refl, false, ◌++◌, some, ◌≡◌, ◌==◌, codes, if◌then◌else◌, ◌^◌,
  ◌<◌, Text, List, ℕ, [], ◌∷◌,
}
use bluepy.World.{
  printed_text, Event, ret, steps, connected, World, on_option, Ptr, Env, disconnected,
}
use bluepy.Client.Talk.{stop_helper, mgmt_types, Reply}

-- The command to pair asks the controller to pair with the device that was connected to.
parse_line-pair :
    (env : Env) (master : Ptr) (bdaddr : Text) (w : World)
    → env.strstrip (codes "pair\n") ≡ codes "pair"
    → env.shell_parse_argv (codes "pair") ≡ some (codes "pair" ∷ [])
    → w.conn_state ≡ connected
    → w.mgmt_master ≡ some master
    → env.str_to_ba w.opt_dst ≡ some bdaddr
    → (env.mgmt_send w.trace master mgmt_op_pair_device w.mgmt_ind
          (bdaddr ++ addr_type_of w.opt_dst_type ∷ io_capability_none ∷ [])
        == 0)
      ≡ false
    → parse_line env (codes "pair\n") w
      ≡ ret tt (record w {
        trace =
            Event.mgmt_send master mgmt_op_pair_device w.mgmt_ind
              (bdaddr ++ addr_type_of w.opt_dst_type ∷ io_capability_none ∷ [])
            ∷ w.trace;
      })
unfolding parse_line run_words run on_option find_command commands cmd_pair with_mgmt device_request
    submit steps
parse_line-pair env master bdaddr w strip words c m d sent =
    rw (parse_line, strip, run_words, words, m, c, d, sent) refl

-- The response in which the helper reports an error of the controller.
abbrev pub error_fields : Env → ℕ → List Field
error_fields env status =
    field tag_errstat (uint status) ∷ field tag_errmsg (str (env.mgmt_errstr status)) ∷ []

error-IsAnswer :
    (env : Env) (status : ℕ) (before : List Text)
    → status < 2 ^ 32
    → IsCleanText (env.mgmt_errstr status)
    → All (IsIgnored mgmt_types) before
    → IsAnswer err_mgmt_err (error_fields env status) before
error-IsAnswer env status before small clean ignored = record {
  clean = plain-IsCleanText err_mgmt_err refl;
  fields = (
    (plain-IsCleanText tag_errstat refl, small),
    ((plain-IsCleanText tag_errmsg refl, clean), tt),
  );
  ignored = ignored;
}

-- How `pair` ends for a status of the controller.
abbrev pub pair_reply : Env → ℕ → List Text → Reply (Unit {0})
pair_reply env status after =
    if status == 0
    then record { outcome = fetched tt; written = codes "pair\n" ∷ []; left = after }
    else record {
      outcome = failed (management_error (mgmt_resp err_mgmt_err (error_fields env status)));
      written = codes "pair\n" ∷ codes "quit\n" ∷ [];
      left = after;
    }

pair-answered :
    (env : Env) (status : ℕ) (v : World) (before after : List Text)
    → status < 2 ^ 32
    → IsCleanText (env.mgmt_errstr status)
    → All (IsIgnored mgmt_types) before
    → (es : List Event) × (pair_device_complete env status v
        ≡ ret tt (record v { trace = es ++ v.trace }))
      × (pair (before ++ (printed_text es ∷ after)) ≡ pair_reply env status after)
unfolding pair_device_complete request_complete pair
pair-answered env status v before after small clean ignored = elim (Bool-cases (status == 0)) [
  | inl e ↦
      let (es, eq, shown, only) = (resp_mgmt-line err_success).emits v in
      (es, rw e eq, rw (shown, e) (mgmt_cmd-succeeded (codes "pair") before after ignored))
  | inr e ↦
      let (es, eq, shown, only) = (resp_mgmt_err-line env status).emits v in
      (
        es,
        rw e eq,
        rw (shown, e)
            (mgmt_cmd-refused err_mgmt_err (error_fields env status) before after
              (error-IsAnswer env status before small clean ignored) (codes "pair") refl),
      )
]

-- Pairing, from end to end. The helper is connected and has the management interface, the library
-- reads the line, its words and the address of the device, and takes the request. Then the command of
-- the client makes one request, to pair with that device, of its type of address. Whatever status the
-- controller answers, whose message the protocol can carry, the callback returns with something
-- printed that ends `pair`, behind lines that are skipped: with success if the status is 0, and
-- otherwise with the helper stopped and a management error that has the status and its message.
pub pair-ends :
    (env : Env) (master : Ptr) (bdaddr : Text) (status : ℕ) (w v : World) (before after : List Text)
    → env.strstrip (codes "pair\n") ≡ codes "pair"
    → env.shell_parse_argv (codes "pair") ≡ some (codes "pair" ∷ [])
    → w.conn_state ≡ connected
    → w.mgmt_master ≡ some master
    → env.str_to_ba w.opt_dst ≡ some bdaddr
    → (env.mgmt_send w.trace master mgmt_op_pair_device w.mgmt_ind
          (bdaddr ++ addr_type_of w.opt_dst_type ∷ io_capability_none ∷ [])
        == 0)
      ≡ false
    → status < 2 ^ 32
    → IsCleanText (env.mgmt_errstr status)
    → All (IsIgnored mgmt_types) before
    → (parse_line env (codes "pair\n") w
        ≡ ret tt (record w {
          trace =
              Event.mgmt_send master mgmt_op_pair_device w.mgmt_ind
                (bdaddr ++ addr_type_of w.opt_dst_type ∷ io_capability_none ∷ [])
              ∷ w.trace;
        }))
      × (es : List Event) × (pair_device_complete env status v
          ≡ ret tt (record v { trace = es ++ v.trace }))
      × (pair (before ++ (printed_text es ∷ after)) ≡ pair_reply env status after)
pair-ends env master bdaddr status w v before after strip words c m d sent small clean ignored =
    let (es, eq, ended) = pair-answered env status v before after small clean ignored in
    (parse_line-pair env master bdaddr w strip words c m d sent, es, eq, ended)

-- Disconnecting, from end to end. The helper is not disconnected, its security level is a text that
-- the protocol can carry, and the library reads the line and its word. Then the command of the client
-- closes the connection, and of what the helper prints, behind any lines that are passed over, the
-- client returns, with the command and then the one to quit written.
pub disconnect-closes :
    (env : Env) (w : World) (before after : List Text)
    → env.strstrip (codes "disc\n") ≡ codes "disc"
    → env.shell_parse_argv (codes "disc") ≡ some (codes "disc" ∷ [])
    → is_disconnected w.conn_state ≡ false
    → IsCleanStatus w
    → All (IsPassed (rsp_status ∷ [])) before
    → (v : World) × (es : List Event) × (parse_line env (codes "disc\n") w
        ≡ ret tt (record v { trace = es ++ v.trace }))
      × (v.conn_state ≡ disconnected)
      × (v.attrib ≡ none)
      × (v.iochannel ≡ none)
      × (disconnect true (before ++ (printed_text es ∷ after)) ≡ record {
        outcome = fetched tt;
        written = codes "disc\n" ∷ codes "quit\n" ∷ [];
        left = after;
      })
unfolding parse_line run_words run on_option find_command commands cmd_disconnect disconnect expect
    stop_helper
disconnect-closes env w before after strip words c clean passed =
    let (es, eq, shown, only) = disconnect_io-closes w c in
    let v : World = record w {
      iochannel = none;
      attrib = none;
      opt_mtu = pos 0;
      conn_state = disconnected;
      trace =
          Event.io_unref w.iochannel
          ∷ Event.io_shutdown w.iochannel
          ∷ Event.attrib_unref w.attrib
          ∷ w.trace;
    } in
    (
      v,
      es,
      rw (parse_line, strip, run_words, words) eq,
      refl,
      refl,
      refl,
      rw
          (
            shown,
            expect,
            reply-line rsp_status (status_fields v) before after (plain-IsCleanText rsp_status refl)
                refl (status-IsCleanField v clean) passed,
            left-line rsp_status (status_fields v) before after (plain-IsCleanText rsp_status refl)
                refl (status-IsCleanField v clean) passed,
          )
          refl,
    )
