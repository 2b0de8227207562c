-- ===== src/Client/Peripheral/Writing.antt =====
-- Writing a value: the command of the client, the helper between it and the library, and the answer.
use bluepy.Gatt.Handle.RoundTrip.{strtohandle-show_hex}
use bluepy.Gatt.Exchange.{when_connected-allowed}
use bluepy.Client.Parse.Plain.{plain-IsCleanText}
use bluepy.Client.Peripheral.Lines.{reply-line, resp_of}
use bluepy.Client.Peripheral.Queue.{IsPassed}
use bluepy.Common.Hex.Digits.{All}
use bluepy.Client.Scanner.{b2a_hex}
use bluepy.Common.Hex.{show_hex}
use bluepy.Protocol.{rsp_write}
use bluepy.Common.Int.{pos, is_zero}
use bluepy.Protocol.Responses.{Finishes-end, Prints-response, Prints}
use bluepy.Gatt.Reports.{unless_error}
use bluepy.World.{printed_text, Event, ret, connected, steps, Buffer, on_option, World, Env}
use bluepy.Commands.{commands, find_command, run, run_words, parse_line}
use bluepy.Gatt.Write.{
  write_value, write_arg, cmd_char_write_common, report_written, cmd_char_write_rsp,
  char_write_req_cb,
}
use bluepy.Client.Peripheral.{fetched, write_command, write_characteristic}
use bluepy.Common.{
  ◌∙◌, ◌%◌, ◌==◌, gather, refl, some, length, arith, List, false, true, ◌++◌, ◌≡◌, codes, ◌<◌, Text,
  ℕ, [], ◌∷◌,
}

report_written-line : Prints report_written rsp_write []
unfolding report_written
report_written-line = Prints-response rsp_write Finishes-end

char_write_req_cb-line :
    (env : Env) (pdu : Text)
    → env.dec_write_resp pdu ≡ true
    → Prints (char_write_req_cb env 0 pdu) rsp_write []
unfolding char_write_req_cb unless_error
char_write_req_cb-line env pdu d = rw d report_written-line

pos-nonzero : (n : ℕ) → 0 < n → is_zero (pos n) ≡ false
pos-nonzero n h = ground arith

-- Connected, the command to write asks the library to write the bytes that the library has decoded.
cmd_char_write_rsp-writes :
    (env : Env) (name digits val : Text) (n : ℕ) (b : Buffer) (w : World)
    → w.conn_state ≡ connected
    → 0 < n
    → n < 65536
    → env.attr_data w.trace digits ≡ (length val, some b)
    → gather b.mem 0 (length val) ≡ val
    → 0 < length val
    → cmd_char_write_rsp env (name ∷ show_hex n ∷ digits ∷ []) w
      ≡ ret tt (record w {
        trace = Event.free (some b.addr) ∷ Event.write_char w.attrib n val ∷ w.trace;
      })
unfolding cmd_char_write_rsp cmd_char_write_common write_arg write_value steps
cmd_char_write_rsp-writes env name digits val n b w c low high d m some_bytes =
    let nonempty : (length val == 0) ≡ false = ground arith in
    let fits : n % 65536 ≡ n = omega arith in
    rw
      (
        when_connected-allowed,
        c,
        strtohandle-show_hex n (omega arith),
        pos-nonzero n low,
        d,
        nonempty,
        m,
        fits,
      )
      refl

-- The text of `write_command` without its newline.
abbrev pub write_words : ℕ → Text → Text
write_words handle val = codes "wrr" ++ codes " " ++ show_hex handle ++ codes " " ++ b2a_hex val

parse_line-write :
    (env : Env) (val : Text) (n : ℕ) (w : World)
    → env.strstrip (write_command true n val) ≡ write_words n val
    → env.shell_parse_argv (write_words n val) ≡ some (codes "wrr" ∷ show_hex n ∷ b2a_hex val ∷ [])
    → parse_line env (write_command true n val) w
      ≡ cmd_char_write_rsp env (codes "wrr" ∷ show_hex n ∷ b2a_hex val ∷ []) w
unfolding parse_line run_words run on_option find_command commands
parse_line-write env val n w strip words = rw (parse_line, strip, run_words, words) refl

-- Writing a characteristic with a response, from end to end. The helper is connected, the handle is
-- not 0, the library's `strstrip` and its splitting into words do to the command of the client what
-- they are for, and the library decodes the digits to the bytes of the value, of which there is one
-- at least. Then the command makes one request, to write these bytes to that handle, and frees the
-- decoded bytes; and where the library accepts the answer of the peer, the callback for it, whatever
-- the world has become, returns with something printed that ends the wait of the client, behind any
-- lines that are passed over, with the response to a write.
pub write_characteristic-writes :
    (env : Env) (n : ℕ) (w v : World) (b : Buffer) (pdu val : Text) (before after : List Text)
    → w.conn_state ≡ connected
    → 0 < n
    → n < 65536
    → env.strstrip (write_command true n val) ≡ write_words n val
    → env.shell_parse_argv (write_words n val) ≡ some (codes "wrr" ∷ show_hex n ∷ b2a_hex val ∷ [])
    → env.attr_data w.trace (b2a_hex val) ≡ (length val, some b)
    → gather b.mem 0 (length val) ≡ val
    → 0 < length val
    → env.dec_write_resp pdu ≡ true
    → All (IsPassed (rsp_write ∷ [])) before
    → (parse_line env (write_command true n val) w
        ≡ ret tt (record w {
          trace = Event.free (some b.addr) ∷ Event.write_char w.attrib n val ∷ w.trace;
        }))
      × (es : List Event) × (char_write_req_cb env 0 pdu v
          ≡ ret tt (record v { trace = es ++ v.trace }))
      × (write_characteristic (before ++ (printed_text es ∷ after))
          ≡ fetched (resp_of rsp_write []))
unfolding write_characteristic
write_characteristic-writes env n w v b pdu val before after c low high strip words d m some_bytes
      accepted passed =
    let (es, eq, shown, only) = (char_write_req_cb-line env pdu accepted).emits v in
    (
      parse_line-write env val n w strip words
          ∙ cmd_char_write_rsp-writes env (codes "wrr") (b2a_hex val) val n b w c low high d m
              some_bytes,
      es,
      eq,
      rw (
        shown,
        write_characteristic,
        reply-line rsp_write [] before after (plain-IsCleanText rsp_write refl) refl tt passed,
      ),
    )
