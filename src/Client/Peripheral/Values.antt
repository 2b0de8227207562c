-- ===== src/Client/Peripheral/Values.antt =====
-- Reading a value: the command of the client, the helper between it and the library, and the answer.
use bluepy.Client.Parse.Plain.{plain-IsCleanText}
use bluepy.Client.Peripheral.Lines.{lookup-resp_of, reply-line}
use bluepy.Client.Parse.{PyValue}
use bluepy.Gatt.Exchange.{cmd_read_hnd-show_hex}
use bluepy.Protocol.Wire.{bytes}
use bluepy.Client.Peripheral.Queue.{IsPassed}
use bluepy.Common.Hex.{show_hex}
use bluepy.Common.Hex.Digits.{All}
use bluepy.Protocol.{tag_data, rsp_read}
use bluepy.Protocol.Responses.{
  Finishes-end, Sends-data, Finishes->>, Prints-response, line, field, Prints,
}
use bluepy.Gatt.Reports.{unless_error}
use bluepy.World.{printed_text, Event, ret, connected, on_option, World, Env}
use bluepy.Gatt.Read.{char_read_cb, report_value}
use bluepy.Client.Peripheral.{fetched, read_command, with_key, read_characteristic}
use bluepy.Commands.{commands, find_command, run, run_words, parse_line}
use bluepy.Common.{refl, ◌<◌, some, ◌++◌, ◌≡◌, codes, List, Text, ℕ, [], ◌∷◌}

report_value-line :
    (value : Text) → Prints (report_value value) rsp_read (field tag_data (bytes value) ∷ [])
unfolding report_value
report_value-line value = Prints-response rsp_read (Finishes->> (Sends-data value) Finishes-end)

char_read_cb-line :
    (env : Env) (pdu value : Text)
    → env.dec_read_resp pdu ≡ some value
    → Prints (char_read_cb env 0 pdu) rsp_read (field tag_data (bytes value) ∷ [])
unfolding char_read_cb unless_error on_option
char_read_cb-line env pdu value d = rw d (report_value-line value)

-- The text of `read_command` without its newline.
abbrev pub read_words : ℕ → Text
read_words handle = codes "rd " ++ show_hex handle

parse_line-read :
    (env : Env) (n : ℕ) (w : World)
    → w.conn_state ≡ connected
    → n < 65536
    → env.strstrip (read_command n) ≡ read_words n
    → env.shell_parse_argv (read_words n) ≡ some (codes "rd" ∷ show_hex n ∷ [])
    → parse_line env (read_command n) w
      ≡ ret tt (record w { trace = Event.read_char w.attrib n ∷ w.trace })
unfolding parse_line run_words run on_option find_command commands
parse_line-read env n w c h strip words =
    rw (parse_line, strip, run_words, words) (cmd_read_hnd-show_hex (codes "rd") n w c h)

read_characteristic-line :
    (value : Text) (before after : List Text)
    → All (λ b. b < 256) value
    → All (IsPassed (rsp_read ∷ [])) before
    → read_characteristic (before ++ (line rsp_read (field tag_data (bytes value) ∷ []) ∷ after))
      ≡ fetched (PyValue.bytes value)
unfolding read_characteristic with_key
read_characteristic-line value before after small passed = rw (
  read_characteristic,
  reply-line rsp_read (field tag_data (bytes value) ∷ []) before after
      (plain-IsCleanText rsp_read refl) refl ((plain-IsCleanText tag_data refl, small), tt) passed,
  with_key,
  lookup-resp_of tag_data rsp_read (field tag_data (bytes value) ∷ []),
)

-- Reading a characteristic, from end to end. The helper is connected, the library's `strstrip` and
-- its splitting into words do to the command of the client what they are for, and it decodes the
-- answer of the peer to the bytes of a value. Then the command of the client makes one request, to
-- read the handle that the client gave; the callback for the answer, whatever the world has become,
-- returns with something printed; and of that, behind any lines that are passed over, the client
-- makes the bytes of the value.
pub read_characteristic-reads :
    (env : Env) (n : ℕ) (w v : World) (pdu value : Text) (before after : List Text)
    → w.conn_state ≡ connected
    → n < 65536
    → env.strstrip (read_command n) ≡ read_words n
    → env.shell_parse_argv (read_words n) ≡ some (codes "rd" ∷ show_hex n ∷ [])
    → env.dec_read_resp pdu ≡ some value
    → All (λ b. b < 256) value
    → All (IsPassed (rsp_read ∷ [])) before
    → (parse_line env (read_command n) w
        ≡ ret tt (record w { trace = Event.read_char w.attrib n ∷ w.trace }))
      × (es : List Event) × (char_read_cb env 0 pdu v ≡ ret tt (record v { trace = es ++ v.trace }))
      × (read_characteristic (before ++ (printed_text es ∷ after)) ≡ fetched (PyValue.bytes value))
read_characteristic-reads env n w v pdu value before after c h strip words d small passed =
    let (es, eq, shown, only) = (char_read_cb-line env pdu value d).emits v in
    (
      parse_line-read env n w c h strip words,
      es,
      eq,
      rw shown (read_characteristic-line value before after small passed),
    )
