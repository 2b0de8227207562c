-- ===== src/Client/Mtu/Exchange.antt =====
-- The exchange of the MTU, from the client to the library and back.
use bluepy.Client.Mtu.Lower.{strtoll-lower_hex}
use bluepy.Gatt.Exchange.{smaller, exchange_mtu_cb-agrees, when_connected-allowed}
use bluepy.Gatt.Mtu.{exchange_mtu_cb, cmd_mtu}
use bluepy.Commands.{commands, find_command, run, run_words, parse_line}
use bluepy.Protocol.Wire.{sym as symbol}
use bluepy.Client.Parse.Plain.{plain-IsCleanText}
use bluepy.Client.Parse.RoundTrip.{parse_resp-encode}
use bluepy.Status.Lines.{status_fields}
use bluepy.Client.Peripheral.Lines.{first_value-resp_of, left-line, resp_of}
use bluepy.Protocol.{tag_response, rsp_status}
use bluepy.Client.Peripheral.Queue.{IsPassed}
use bluepy.Protocol.Responses.{field, line}
use bluepy.Common.Hex.Digits.{All}
use bluepy.Client.Peripheral.Connect.Handshake.{status-IsCleanField, IsCleanStatus}
use bluepy.World.{
  printed_text, Event, ret, on_option, steps, Env, scanning, connected, connecting, disconnected,
  ConnState, World,
}
use bluepy.Common.Int.{to_int-pos, to_u32, pos, ℤ}
use bluepy.Client.Wait.{lookup, is_skipped, first_value}
use bluepy.Client.Mtu.{
  mtu_command, lower_hex, note_mtu, response_mtu, taken, mtu_after, line_mtu, get_mtu,
}
use bluepy.Common.{
  ap, ◌∙◌, false, ltb, ◌%◌, true, ◌^◌, ◌<◌, ◌≤◌, take-append, some, sym, length-append,
  append_assoc, codes, refl, arith, ◌-◌, ◌≡◌, length, suc, ◌++◌, take, Text, ◌+◌, List, ℕ, [], ◌∷◌,
}
use bluepy.Client.Parse.{add_value, int}

-- The MTU of a status report.
mtu-value :
    (w : World) (st : ConnState)
    → w.conn_state ≡ st
    → first_value (codes "mtu") (resp_of rsp_status (status_fields w))
      ≡ some (int (pos (to_u32 w.opt_mtu)))
unfolding first_value lookup add_value
mtu-value w disconnected c = rw c refl
mtu-value w connecting c = rw c refl
mtu-value w connected c = rw c refl
mtu-value w scanning c = rw c refl

-- The client takes the MTU of a status report, whatever its own was.
line_mtu-status :
    (w : World) (mtu : ℤ)
    → IsCleanStatus w
    → line_mtu (line rsp_status (status_fields w)) mtu ≡ pos (to_u32 w.opt_mtu)
unfolding line_mtu is_skipped response_mtu note_mtu
line_mtu-status w mtu clean = rw (
  line_mtu,
  parse_resp-encode (field tag_response (symbol rsp_status)) (status_fields w)
      (plain-IsCleanText (codes "rsp") refl, plain-IsCleanText (codes "stat") refl)
      (status-IsCleanField w clean),
  response_mtu,
  first_value-resp_of rsp_status (status_fields w),
  note_mtu,
  mtu-value w w.conn_state refl,
)

mtu_after-append :
    (lines : List Text) (s : Text) (mtu : ℤ)
    → mtu_after (lines ++ (s ∷ [])) mtu ≡ line_mtu s (mtu_after lines mtu)
unfolding mtu_after
mtu_after-append [] s mtu = refl
mtu_after-append (l ∷ lines) s mtu = mtu_after-append lines s (line_mtu l mtu)

more : (a b : ℕ) → a + suc b - b ≡ a + 1
more a b = omega arith

snoc : (before after : List Text) (s : Text) → (before ++ (s ∷ [])) ++ after ≡ before ++ (s ∷ after)
snoc before after s = append_assoc before (s ∷ []) after

take_through :
    (before after : List Text) (s : Text)
    → take (length (before ++ (s ∷ after)) - length after) (before ++ (s ∷ after))
      ≡ before ++ (s ∷ [])
take_through before after s =
    let count : length (before ++ (s ∷ after)) - length after ≡ length (before ++ (s ∷ [])) =
      omega (arith, length-append before (s ∷ after), length-append before (s ∷ [])) in
    rw (count, sym (snoc before after s)) (take-append (before ++ (s ∷ [])) after)

-- A wait for a status that a status report ends leaves the client with the MTU of that report.
pub get_mtu-status :
    (w : World) (before after : List Text) (mtu : ℤ)
    → IsCleanStatus w
    → All (IsPassed (rsp_status ∷ [])) before
    → get_mtu rsp_status (before ++ (line rsp_status (status_fields w) ∷ after)) mtu
      ≡ pos (to_u32 w.opt_mtu)
unfolding get_mtu taken
get_mtu-status w before after mtu clean passed =
    rw
      (
        get_mtu,
        taken,
        left-line rsp_status (status_fields w) before after (plain-IsCleanText rsp_status refl) refl
            (status-IsCleanField w clean) passed,
        take_through before after (line rsp_status (status_fields w)),
        mtu_after-append before (line rsp_status (status_fields w)) mtu,
      )
      (line_mtu-status w (mtu_after before mtu) clean)

-- Connected and with no MTU agreed on, the command with the number n, of at least 23 and below 2^31,
-- written as the client does, stores n as the MTU and makes one request, which asks for n modulo
-- 65536.
pub cmd_mtu-asks :
    (name : Text) (n : ℕ) (w : World)
    → w.conn_state ≡ connected
    → w.opt_mtu ≡ pos 0
    → 23 ≤ n
    → n < 2 ^ 31
    → cmd_mtu (name ∷ lower_hex n ∷ []) w
      ≡ ret tt
          (record w { opt_mtu = pos n; trace = Event.exchange_mtu w.attrib (n % 65536) ∷ w.trace })
unfolding cmd_mtu steps
cmd_mtu-asks name n w c z low high =
    let enough : ltb n 23 ≡ false = ground arith in
    rw (when_connected-allowed, c, z, strtoll-lower_hex n (omega arith), to_int-pos n high, enough)
      refl

-- The text of `mtu_command` without its newline.
abbrev pub mtu_words : ℕ → Text
mtu_words n = codes "mtu " ++ lower_hex n

parse_line-mtu :
    (env : Env) (n : ℕ) (w : World)
    → w.conn_state ≡ connected
    → w.opt_mtu ≡ pos 0
    → 23 ≤ n
    → n < 2 ^ 31
    → env.strstrip (mtu_command n) ≡ mtu_words n
    → env.shell_parse_argv (mtu_words n) ≡ some (codes "mtu" ∷ lower_hex n ∷ [])
    → parse_line env (mtu_command n) w
      ≡ ret tt
          (record w { opt_mtu = pos n; trace = Event.exchange_mtu w.attrib (n % 65536) ∷ w.trace })
unfolding parse_line run_words run on_option find_command commands
parse_line-mtu env n w c z low high strip words =
    rw (parse_line, strip, run_words, words) (cmd_mtu-asks (codes "mtu") n w c z low high)

-- The exchange of the MTU, from end to end. The helper is connected, no MTU is agreed on yet, the
-- library reads the line and its words as they were written, and the client asks for n, of at least
-- 23 and below 65536. Then the command makes one request, for n. The library decodes the answer of the
-- peer to a, of at least 23, and takes any MTU from 23 to n. Then the callback, in whatever world still
-- has n as its MTU and settings that the protocol can carry, tells the library one MTU, the smaller of
-- a and n; it keeps that, and what it prints ends the wait of the client, behind any lines that are
-- passed over, with the same MTU at the client, whatever it was before.
pub set_mtu-agrees :
    (env : Env) (n a : ℕ) (w v : World) (pdu : Text) (before after : List Text) (old : ℤ)
    → w.conn_state ≡ connected
    → w.opt_mtu ≡ pos 0
    → 23 ≤ n
    → n < 65536
    → env.strstrip (mtu_command n) ≡ mtu_words n
    → env.shell_parse_argv (mtu_words n) ≡ some (codes "mtu" ∷ lower_hex n ∷ [])
    → env.dec_mtu_resp pdu ≡ some a
    → 23 ≤ a
    → v.opt_mtu ≡ pos n
    → ((es : List Event) (m : ℕ) → 23 ≤ m → m ≤ n → env.attrib_set_mtu es v.attrib m ≡ true)
    → IsCleanStatus v
    → All (IsPassed (rsp_status ∷ [])) before
    → (parse_line env (mtu_command n) w
        ≡ ret tt (record w { opt_mtu = pos n; trace = Event.exchange_mtu w.attrib n ∷ w.trace }))
      × (es : List Event) × (exchange_mtu_cb env 0 pdu v
          ≡ ret tt (record v {
            opt_mtu = pos (smaller a n);
            trace = es ++ Event.attrib_set_mtu v.attrib (smaller a n) ∷ v.trace;
          }))
      × (get_mtu rsp_status (before ++ (printed_text es ∷ after)) old ≡ pos (smaller a n))
set_mtu-agrees env n a w v pdu before after old c z low high strip words d more o accepted clean
      passed =
    let m = smaller a n in
    let enough : 23 ≤ smaller a n = ground arith in
    let below : smaller a n ≤ n = ground arith in
    let (es, agreed) =
      exchange_mtu_cb-agrees env pdu a n v d o high (λ es. accepted es m enough below) in
    let u : World = record v {
      opt_mtu = pos m;
      trace = Event.attrib_set_mtu v.attrib m ∷ v.trace;
    } in
    let fits : n % 65536 ≡ n = omega arith in
    let small : smaller a n % 2 ^ 32 ≡ smaller a n = omega arith in
    (
      rw fits at (parse_line-mtu env n w c z low (omega arith) strip words),
      es,
      agreed.0,
      rw (agreed.1) (get_mtu-status u before after old clean passed ∙ ap pos small),
    )
