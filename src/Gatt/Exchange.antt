-- ===== src/Gatt/Exchange.antt =====
-- What reaches the GATT library, and the life of the MTU.
use bluepy.Status.Lines.{cmd_status-line, status_fields}
use bluepy.Protocol.Responses.{line}
use bluepy.Gatt.Reports.{unless_error}
use bluepy.Gatt.Handle.RoundTrip.{strtoll-show_hex, strtohandle-show_hex}
use bluepy.Protocol.{rsp_status, err_bad_state, err_bad_param, resp_error}
use bluepy.Common.Hex.{show_hex}
use bluepy.Common.Int.{is_zero, to_int-pos, pos}
use bluepy.Common.{
  ltb, if◌then◌else◌, ◌++◌, true, List, some, false, arith, [], ◌∷◌, refl, ◌<◌, ◌≡◌, ℕ, Text,
}
use bluepy.Gatt.Read.{cmd_read_hnd}
use bluepy.Gatt.Discovery.{when_connected}
use bluepy.Gatt.Mtu.{apply_mtu, min_mtu, exchange_mtu_cb, cmd_mtu}
use bluepy.World.{printed_text, Env, Event, ret, connected, Action, World, steps}

pub when_connected-allowed :
    (body : World → Action) (w : World)
    → w.conn_state ≡ connected
    → when_connected body w ≡ body w w
unfolding when_connected steps
when_connected-allowed body w h = rw h refl

-- Connected, the command to read the handle n, written in hexadecimal as the client does, makes
-- one call: the read of the attribute n.
pub cmd_read_hnd-show_hex :
    (name : Text) (n : ℕ) (w : World)
    → w.conn_state ≡ connected
    → n < 65536
    → cmd_read_hnd (name ∷ show_hex n ∷ []) w
      ≡ ret tt (record w { trace = Event.read_char w.attrib n ∷ w.trace })
unfolding cmd_read_hnd steps
cmd_read_hnd-show_hex name n w c h =
    rw (when_connected-allowed, c, strtohandle-show_hex n (omega arith)) (ground arith)

is_zero-pos : (n : ℕ) → 0 < n → is_zero (pos n) ≡ false
is_zero-pos n h = ground arith

-- Connected and with no MTU agreed on, the command with a number n below 23 that is not 0 reports
-- a bad parameter and makes no exchange, but keeps n as the MTU; with that MTU the command is
-- refused as `badstate`, whatever its argument.
pub cmd_mtu-stuck :
    (name : Text) (n : ℕ) (w : World)
    → w.conn_state ≡ connected
    → w.opt_mtu ≡ pos 0
    → 0 < n
    → n < 23
    → (v : World) × (cmd_mtu (name ∷ show_hex n ∷ []) w ≡ resp_error err_bad_param v)
      × (v.trace ≡ w.trace)
      × (v.opt_mtu ≡ pos n)
      × ((other argument : Text) → cmd_mtu (other ∷ argument ∷ []) v ≡ resp_error err_bad_state v)
unfolding cmd_mtu steps
cmd_mtu-stuck name n w c z pos_n h = (
  record w { opt_mtu = pos n },
  rw (when_connected-allowed, c, z, strtoll-show_hex n (omega arith), to_int-pos n (omega arith))
      (ground arith),
  refl,
  refl,
  λ other argument. rw (when_connected-allowed, c, is_zero-pos n pos_n) refl,
)

-- `MIN` of two numbers
abbrev pub smaller : ℕ → ℕ → ℕ
smaller a m = if ltb a m then a else m

min_mtu-smaller : (a m : ℕ) → m < 65536 → min_mtu a (pos m) ≡ smaller a m
unfolding min_mtu
min_mtu-smaller a m h = ground arith

-- If the peer answers the exchange with an MTU that is decoded, an MTU of less than 65536 was asked
-- for, and the library takes the smaller of both, then the callback tells the library that one, keeps
-- it as its own, and reports its status as one line.
pub exchange_mtu_cb-agrees :
    (env : Env) (pdu : Text) (a m : ℕ) (w : World)
    → env.dec_mtu_resp pdu ≡ some a
    → w.opt_mtu ≡ pos m
    → m < 65536
    → ((es : List Event) → env.attrib_set_mtu es w.attrib (smaller a m) ≡ true)
    → (es : List Event) × (let v : World = record w {
      opt_mtu = pos (smaller a m);
      trace = Event.attrib_set_mtu w.attrib (smaller a m) ∷ w.trace;
    } in
        (exchange_mtu_cb env 0 pdu w ≡ ret tt (record v { trace = es ++ v.trace }))
        × (printed_text es ≡ line rsp_status (status_fields v)))
unfolding exchange_mtu_cb unless_error apply_mtu steps
exchange_mtu_cb-agrees env pdu a m w d o h taken =
    let v : World = record w {
      opt_mtu = pos (smaller a m);
      trace = Event.attrib_set_mtu w.attrib (smaller a m) ∷ w.trace;
    } in
    let (es, eq, text, only) = cmd_status-line v in
    (es, (rw (d, o, min_mtu-smaller a m h, taken) eq, text))
