-- ===== src/States.antt =====
-- The life of the connection: the states that `set_state` goes through, as a relation.
--
-- bluepy/bluepy-helper.c, `enum state` and the callers of `set_state`.
use bluepy.Status.Lines.{status_fields}
use bluepy.Protocol.{rsp_status}
use bluepy.Protocol.Responses.{line}
pub mod Moves
pub mod Responses
pub mod Gatt
pub mod Mgmt
pub mod Changes
pub mod Loop
pub mod Order
use bluepy.Common.{◌++◌, ◌≡◌, [], ◌∷◌, none, some, Bool, true, false, ℕ, Text, List}
use bluepy.World.{
  printed_text, Event, World, ConnState, disconnected, connecting, connected, scanning, Ptr,
}
use bluepy.Main.{Incoming, input, connection, hang_up, mgmt_discovering, hci_readable}

-- The changes of state that a callback may make.
pub data Edge : Incoming → ConnState → ConnState → Type 0 where
  -- `cmd_connect`
  dial : Edge (input false) disconnected connecting
  -- `cmd_disconnect`, `cmd_pasvend`, and a `gatt_connect` that fails
  close : {s : ConnState} → Edge (input false) s disconnected
  -- `cmd_pasv`
  listen : {s : ConnState} → Edge (input false) s scanning
  -- `connect_cb`
  establish : {s : ConnState} {io : Ptr} → Edge (connection io none) s connected
  fail :
      {s : ConnState} {io : Ptr} {message : Text}
      → Edge (connection io (some message)) s disconnected
  -- `channel_watcher`
  lose : {s : ConnState} {chan : Ptr} → Edge (hang_up chan) s disconnected
  -- `mgmt_scanning`
  begin_scan : {s : ConnState} {len : ℕ} → Edge (mgmt_discovering len true) s scanning
  end_scan : {s : ConnState} {len : ℕ} → Edge (mgmt_discovering len false) s disconnected
  -- `hci_monitor_cb`
  monitor : Edge hci_readable scanning disconnected

-- What was done between two worlds has printed exactly one report, of the state in the second.
abbrev pub Announced : World → World → Type 0
Announced w v =
    (es : List Event) × (v.trace ≡ es ++ w.trace)
    × (printed_text es ≡ line rsp_status (status_fields v))

-- Changes one after another, each announced at once. In between, the trace grows but the state
-- stays.
pub data Route (E : ConnState → ConnState → Type 0) : World → World → Type 0 where
  stay : {w : World} → Route E w w
  quiet :
      {w v u : World} (es : List Event)
      → v.trace ≡ es ++ w.trace
      → v.conn_state ≡ w.conn_state
      → Route E v u
      → Route E w u
  move : {w v u : World} → E w.conn_state v.conn_state → Announced w v → Route E v u → Route E w u

pub Route-append :
    {E : ConnState → ConnState → Type 0} {w v u : World} → Route E w v → Route E v u → Route E w u
Route-append stay q = q
Route-append (quiet es e f p) q = quiet es e f (Route-append p q)
Route-append (move e a p) q = move e a (Route-append p q)

-- What happened, and the changes that each of them made; the event loop may end before all is done.
pub data Session : List Incoming → World → World → Type 0 where
  ended : {happenings : List Incoming} {w : World} → Session happenings w w
  next :
      {i : Incoming} {rest : List Incoming} {w v u : World}
      → Route (Edge i) w v
      → Session rest v u
      → Session (i ∷ rest) w u
