-- ===== src/Safety/Basics.antt =====
-- The printing functions and the changes of state keep the invariant.
use bluepy.Common.{inr, inl, List, true, Bool-cases, none, ◌≢◌, ◌≡◌, refl, Text, ◌==◌, ℕ}
use bluepy.Common.Hex.Digits.{All}
use bluepy.World.{
  steps, Ptr, printed_text, Env, World, ConnState, connected, disconnected, Event, Action,
}
use bluepy.Protocol.{
  err_bad_state, resp_error, resp_str_error, resp_att_error, resp_mgmt, resp_mgmt_err, rsp_status,
}
use bluepy.Protocol.Responses.{
  resp_error-line, resp_str_error-line, resp_att_error-line, resp_mgmt-line, resp_mgmt_err-line,
}
use bluepy.Status.{cmd_status, set_state}
use bluepy.Status.Lines.{cmd_status-line, status_fields}
use bluepy.Connection.{
  is_connected, is_disconnected, disconnect_io, channel_watcher, cmd_disconnect, cmd_exit,
}
use bluepy.Gatt.Discovery.{when_connected}
use bluepy.Gatt.Reports.{unless_error}
use bluepy.Safety.Invariant.{
  Keeps-on_option, EndsLine, IsAttached, Holds, Keeps, Inv-line, Keeps-line, Keeps-if, Keeps-get,
  Keeps->>, Keeps-skip, Keeps-call, Keeps-modify,
}

pub Keeps-resp_error : (code : Text) → Keeps (resp_error code)
Keeps-resp_error code = Keeps-line (resp_error-line code)

pub Keeps-resp_str_error : (code msg : Text) → Keeps (resp_str_error code msg)
Keeps-resp_str_error code msg = Keeps-line (resp_str_error-line code msg)

pub Keeps-resp_mgmt : (code : Text) → Keeps (resp_mgmt code)
Keeps-resp_mgmt code = Keeps-line (resp_mgmt-line code)

pub Keeps-resp_att_error : (env : Env) (status : ℕ) → Keeps (resp_att_error env status)
Keeps-resp_att_error env status = Keeps-line (resp_att_error-line env status)

pub Keeps-resp_mgmt_err : (env : Env) (status : ℕ) → Keeps (resp_mgmt_err env status)
Keeps-resp_mgmt_err env status = Keeps-line (resp_mgmt_err-line env status)

pub Keeps-cmd_status : Keeps cmd_status
Keeps-cmd_status = record {
  keeps = λ w. Inv-line w cmd_status rsp_status (status_fields w) (cmd_status-line w);
}

-- What `set_state` needs of the world before it.
pub Holds-set_state :
    (st : ConnState) (w : World)
    → st ≢ connected
    → EndsLine (printed_text w.trace)
    → All IsAttached w.trace
    → Holds (set_state st w)
unfolding set_state steps
Holds-set_state st w n at_line requests =
    Keeps-cmd_status.keeps (record w { conn_state = st })
      (record { at_line = at_line; attached = λ e. absurd (n e); requests = requests })

pub Keeps-set_state : (st : ConnState) → st ≢ connected → Keeps (set_state st)
Keeps-set_state st n = record { keeps = λ w inv. Holds-set_state st w n inv.at_line inv.requests }

pub disconnected_ne_connected : disconnected ≢ connected
disconnected_ne_connected e = cc

is_connected→connected : (st : ConnState) → is_connected st ≡ true → st ≡ connected
is_connected→connected connected h = refl
is_connected→connected _ h = cc

-- A command that wants a connection finds an attribute channel.
pub Keeps-when_connected :
    {body : World → Action}
    → ((w : World) → w.attrib ≢ none → Keeps (body w))
    → Keeps (when_connected body)
unfolding when_connected steps
Keeps-when_connected k = record {
  keeps = λ w inv. elim (Bool-cases (is_connected w.conn_state)) [
    | inl e ↦ rw e ((k w (inv.attached (is_connected→connected w.conn_state e))).keeps w inv)
    | inr e ↦ rw e ((Keeps-resp_error err_bad_state).keeps w inv)
  ];
}

pub Keeps-unless_error :
    {report : Action} (env : Env) (status : ℕ)
    → Keeps report
    → Keeps (unless_error env status report)
unfolding unless_error
Keeps-unless_error env status h = Keeps-if (status == 0) h (Keeps-resp_att_error env status)

-- In between the process is connected without a channel.
pub Keeps-disconnect_io : Keeps disconnect_io
unfolding disconnect_io printed_text steps
Keeps-disconnect_io = record {
  keeps = λ w inv. elim (Bool-cases (is_disconnected w.conn_state)) [
    | inl e ↦ rw e inv
    | inr e ↦ rw e (
        Holds-set_state disconnected _ disconnected_ne_connected inv.at_line
          (tt, (tt, (tt, inv.requests))))
  ];
}

pub Keeps-channel_watcher : (chan : Ptr) → Keeps (channel_watcher chan)
unfolding channel_watcher
Keeps-channel_watcher chan =
    Keeps-get _ _
      λ w. Keeps-on_option _ _ _ Keeps-skip (λ io. Keeps-if _ Keeps-disconnect_io Keeps-skip)

pub Keeps-cmd_disconnect : (argv : List Text) → Keeps (cmd_disconnect argv)
unfolding cmd_disconnect
Keeps-cmd_disconnect argv = Keeps-disconnect_io

pub Keeps-cmd_exit : (argv : List Text) → Keeps (cmd_exit argv)
unfolding cmd_exit
Keeps-cmd_exit argv =
    Keeps->> (Keeps-call Event.main_loop_quit tt) (Keeps-modify _ (λ w. (refl, refl, refl)))
