-- ===== src/Connection/Opening.antt =====
-- What a connection that is made prints on its way.
use bluepy.Protocol.Emits.{Emits-print, Emits->>, Emits}
use bluepy.Protocol.Wire.{sym, str}
use bluepy.Status.Lines.{cmd_status-line, status_fields}
use bluepy.Protocol.{tag_errmsg, tag_errcode, err_conn_fail, rsp_error, resp_str_error, rsp_status}
use bluepy.Common.Int.{pos}
use bluepy.Protocol.Responses.{resp_str_error-line, field, line}
use bluepy.Status.{set_state, cmd_status}
use bluepy.Connection.{
  opt_psm, register_all, choose_mtu, start_connect, attach, set_destination, set_up_attrib,
  cmd_connect, connect_cb,
}
use bluepy.World.{
  print, on_option, modify, call, ◌>>◌, get, ◌>>=◌, Action, printed_text-append, connected,
  disconnected, Ptr, ret, Env, Event, steps, printed_text, connecting, World, Outcome,
}
use bluepy.Common.{
  codes, append_assoc, ap, ◌∙◌, refl, ◌++◌, ℕ, List, none, ◌≡◌, some, Text, [], ◌∷◌,
}

-- The world in which the report is printed that a connection is tried.
abbrev pub trying : Text → Text → World → World
trying addr addr_type w = record w {
  opt_dst = some addr;
  opt_dst_type = addr_type;
  opt_src = none;
  conn_state = connecting;
}

-- The part of `start_connect` behind the report.
dial : Env → Text → Action
dial env dst = do
  w ← get (λ w. w)
  let io = env.gatt_connect w.trace w.opt_src dst w.opt_dst_type w.opt_sec_level opt_psm w.opt_mtu
  call (Event.gatt_connect w.opt_src dst w.opt_dst_type w.opt_sec_level opt_psm w.opt_mtu)
  modify (λ v. record v { iochannel = io })
  on_option io (set_state disconnected) (λ chan. call (Event.io_add_watch chan))

cmd_connect-dials :
    (env : Env) (name addr addr_type : Text) (w : World) (o : Outcome (Unit {0}))
    → w.conn_state ≡ disconnected
    → cmd_status (trying addr addr_type w) ≡ o
    → cmd_connect env (name ∷ addr ∷ addr_type ∷ []) w
      ≡ ((λ _. o) >>= λ _. dial env addr) (trying addr addr_type w)
unfolding cmd_connect set_destination start_connect set_state dial steps
cmd_connect-dials env name addr addr_type w o c e =
    rw c (ap (λ p. ((λ _. p) >>= λ _. dial env addr) (trying addr addr_type w)) e)

dial-adds :
    (env : Env) (addr : Text) (io : Ptr) (w : World)
    → env.gatt_connect w.trace w.opt_src addr w.opt_dst_type w.opt_sec_level (pos 0) w.opt_mtu
      ≡ some io
    → dial env addr w
      ≡ ret tt (record w {
        iochannel = some io;
        trace =
            Event.io_add_watch io
            ∷ Event.gatt_connect w.opt_src addr w.opt_dst_type w.opt_sec_level (pos 0) w.opt_mtu
            ∷ w.trace;
      })
unfolding dial steps
dial-adds env addr io w h = rw h refl

pub cmd_connect-tries :
    (env : Env) (name addr addr_type : Text) (io : Ptr) (w : World)
    → w.conn_state ≡ disconnected
    → ((es : List Event)
        → env.gatt_connect es none addr addr_type w.opt_sec_level (pos 0) w.opt_mtu ≡ some io)
    → (t : List Event) × (let u = trying addr addr_type w in
        (cmd_connect env (name ∷ addr ∷ addr_type ∷ []) w
          ≡ ret tt (record u { iochannel = some io; trace = t }))
        × (printed_text t ≡ printed_text w.trace ++ line rsp_status (status_fields u)))
unfolding printed_text ◌>>=◌
cmd_connect-tries env name addr addr_type io w c gives =
    let u = trying addr addr_type w in
    let (es, eq, shown, only) = cmd_status-line u in
    (
      Event.io_add_watch io
          ∷ Event.gatt_connect none addr addr_type w.opt_sec_level (pos 0) w.opt_mtu
          ∷ (es ++ w.trace),
      (
        cmd_connect-dials env name addr addr_type w _ c eq
            ∙ dial-adds env addr io (record u { trace = es ++ w.trace }) (gives (es ++ w.trace)),
        rw (printed_text-append es w.trace, shown),
      ),
    )

-- The run returns in a world that is connected, with the settings of the world before, and has
-- printed the report of that.
abbrev pub Connects : World → Outcome (Unit {0}) → Type 0
Connects w o =
    (u : World) × (u.conn_state ≡ connected)
    × (u.opt_dst ≡ w.opt_dst)
    × (u.opt_mtu ≡ w.opt_mtu)
    × (u.opt_sec_level ≡ w.opt_sec_level)
    × (o ≡ ret tt u)
    × (printed_text u.trace ≡ printed_text w.trace ++ line rsp_status (status_fields u))

status-Connects :
    (o : Outcome (Unit {0})) (v w : World)
    → o ≡ cmd_status v
    → v.conn_state ≡ connected
    → v.opt_dst ≡ w.opt_dst
    → v.opt_mtu ≡ w.opt_mtu
    → v.opt_sec_level ≡ w.opt_sec_level
    → printed_text v.trace ≡ printed_text w.trace
    → Connects w o
status-Connects o v w run c d m s text =
    let (es, eq, shown, only) = cmd_status-line v in
    (
      record v { trace = es ++ v.trace },
      c,
      d,
      m,
      s,
      run ∙ eq,
      rw (printed_text-append es v.trace, shown, text),
    )

attach-Connects : (env : Env) (r : ℕ × ℕ) (w : World) → Connects w (attach env (some r) w)
unfolding attach choose_mtu register_all set_state printed_text steps
attach-Connects env r w = status-Connects _ _ w refl refl refl refl refl refl

pub connect_cb-Connects :
    (env : Env) (io : Ptr) (r : ℕ × ℕ) (w : World)
    → env.io_get w.trace io ≡ some r
    → Connects w (connect_cb env io none w)
unfolding connect_cb set_up_attrib steps
connect_cb-Connects env io r w h = rw h (attach-Connects env r w)

-- What follows the report that a connection has failed: an error response and a comment.
abbrev pub failure_text : Text → Text
failure_text message =
    line rsp_error (field tag_errcode (sym err_conn_fail) ∷ field tag_errmsg (str message) ∷ [])
    ++ (codes "# Connect error: " ++ message ++ codes "\n")

explain : Text → Action
explain message = do
  resp_str_error err_conn_fail message
  print (codes "# Connect error: " ++ message ++ codes "\n")

Emits-explain : (message : Text) → Emits (explain message) (failure_text message)
unfolding explain
Emits-explain message =
    Emits->> _ _ _ _ (resp_str_error-line err_conn_fail message).emits (Emits-print _ _ refl)

connect_cb-explains :
    (env : Env) (io : Ptr) (message : Text) (w : World) (o : Outcome (Unit {0}))
    → cmd_status (record w { conn_state = disconnected }) ≡ o
    → connect_cb env io (some message) w
      ≡ ((λ _. o) >>= λ _. explain message) (record w { conn_state = disconnected })
unfolding connect_cb set_state explain steps
connect_cb-explains env io message w o e =
    ap (λ p. ((λ _. p) >>= λ _. explain message) (record w { conn_state = disconnected })) e

-- The callback for a connection that has failed returns, disconnected, and prints the report of that
-- first.
pub connect_cb-fails :
    (env : Env) (io : Ptr) (message : Text) (w : World)
    → (t : List Event) × (let u = record w { conn_state = disconnected } in
        (connect_cb env io (some message) w ≡ ret tt (record u { trace = t }))
        × (printed_text t
            ≡ printed_text w.trace ++ (line rsp_status (status_fields u) ++ failure_text message)))
unfolding ◌>>=◌
connect_cb-fails env io message w =
    let u : World = record w { conn_state = disconnected } in
    let (es, eq, shown, only) = cmd_status-line u in
    let v : World = record u { trace = es ++ w.trace } in
    let (fs, eq', shown', only') = Emits-explain message v in
    (
      fs ++ (es ++ w.trace),
      (
        connect_cb-explains env io message w _ eq ∙ eq',
        rw (
          printed_text-append fs (es ++ w.trace),
          printed_text-append es w.trace,
          shown,
          shown',
          append_assoc (printed_text w.trace) (line rsp_status (status_fields u))
              (failure_text message),
        ),
      ),
    )
