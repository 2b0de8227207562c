-- ===== src/Safety/Connection.antt =====
-- Making a connection keeps the invariant, if the library gives an attribute channel.
use bluepy.Common.Hex.Digits.{All}
use bluepy.Common.{
  if◌then◌else◌, Bool, true, false, ℕ, Option, none, some, List, [], ◌∷◌, ◌++◌, Text, codes, refl,
  ltb, length, ◌≡◌, ◌≢◌,
}
use bluepy.Protocol.{err_conn_fail, rsp_status, tag_response}
use bluepy.Protocol.Wire.{sym, encode}
use bluepy.Protocol.Responses.{field, line}
use bluepy.Status.{cmd_status, set_state}
use bluepy.Status.Lines.{cmd_status-line, status_fields}
use bluepy.Connection.{
  choose_mtu, register_all, registrations, attach, set_up_attrib, connect_cb, set_destination,
  start_connect, cmd_connect,
}
use bluepy.Safety.Invariant.{
  Keeps-call, Keeps-on_option, Holds, Inv, Keeps, Keeps-get, Keeps->>, Keeps-modify, Keeps-comment,
  Holds-EmitsAt, IsAttached, line-ne-nil, line-EndsLine,
}
use bluepy.Safety.Basics.{Keeps-set_state, disconnected_ne_connected, Keeps-resp_str_error}
use bluepy.Safety.Rules.{keeping}
use bluepy.World.{
  ◌>>=◌, get, modify, Ptr, Event, Handler, connected, disconnected, connecting, ◌>>◌, Env, World,
  steps,
}

-- `g_attrib_new` returns a channel for an I/O channel, which for NULL it does not.
abbrev pub GivesAttrib : Env → Type 0
GivesAttrib env = (es : List Event) (io : Ptr) (mtu : ℕ) → env.attrib_new es (some io) mtu ≢ none

gives_attrib :
    (env : Env)
    → GivesAttrib env
    → (es : List Event) (io : Option Ptr) (mtu : ℕ) → io ≢ none
    → env.attrib_new es io mtu ≢ none
gives_attrib env gives es none mtu h = absurd (h refl)
gives_attrib env gives es (some io) mtu h = gives es io mtu

-- The process becomes connected, on a line that may have been begun.
Holds-connected :
    (w : World) → w.attrib ≢ none → All IsAttached w.trace → Holds (set_state connected w)
unfolding set_state steps
Holds-connected w attached requests =
    let v = record w { conn_state = connected } in
    Holds-EmitsAt v cmd_status (line rsp_status (status_fields v)) (cmd_status-line v)
      (line-ne-nil (encode (field tag_response (sym rsp_status)) (status_fields v)))
      (line-EndsLine rsp_status (status_fields v)) (λ _. attached) requests

Holds-register_all :
    (attrib : Option Ptr) (rs : List (ℕ × Handler)) (w : World)
    → w.attrib ≢ none
    → All IsAttached w.trace
    → Holds ((register_all attrib rs >> set_state connected) w)
unfolding register_all steps
Holds-register_all attrib [] w attached requests = Holds-connected w attached requests
Holds-register_all attrib ((opcode, handler) ∷ rest) w attached requests =
    Holds-register_all attrib rest _ attached (tt, requests)

Holds-attach :
    (env : Env) (r : Option (ℕ × ℕ)) (w : World)
    → GivesAttrib env
    → w.iochannel ≢ none
    → Inv w
    → Holds (attach env r w)
unfolding attach choose_mtu steps
Holds-attach env none w gives opened inv =
    Holds-register_all _ registrations _ (gives_attrib env gives _ _ _ opened)
      (tt, (tt, inv.requests))
Holds-attach env (some r) w gives opened inv =
    Holds-register_all _ registrations _ (gives_attrib env gives _ _ _ opened) (tt, inv.requests)

pub Holds-connect_cb :
    (env : Env) (io : Ptr) (w : World)
    → GivesAttrib env
    → w.iochannel ≢ none
    → Inv w
    → Holds (connect_cb env io none w)
unfolding connect_cb set_up_attrib get ◌>>=◌
Holds-connect_cb env io w gives opened inv =
    Holds-attach env (env.io_get w.trace io) w gives opened inv

pub Keeps-connect_error :
    (env : Env) (io : Ptr) (message : Text) → Keeps (connect_cb env io (some message))
unfolding connect_cb
Keeps-connect_error env io message =
    Keeps->> (Keeps-set_state disconnected disconnected_ne_connected) (
      Keeps->> (Keeps-resp_str_error err_conn_fail message)
        (Keeps-comment (codes "# Connect error: " ++ message)))

-- Neither branch of an if changes what the invariant speaks of.
if-same :
    (v w : World) (b : Bool)
    → (v.trace ≡ w.trace) × (v.conn_state ≡ w.conn_state) × (v.attrib ≡ w.attrib)
    → let u = if b then v else w in
      (u.trace ≡ w.trace) × (u.conn_state ≡ w.conn_state) × (u.attrib ≡ w.attrib)
if-same v w true h = h
if-same v w false h = (refl, refl, refl)

Keeps-set_destination : (env : Env) (argv : List Text) → Keeps (modify (set_destination env argv))
unfolding set_destination
Keeps-set_destination env argv =
    Keeps-modify _ (λ w. if-same _ w (ltb 1 (length argv)) (refl, refl, refl))

pub Keeps-start_connect : (env : Env) (dst : Text) → Keeps (start_connect env dst)
unfolding start_connect
Keeps-start_connect env dst = Keeps->> (Keeps-set_state connecting (λ e. cc)) (
    Keeps-get _ _ (λ w. Keeps->> (Keeps-call _ tt) (
      Keeps->> (Keeps-modify _ (λ v. (refl, refl, refl))) (
        Keeps-on_option _ _ _ (Keeps-set_state disconnected disconnected_ne_connected)
          (λ chan. Keeps-call _ tt)))))

pub Keeps-cmd_connect : (env : Env) (argv : List Text) → Keeps (cmd_connect env argv)
unfolding cmd_connect
Keeps-cmd_connect env argv = search (keeping, Keeps-set_destination, Keeps-start_connect) depth 8
