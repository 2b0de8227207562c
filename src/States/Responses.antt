-- ===== src/States/Responses.antt =====
-- The responses of the protocol do not change the connection state.
use bluepy.Protocol.Responses.{
  resp_str_error-line, resp_mgmt-line, resp_error-line, Sends-data, Sends-uint, resp_att_error-line,
  Sends-str, resp_mgmt_err-line,
}
use bluepy.Gatt.Discovery.{when_connected}
use bluepy.Gatt.Reports.{unless_error}
use bluepy.Protocol.{
  resp_str_error, send_uint, resp_mgmt_err, resp_error, send_data, resp_att_error, resp_mgmt,
  send_str, resp_begin, resp_end,
}
use bluepy.Mgmt.Request.{submit, with_mgmt}
use bluepy.World.{Ptr, World, Action, Env, ConnState}
use bluepy.States.Moves.{
  Moves-Prints, Moves-Emits, Moves-on_option, Moves-if, Moves-get, moving, Moves, Moves-cmd_status,
}
use bluepy.Common.{◌==◌, ℕ, Text}

module _ {E : ConnState → ConnState → Type 0} where
  pub Moves-resp_begin : (kind : Text) → Moves E (resp_begin kind)
  unfolding resp_begin
  Moves-resp_begin kind = search moving

  pub Moves-resp_end : Moves E resp_end
  unfolding resp_end
  Moves-resp_end = search moving

  pub Moves-send_uint : (t : Text) (n : ℕ) → Moves E (send_uint t n)
  Moves-send_uint t n = Moves-Emits (Sends-uint t n).emits

  pub Moves-send_str : (t v : Text) → Moves E (send_str t v)
  Moves-send_str t v = Moves-Emits (Sends-str t v).emits

  pub Moves-send_data : (val : Text) → Moves E (send_data val)
  Moves-send_data val = Moves-Emits (Sends-data val).emits

  pub Moves-resp_error : (code : Text) → Moves E (resp_error code)
  Moves-resp_error code = Moves-Prints (resp_error-line code)

  pub Moves-resp_str_error : (code msg : Text) → Moves E (resp_str_error code msg)
  Moves-resp_str_error code msg = Moves-Prints (resp_str_error-line code msg)

  pub Moves-resp_mgmt : (code : Text) → Moves E (resp_mgmt code)
  Moves-resp_mgmt code = Moves-Prints (resp_mgmt-line code)

  pub Moves-resp_att_error : (env : Env) (status : ℕ) → Moves E (resp_att_error env status)
  Moves-resp_att_error env status = Moves-Prints (resp_att_error-line env status)

  pub Moves-resp_mgmt_err : (env : Env) (status : ℕ) → Moves E (resp_mgmt_err env status)
  Moves-resp_mgmt_err env status = Moves-Prints (resp_mgmt_err-line env status)

  pub Moves-when_connected :
      {body : World → Action} → ((w : World) → Moves E (body w)) → Moves E (when_connected body)
  unfolding when_connected
  Moves-when_connected k = Moves-get _ _ (λ w. Moves-if _ (Moves-resp_error _) (k w))

  pub Moves-unless_error :
      {report : Action} (env : Env) (status : ℕ)
      → Moves E report
      → Moves E (unless_error env status report)
  unfolding unless_error
  Moves-unless_error env status h = Moves-if (status == 0) h (Moves-resp_att_error env status)

  pub Moves-with_mgmt :
      {body : Ptr → World → Action}
      → ((p : Ptr) (w : World) → Moves E (body p w))
      → Moves E (with_mgmt body)
  unfolding with_mgmt
  Moves-with_mgmt k = Moves-get _ _ (λ w. Moves-on_option _ _ _ (Moves-resp_error _) (λ p. k p w))

  pub Moves-submit :
      (env : Env) (master : Ptr) (opcode : ℕ) (cp : Text) → Moves E (submit env master opcode cp)
  unfolding submit
  Moves-submit env master opcode cp = search moving

pub ruleset answering = (
  Moves-resp_begin, Moves-resp_end, Moves-send_uint, Moves-send_str, Moves-send_data,
  Moves-resp_error, Moves-resp_str_error, Moves-resp_mgmt, Moves-resp_att_error,
  Moves-resp_mgmt_err, Moves-cmd_status, Moves-when_connected, Moves-unless_error, Moves-with_mgmt,
  Moves-submit,
)
