-- ===== src/Progress/Protocol.antt =====
-- The responses of the protocol end a line.
use bluepy.Status.Lines.{Sends-status_state}
use bluepy.Protocol.Responses.{
  resp_mgmt-line, resp_error-line, resp_str_error-line, Sends-data, Sends-uint, Sends-addr,
  Sends-sym, Sends-str,
}
use bluepy.Progress.Replies.{replying, Replies->>, Replies}
use bluepy.Status.{status_state, cmd_status, set_state}
use bluepy.Progress.Runs.{Runs->>, Runs-Prints, Runs-modify, Runs-Emits, running, Runs}
use bluepy.Common.{refl, Option, ℕ, Text}
use bluepy.Protocol.{
  resp_end, send_str, send_addr, send_sym, send_uint, send_data, resp_error, resp_str_error,
  resp_mgmt_err, resp_att_error, resp_mgmt, AddrInfo, resp_begin,
}
use bluepy.World.{ConnState, Env}

pub Runs-resp_begin : (kind : Text) → Runs (resp_begin kind)
unfolding resp_begin
Runs-resp_begin kind = search running

pub Runs-send_sym : (t v : Text) → Runs (send_sym t v)
Runs-send_sym t v = Runs-Emits (Sends-sym t v).emits

pub Runs-send_uint : (t : Text) (n : ℕ) → Runs (send_uint t n)
Runs-send_uint t n = Runs-Emits (Sends-uint t n).emits

pub Runs-send_str : (t v : Text) → Runs (send_str t v)
Runs-send_str t v = Runs-Emits (Sends-str t v).emits

pub Runs-send_data : (val : Text) → Runs (send_data val)
Runs-send_data val = Runs-Emits (Sends-data val).emits

pub Runs-send_addr : (a : AddrInfo) → Runs (send_addr a)
Runs-send_addr a = Runs-Emits (Sends-addr a).emits

pub ruleset sending =
    (Runs-resp_begin, Runs-send_sym, Runs-send_uint, Runs-send_str, Runs-send_data, Runs-send_addr)

Runs-status_state : (st : ConnState) (dst : Option Text) → Runs (status_state st dst)
Runs-status_state st dst = Runs-Emits (Sends-status_state st dst).emits

pub Runs-resp_end : Runs resp_end
unfolding resp_end
Runs-resp_end = search running

pub Runs-cmd_status : Runs cmd_status
unfolding cmd_status
Runs-cmd_status = search (running, sending, Runs-status_state, Runs-resp_end) depth 8

pub Runs-set_state : (st : ConnState) → Runs (set_state st)
unfolding set_state
Runs-set_state st = Runs->> (Runs-modify _ (λ w. refl)) Runs-cmd_status

pub Runs-resp_error : (code : Text) → Runs (resp_error code)
Runs-resp_error code = Runs-Prints (resp_error-line code)

pub Runs-resp_str_error : (code msg : Text) → Runs (resp_str_error code msg)
Runs-resp_str_error code msg = Runs-Prints (resp_str_error-line code msg)

pub Runs-resp_mgmt : (code : Text) → Runs (resp_mgmt code)
Runs-resp_mgmt code = Runs-Prints (resp_mgmt-line code)

module _ {env : Env} where
  pub Replies-resp_error : (code : Text) → Replies env (resp_error code)
  unfolding resp_error
  Replies-resp_error code = search (replying, sending)

  pub Replies-resp_str_error : (code msg : Text) → Replies env (resp_str_error code msg)
  unfolding resp_str_error
  Replies-resp_str_error code msg = search (replying, sending)

  pub Replies-resp_mgmt : (code : Text) → Replies env (resp_mgmt code)
  unfolding resp_mgmt
  Replies-resp_mgmt code = search (replying, sending)

  pub Replies-resp_att_error : (status : ℕ) → Replies env (resp_att_error env status)
  unfolding resp_att_error
  Replies-resp_att_error status = search (replying, sending)

  pub Replies-resp_mgmt_err : (status : ℕ) → Replies env (resp_mgmt_err env status)
  unfolding resp_mgmt_err
  Replies-resp_mgmt_err status = search (replying, sending)

  pub Replies-cmd_status : Replies env cmd_status
  unfolding cmd_status
  Replies-cmd_status = search (replying, sending, Runs-status_state) depth 8

  pub Replies-set_state : (st : ConnState) → Replies env (set_state st)
  unfolding set_state
  Replies-set_state st = Replies->> (Runs-modify _ (λ w. refl)) Replies-cmd_status

pub ruleset responding = (
  Replies-resp_error, Replies-resp_str_error, Replies-resp_mgmt, Replies-resp_att_error,
  Replies-resp_mgmt_err, Replies-cmd_status, Replies-set_state,
)
