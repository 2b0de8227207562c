-- ===== src/Protocol.antt =====
-- The response protocol: the names that it uses and the functions that print them.
--
-- bluepy/bluepy-helper.c, lines 107 to 248.
mod Names
pub mod Emits
pub mod Wire
pub mod Responses
pub use Names.*
use bluepy.Common.{ℕ, zero, suc, List, [], ◌∷◌, ◌++◌, Text, codes, byte_at}
use bluepy.Common.Hex.{show_hex, show_byte}
use bluepy.World.{Env, Action, skip, print, ◌>>=◌, ◌>>◌}

-- RESP_DELIM
abbrev pub resp_delim : ℕ
resp_delim = 0x1e

unfoldable pub resp_begin : Text → Action
resp_begin rsptype = print (tag_response ++ codes "=$" ++ rsptype)

unfoldable pub send_sym : Text → Text → Action
send_sym tag val = print (resp_delim ∷ tag ++ codes "=$" ++ val)

unfoldable pub send_uint : Text → ℕ → Action
send_uint tag val = print (resp_delim ∷ tag ++ codes "=h" ++ show_hex val)

unfoldable pub send_str : Text → Text → Action
send_str tag val = print (resp_delim ∷ tag ++ codes "='" ++ val)

-- The loop of `send_data` over the bytes left.
unfoldable pub send_bytes : Text → Action
send_bytes [] = skip
send_bytes (b ∷ val) = do print (show_byte b); send_bytes val

unfoldable pub send_data : Text → Action
send_data val = do print (resp_delim ∷ tag_data ++ codes "=b"); send_bytes val

-- `struct mgmt_addr_info`: `bdaddr` holds six bytes, the least significant first.
pub record AddrInfo : Type 0 where
  pub bdaddr : Text
  pub addr_type : ℕ

-- The loop of `send_addr`, which counts `len` down.
unfoldable pub send_addr_bytes : Text → ℕ → Action
send_addr_bytes val zero = skip
send_addr_bytes val (suc len) = do print (show_byte (byte_at val len)); send_addr_bytes val len

unfoldable pub send_addr : AddrInfo → Action
send_addr addr = do
  print (resp_delim ∷ tag_addr ++ codes "=b")
  send_addr_bytes addr.bdaddr 6
  send_uint tag_type addr.addr_type

unfoldable pub resp_end : Action
resp_end = print (codes "\n")

unfoldable pub resp_error : Text → Action
resp_error errcode = do resp_begin rsp_error; send_sym tag_errcode errcode; resp_end

unfoldable pub resp_str_error : Text → Text → Action
resp_str_error errcode msg = do
  resp_begin rsp_error
  send_sym tag_errcode errcode
  send_str tag_errmsg msg
  resp_end

unfoldable pub resp_att_error : Env → ℕ → Action
resp_att_error env status = do
  resp_begin rsp_error
  send_sym tag_errcode err_att_err
  send_uint tag_errstat status
  send_str tag_errmsg (env.att_ecode_str status)
  resp_end

unfoldable pub resp_mgmt : Text → Action
resp_mgmt errcode = do resp_begin rsp_mgmt; send_sym tag_errcode errcode; resp_end

unfoldable pub resp_mgmt_err : Env → ℕ → Action
resp_mgmt_err env status = do
  resp_begin rsp_mgmt
  send_sym tag_errcode err_mgmt_err
  send_uint tag_errstat status
  send_str tag_errmsg (env.mgmt_errstr status)
  resp_end
