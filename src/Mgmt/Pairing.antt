-- ===== src/Mgmt/Pairing.antt =====
-- Pairing and unpairing.
--
-- bluepy/bluepy-helper.c, lines 1496 to 1597.
use bluepy.Common.{ℕ, not, List, [], ◌∷◌, ◌++◌, Text, if◌then◌else◌}
use bluepy.World.{on_option, Env, World, Ptr, Action, skip, ◌>>=◌}
use bluepy.Protocol.{resp_mgmt, err_send_fail, err_bad_state, err_not_found}
use bluepy.Connection.{is_connected}
use bluepy.Mgmt.Request.{with_mgmt, submit, request_complete, addr_type_of}

abbrev pub mgmt_op_pair_device : ℕ
mgmt_op_pair_device = 0x0019

abbrev pub mgmt_op_unpair_device : ℕ
mgmt_op_unpair_device = 0x001b

-- IO_CAPABILITY_NOINPUTNOOUTPUT
abbrev pub io_capability_none : ℕ
io_capability_none = 0x03

module _ (env : Env) where
  unfoldable pub pair_device_complete : ℕ → Action
  pair_device_complete status = request_complete env status

  unfoldable pub unpair_device_complete : ℕ → Action
  unpair_device_complete status = request_complete env status

  -- A request about the device at `opt_dst`: its address, its address type, and one byte more.
  unfoldable pub device_request : Ptr → World → ℕ → ℕ → Action
  device_request master w opcode last =
      on_option (env.str_to_ba w.opt_dst) (resp_mgmt err_not_found) (λ bdaddr. do
        sent ← submit env master opcode (bdaddr ++ addr_type_of w.opt_dst_type ∷ last ∷ [])
        if sent then skip else resp_mgmt err_send_fail)

  unfoldable pub cmd_pair : List Text → Action
  cmd_pair argv = with_mgmt λ master w.
      if not (is_connected w.conn_state)
      then resp_mgmt err_bad_state
      else device_request master w mgmt_op_pair_device io_capability_none

  unfoldable pub cmd_unpair : List Text → Action
  cmd_unpair argv = with_mgmt λ master w. device_request master w mgmt_op_unpair_device 1
