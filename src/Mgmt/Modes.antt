-- ===== src/Mgmt/Modes.antt =====
-- Switching modes of the controller.
--
-- bluepy/bluepy-helper.c, lines 1250 to 1303 and 1484 to 1494.
use bluepy.Common.{
  ℕ, Bool, true, false, Option, none, some, List, [], ◌∷◌, Text, codes, length, arg, has_prefix,
  ltb, if◌then◌else◌,
}
use bluepy.World.{on_option, Env, Ptr, M, Action, pure, skip, get, ◌>>=◌, ◌>>◌}
use bluepy.Protocol.{resp_error, resp_mgmt, err_no_mgmt, err_success, err_bad_param}
use bluepy.Mgmt.Request.{submit, request_complete}

abbrev pub mgmt_op_set_bondable : ℕ
mgmt_op_set_bondable = 0x0009

abbrev pub mgmt_op_set_le : ℕ
mgmt_op_set_le = 0x000d

-- The value of `cp.val`, from a prefix of the argument.
unfoldable pub mode_value : Text → Option ℕ
mode_value mode =
    if has_prefix (codes "on") mode
    then some 1
    else if has_prefix (codes "off") mode
    then some 0
    else none

module _ (env : Env) where
  unfoldable pub set_mode_complete : ℕ → Action
  set_mode_complete status = request_complete env status

  -- The request; a success is printed at once if it could not be sent.
  unfoldable pub send_mode : Ptr → ℕ → ℕ → M Bool
  send_mode master opcode val = do
    sent ← submit env master opcode (val ∷ [])
    if sent then skip else resp_mgmt err_success
    pure true

  unfoldable pub set_mode : ℕ → Text → M Bool
  set_mode opcode mode = do
    w ← get (λ w. w)
    on_option w.mgmt_master (do resp_error err_no_mgmt; pure true)
        (λ master. on_option (mode_value mode) (pure false) (λ val. send_mode master opcode val))

  -- `cmd_le` and `cmd_pairable` differ in the opcode.
  unfoldable pub mode_command : ℕ → List Text → Action
  mode_command opcode argv = if ltb (length argv) 2 then resp_mgmt err_bad_param else do
    understood ← set_mode opcode (arg argv 1)
    if understood then skip else resp_mgmt err_bad_param

  unfoldable pub cmd_le : List Text → Action
  cmd_le argv = mode_command mgmt_op_set_le argv

  unfoldable pub cmd_pairable : List Text → Action
  cmd_pairable argv = mode_command mgmt_op_set_bondable argv
