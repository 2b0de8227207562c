-- ===== src/Mgmt/Scan.antt =====
-- Active scanning.
--
-- bluepy/bluepy-helper.c, lines 1599 to 1652.
use bluepy.Common.{ℕ, Bool, true, false, not, List, [], ◌∷◌, Text, length, ◌==◌, ltb, if◌then◌else◌}
use bluepy.World.{Env, Action, skip, ◌>>=◌}
use bluepy.Protocol.{resp_mgmt, resp_mgmt_err, err_busy, err_success, err_send_fail, err_bad_param}
use bluepy.Mgmt.Request.{with_mgmt, submit, mgmt_status_success}

abbrev pub mgmt_status_busy : ℕ
mgmt_status_busy = 0x0a

abbrev pub mgmt_op_start_discovery : ℕ
mgmt_op_start_discovery = 0x0023

abbrev pub mgmt_op_stop_discovery : ℕ
mgmt_op_stop_discovery = 0x0024

-- (1 << BDADDR_LE_PUBLIC) | (1 << BDADDR_LE_RANDOM)
abbrev pub both_le_types : ℕ
both_le_types = 6

module _ (env : Env) where
  unfoldable pub scan_cb : ℕ → Action
  scan_cb status =
      if not (status == mgmt_status_success)
      then if status == mgmt_status_busy then resp_mgmt err_busy else resp_mgmt_err env status
      else resp_mgmt err_success

  unfoldable pub scan : Bool → Action
  scan on = with_mgmt λ master w. do
    sent ←
        submit env master (if on then mgmt_op_start_discovery else mgmt_op_stop_discovery)
          (both_le_types ∷ [])
    if sent then skip else resp_mgmt err_send_fail

  unfoldable pub cmd_scanend : List Text → Action
  cmd_scanend argv = if ltb 1 (length argv) then resp_mgmt err_bad_param else scan false

  unfoldable pub cmd_scan : List Text → Action
  cmd_scan argv = if ltb 1 (length argv) then resp_mgmt err_bad_param else scan true
