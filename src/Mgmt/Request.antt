-- ===== src/Mgmt/Request.antt =====
-- What the requests to the management interface share.
use bluepy.Common.{ℕ, Bool, not, Text, codes, has_prefix, ◌==◌, if◌then◌else◌}
use bluepy.World.{on_option, Env, World, Ptr, Event, M, Action, pure, get, call, ◌>>=◌, ◌>>◌}
use bluepy.Protocol.{resp_error, resp_mgmt, resp_mgmt_err, err_no_mgmt, err_success}

abbrev pub mgmt_status_success : ℕ
mgmt_status_success = 0

abbrev pub bdaddr_le_public : ℕ
bdaddr_le_public = 1

abbrev pub bdaddr_le_random : ℕ
bdaddr_le_random = 2

-- `addr_type`, which is random unless the text begins with "public".
abbrev pub addr_type_of : Text → ℕ
addr_type_of name = if has_prefix (codes "public") name then bdaddr_le_public else bdaddr_le_random

-- `if (!mgmt_master) { resp_error(err_NO_MGMT); return; }`
unfoldable pub with_mgmt : (Ptr → World → Action) → Action
with_mgmt body = do
  w ← get (λ w. w)
  on_option w.mgmt_master (resp_error err_no_mgmt) (λ master. body master w)

module _ (env : Env) where
  -- `mgmt_send(mgmt_master, opcode, mgmt_ind, sizeof(cp), &cp, …) != 0`
  unfoldable pub submit : Ptr → ℕ → Text → M Bool
  submit master opcode cp = do
    w ← get (λ w. w)
    call (Event.mgmt_send master opcode w.mgmt_ind cp)
    pure (not (env.mgmt_send w.trace master opcode w.mgmt_ind cp == 0))

  -- The callbacks of the modes and of pairing have one body.
  unfoldable pub request_complete : ℕ → Action
  request_complete status =
      if not (status == mgmt_status_success)
      then resp_mgmt_err env status
      else resp_mgmt err_success
