-- ===== src/Gatt/Mtu.antt =====
-- The exchange of the MTU.
--
-- bluepy/bluepy-helper.c, lines 1189 to 1248.
use bluepy.Common.{ℕ, ◌%◌, ◌||◌, not, List, Text, codes, length, arg, ltb, if◌then◌else◌}
use bluepy.Common.Int.{ℤ, pos, negsuc, is_zero, lt_ℕ, to_int, to_u16}
use bluepy.World.{on_option, Env, Event, Action, get, modify, call, print, assert, ◌>>=◌, ◌>>◌}
use bluepy.Protocol.{resp_error, err_decoding, err_call_fail, err_bad_param, err_bad_state}
use bluepy.Status.{cmd_status}
use bluepy.Connection.{opt_psm, att_default_le_mtu}
use bluepy.Gatt.Handle.{strtoll}
use bluepy.Gatt.Reports.{unless_error}
use bluepy.Gatt.Discovery.{when_connected}

-- `MIN(mtu, opt_mtu)`, stored into a uint16_t.
unfoldable pub min_mtu : ℕ → ℤ → ℕ
min_mtu mtu (pos m) = if ltb mtu m then mtu else m % 65536
min_mtu mtu (negsuc m) = to_u16 (negsuc m)

unfoldable pub cmd_mtu : List Text → Action
cmd_mtu argv = when_connected λ w. do
  assert (is_zero opt_psm)
  if ltb (length argv) 2
      then resp_error err_bad_param
      else if not (is_zero w.opt_mtu)
      then resp_error err_bad_state
      else let r = strtoll (arg argv 1) in
        let mtu = to_int r.value in
        do
          modify (λ v. record v { opt_mtu = mtu })
          if r.out_of_range || lt_ℕ mtu att_default_le_mtu
              then resp_error err_bad_param
              else call (Event.exchange_mtu w.attrib (to_u16 mtu))

module _ (env : Env) where
  -- `g_attrib_set_mtu` with the smaller MTU, and the report of its result.
  unfoldable pub apply_mtu : ℕ → Action
  apply_mtu answered = do
    w ← get (λ w. w)
    let mtu = min_mtu answered w.opt_mtu
    call (Event.attrib_set_mtu w.attrib mtu)
    if env.attrib_set_mtu w.trace w.attrib mtu
        then (do modify (λ v. record v { opt_mtu = pos mtu }); cmd_status)
        else do print (codes "# Error exchanging MTU\n"); resp_error err_call_fail

  unfoldable pub exchange_mtu_cb : ℕ → Text → Action
  exchange_mtu_cb status pdu =
      unless_error env status
        (on_option (env.dec_mtu_resp pdu) (resp_error err_decoding) (λ mtu. apply_mtu mtu))
