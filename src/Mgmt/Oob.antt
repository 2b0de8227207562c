-- ===== src/Mgmt/Oob.antt =====
-- Out-of-band pairing data.
--
-- bluepy/bluepy-helper.c, lines 1305 to 1482.
pub mod Args
pub mod Freed
use bluepy.Common.{
  ◌+◌, leb, ℕ, Bool, true, false, not, ◌&&◌, Option, none, some, List, [], ◌∷◌, ◌++◌, Text, codes,
  length, arg, byte_at, gather, replicate, has_prefix, ◌==◌, ltb, if◌then◌else◌,
}
use bluepy.World.{
  on_option, Env, Ptr, Buffer, Event, M, Action, pure, skip, get, call, require, ◌>>=◌, ◌>>◌,
}
use bluepy.Protocol.{
  resp_begin, resp_end, resp_error, resp_mgmt, resp_mgmt_err, send_data, rsp_oob, err_no_mgmt,
  err_bad_param, err_send_fail, err_not_found,
}
use bluepy.Mgmt.Request.{submit, addr_type_of}

abbrev pub mgmt_op_add_remote_oob_data : ℕ
mgmt_op_add_remote_oob_data = 0x0021

abbrev pub mgmt_op_read_local_oob_ext_data : ℕ
mgmt_op_read_local_oob_ext_data = 0x003b

-- The local variable `oob`, which is not set at first, and which keeps a pointer that was freed.
pub data Slot : Type 0 where
  uninitialised : Slot
  pointer dangling : Option Buffer → Slot

-- `g_free(oob)`, which NULL is fit for, but neither a variable that was not set nor freed memory.
unfoldable pub free_slot : Slot → Action
free_slot uninitialised = require false
free_slot (pointer none) = call (Event.free none)
free_slot (pointer (some b)) = call (Event.free (some b.addr))
free_slot (dangling none) = call (Event.free none)
free_slot (dangling (some b)) = require false

-- The source of `memcpy(…, oob, 16)`, which has to have as many bytes.
unfoldable pub copy_16 : Option Buffer → M Text
copy_16 none = do require false; pure []
copy_16 (some b) = do require (leb 16 b.size); pure (gather b.mem 0 16)

-- A hash and a randomizer of `mgmt_cp_add_remote_oob_data`, and what `oob` then holds.
pub record Keys : Type 0 where
  pub hash : Text
  pub rand : Text
  pub oob : Slot

-- `struct mgmt_rp_read_local_oob_ext_data`, with the bytes from `eir` on.
pub record LocalOob : Type 0 where
  pub eir_len : ℕ
  pub eir : ℕ → ℕ

-- The arguments that `cmd_add_oob` passes on as hash and randomizer, of 192 and of 256 bits.
pub record OobArgs : Type 0 where
  pub c192 : Option Text
  pub r192 : Option Text
  pub c256 : Option Text
  pub r256 : Option Text

-- The tests of `cmd_add_oob` on its arguments from the third on.
unfoldable pub oob_args : List Text → OobArgs
oob_args argv =
    let is = λ (i : ℕ) (label : Text). has_prefix label (arg argv i) in
    if is 3 (codes "C_192") && is 5 (codes "R_192")
    then if ltb 8 (length argv) && is 5 (codes "C_256") && is 7 (codes "R_256")
      then record {
        c192 = some (arg argv 4);
        r192 = some (arg argv 6);
        c256 = some (arg argv 6);
        r256 = some (arg argv 8);
      }
      else record { c192 = some (arg argv 4); r192 = some (arg argv 6); c256 = none; r256 = none }
    else if is 3 (codes "C_256") && is 5 (codes "R_256")
    then record { c192 = none; r192 = none; c256 = some (arg argv 4); r256 = some (arg argv 6) }
    else record { c192 = none; r192 = none; c256 = none; r256 = none }

-- The reply to `read_local_oob_data` is dereferenced before the status is looked at.
unfoldable pub read_local_oob_data_complete : Env → ℕ → Option LocalOob → Action
read_local_oob_data_complete env status none = require false
read_local_oob_data_complete env status (some rp) =
    if not (status == 0)
    then resp_mgmt_err env status
    else do resp_begin rsp_oob; send_data (gather rp.eir 0 rp.eir_len); resp_end

abbrev pub zeros : Text
zeros = replicate 16 0

module _ (env : Env) where
  -- The decoding of one argument into `oob`; `none` after the error has been reported.
  unfoldable pub decode_arg : Text → M (Option (Option Buffer))
  decode_arg s = do
    w ← get (λ w. w)
    let (len, oob) = env.attr_data w.trace s
    if len == 0
        then (do resp_error err_bad_param; free_slot (pointer oob); pure none)
        else pure (some oob)

  -- The second half of a pair: what is copied is the argument `rand` itself, with its NUL.
  unfoldable pub decode_rand : Text → Text → M (Option Keys)
  decode_rand hash rand = do
    decoded ← decode_arg rand
    on_option decoded (pure none) (λ oob. do
      require (leb 16 (length rand + 1))
      free_slot (pointer oob)
      pure (some (record { hash = hash; rand = gather (byte_at rand) 0 16; oob = dangling oob })))

  -- One of the blocks `if (hash192 && rand192)`, `if (hash256 && rand256)`.
  unfoldable pub decode_keys : Option Text → Option Text → Slot → M (Option Keys)
  decode_keys (some hash) (some rand) oob = do
    decoded ← decode_arg hash
    on_option decoded (pure none)
        (λ first. do bytes ← copy_16 first; free_slot (pointer first); decode_rand bytes rand)
  decode_keys _ _ oob = pure (some (record { hash = zeros; rand = zeros; oob = oob }))

  -- The request, once both pairs are decoded.
  unfoldable pub send_oob : Ptr → Text → ℕ → Keys → Keys → M Bool
  send_oob master bdaddr addr_type k192 k256 = do
    sent ←
        submit env master mgmt_op_add_remote_oob_data
          (bdaddr ++ addr_type ∷ (k192.hash ++ k192.rand ++ k256.hash ++ k256.rand))
    if sent then skip else resp_error err_send_fail
    free_slot k256.oob
    pure sent

  unfoldable pub add_remote_oob_data :
      Text → ℕ → Option Text → Option Text → Option Text → Option Text → M Bool
  add_remote_oob_data bdaddr addr_type hash192 rand192 hash256 rand256 = do
    w ← get (λ w. w)
    on_option w.mgmt_master (do resp_error err_no_mgmt; pure true)
        (λ master. do
          first ← decode_keys hash192 rand192 uninitialised
          on_option first (pure false) (λ k192. do
            second ← decode_keys hash256 rand256 k192.oob
            on_option second (pure false) (λ k256. send_oob master bdaddr addr_type k192 k256)))

  unfoldable pub add_remote_oob_data_complete : ℕ → Action
  add_remote_oob_data_complete status = if not (status == 0) then resp_mgmt_err env status else skip

  unfoldable pub cmd_add_oob : List Text → Action
  cmd_add_oob argv =
      if ltb (length argv) 7
      then resp_mgmt err_bad_param
      else on_option (env.str_to_ba (some (arg argv 1))) (resp_mgmt err_not_found) (λ bdaddr.
        let o = oob_args argv in
        do
          added ← add_remote_oob_data bdaddr (addr_type_of (arg argv 2)) o.c192 o.r192 o.c256 o.r256
          skip)

  unfoldable pub read_local_oob_data : M Bool
  read_local_oob_data = do
    w ← get (λ w. w)
    on_option w.mgmt_master (do resp_error err_no_mgmt; pure true)
        (λ master. do
          sent ← submit env master mgmt_op_read_local_oob_ext_data (6 ∷ [])
          if sent then skip else resp_error err_send_fail
          pure sent)

  unfoldable pub cmd_read_oob : List Text → Action
  cmd_read_oob argv = do done ← read_local_oob_data; skip
